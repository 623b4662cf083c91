-- ===== src/Session/Timers.antt =====
-- demo/main.js, the intervals: `startHeartbeat`, `stopHeartbeat`, `startJoinCountdown`,
-- `stopJoinCountdown`, and one round of the countdown's callback.
use speech_to_speech_k8s.Base.{ℕ, suc, ◌-◌, ◌*◌, [], ◌∷◌, List, if◌then◌else◌, leb, ltb, ◌==◌}
use speech_to_speech_k8s.View.{join_label_of}
use speech_to_speech_k8s.Session.{Session, Interval}

-- `clearInterval`
unfoldable pub clear : ℕ → List Interval → List Interval
clear id [] = []
clear id ((i, x) ∷ is) = if i == id then clear id is else (i, x) ∷ clear id is

abbrev pub cleared : ℕ → Session → Session
cleared id s = record s { beats = clear id s.beats; countdowns = clear id s.countdowns }

unfoldable pub stop_heartbeat : Session → Session
stop_heartbeat s =
    if s.heartbeat_timer == 0
    then s
    else record (cleared s.heartbeat_timer s) { heartbeat_timer = 0 }

unfoldable pub stop_countdown : Session → Session
stop_countdown s =
    if s.countdown_timer == 0
    then s
    else record (cleared s.countdown_timer s) { countdown_timer = 0 }

-- `setInterval` gives the next id.
abbrev pub set_heartbeat : ℕ → Session → Session
set_heartbeat sec s = record s {
  beats = (suc s.last_timer, (if ltb sec 1 then 1 else sec) * 1000) ∷ s.beats;
  heartbeat_timer = suc s.last_timer;
  last_timer = suc s.last_timer;
}

unfoldable pub start_heartbeat : ℕ → Session → Session
start_heartbeat sec s = set_heartbeat sec (stop_heartbeat s)

abbrev pub paint : ℕ → Session → Session
paint left s = record s { view = record (s.view) { join_label = join_label_of left } }

abbrev pub set_countdown : ℕ → Session → Session
set_countdown left s = record s {
  countdowns = (suc s.last_timer, left) ∷ s.countdowns;
  countdown_timer = suc s.last_timer;
  last_timer = suc s.last_timer;
}

-- `sec` is the whole number of seconds, at least 0.
unfoldable pub start_countdown : ℕ → Session → Session
start_countdown sec s = set_countdown sec (paint sec (stop_countdown s))

-- The closure's `left` after one second.
unfoldable pub set_left : ℕ → ℕ → List Interval → List Interval
set_left id left [] = []
set_left id left ((i, x) ∷ is) = (i, if i == id then left else x) ∷ set_left id left is

-- One round of the callback of the interval `id`, which has `left` seconds.
unfoldable pub tick_countdown : ℕ → ℕ → Session → Session
tick_countdown id left s =
    if leb left 1
    then paint 0 (stop_countdown (record s { countdowns = set_left id (left - 1) s.countdowns }))
    else paint (left - 1) (record s { countdowns = set_left id (left - 1) s.countdowns })
