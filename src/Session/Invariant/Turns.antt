-- ===== src/Session/Invariant/Turns.antt =====
-- The listeners and the parts of `doStart` keep the timers and the view in order.
use speech_to_speech_k8s.Base.{
  ℕ, ◌-◌, ◌≡◌, refl, inl, inr, Bool, true, false, not, ◌&&◌, Option, none, some, List, [], ◌∷◌,
  arith, Bool-cases, leb, Text, is_nonempty,
}
use speech_to_speech_k8s.Js.Result.{Failure, Result, ok, throw}
use speech_to_speech_k8s.Settings.{Transport}
use speech_to_speech_k8s.Connection.{Target, effective_transport}
use speech_to_speech_k8s.Connection.Url.{UrlApi}
use speech_to_speech_k8s.View.{View, AppState, connecting}
use speech_to_speech_k8s.Session.{Session, Interval}
use speech_to_speech_k8s.Session.Timers.{
  start_countdown, start_heartbeat, stop_heartbeat, set_left, tick_countdown,
}
use speech_to_speech_k8s.Session.Start.{
  sync_client, sync_mic_mute_state, resolve, prepare, ask_mic, drop_audio, do_start, primed,
  connected,
}
use speech_to_speech_k8s.Session.Events.{
  Status, SessionInfo, on_client_status, on_queue, track_held, on_ready_to_join, on_session,
  toggle_mute, tell_join, on_beat, on_second, closed, unknown,
}
use speech_to_speech_k8s.Session.Invariant.{
  IsOwned, IsShown, Inv, start_heartbeat-OwnsTimers, start_countdown-OwnsTimers,
}
use speech_to_speech_k8s.Session.Invariant.Teardown.{
  stop_countdown-Inv, caption-IsShown, set_state-Inv, handle_start_error-Inv,
}

pub sync_client-Inv : (m : Bool) (c : Option ℕ) (s : Session) → Inv s → Inv (sync_client m c s)
sync_client-Inv m none s v = v
sync_client-Inv m (some c) s v = v

pub sync_mic_mute_state-Inv : (s : Session) → Inv s → Inv (sync_mic_mute_state s)
unfolding sync_mic_mute_state
sync_mic_mute_state-Inv s v = sync_client-Inv _ s.client _ v

module _ (api : UrlApi) (truncate : Text → Text) where
  pub ask_mic-Inv :
      (target : Option Target) (t : Transport) (audio : Bool) (s : Session)
      → Inv s
      → Inv (ask_mic target t audio s)
  ask_mic-Inv target t audio s v =
      let (v', w) = set_state-Inv connecting (prepare t s) v.0 in (v', caption-IsShown _ _ _ _ w)

  pub resolved-Inv :
      (r : Result (Option Target)) (audio : Bool) (s : Session)
      → resolve api s (effective_transport s.config s.settings) ≡ r
      → Inv s
      → Inv (do_start api truncate audio s)
  unfolding do_start
  resolved-Inv (ok target) audio s e v = rw (e, do_start) (ask_mic-Inv target _ audio s v)
  resolved-Inv (throw f) audio s e v = rw (e, do_start) (handle_start_error-Inv truncate f s v)

  pub do_start-Inv : (audio : Bool) (s : Session) → Inv s → Inv (do_start api truncate audio s)
  do_start-Inv audio s v = resolved-Inv _ audio s refl v

  pub drop_audio-Inv : (audio : Bool) (s : Session) → Inv s → Inv (drop_audio audio s)
  drop_audio-Inv true s v = v
  drop_audio-Inv false s v = v

  pub primed-Inv :
      (e : Option Failure) (target : Option Target) (t : Transport) (audio : Bool) (s : Session)
      → Inv s
      → Inv (primed api truncate e target t audio s)
  unfolding primed
  primed-Inv none target t audio s v = v
  primed-Inv (some e) target t audio s v =
      handle_start_error-Inv truncate e (drop_audio audio s) (drop_audio-Inv audio s v)

  pub connected-Inv :
      (e : Option Failure) (audio : Bool) (s : Session)
      → Inv s
      → Inv (connected api truncate e audio s)
  unfolding connected
  connected-Inv none audio s v = v
  connected-Inv (some e) audio s v =
      handle_start_error-Inv truncate e (drop_audio audio s) (drop_audio-Inv audio s v)

pub on_client_status-Inv : (st : Status) (s : Session) → Inv s → Inv (on_client_status st s)
unfolding on_client_status
on_client_status-Inv closed s v = v
on_client_status-Inv unknown s v = v
on_client_status-Inv _ s v = set_state-Inv _ s v.0

pub on_queue-Inv : (n : ℕ) (ticket : Text) (s : Session) → Inv s → Inv (on_queue n ticket s)
unfolding on_queue
on_queue-Inv n ticket s v = elim (Bool-cases (is_nonempty ticket)) [
  | inl e ↦ rw e (v.0, caption-IsShown _ _ _ _ v.1)
  | inr e ↦ rw e (v.0, caption-IsShown _ _ _ _ v.1)
]

label-IsShown :
    (t : Text) (st : AppState) (v : View) → IsShown st v → IsShown st (record v { join_label = t })
label-IsShown t st v h = record {
  circle = h.circle;
  orb = h.orb;
  call_buttons = h.call_buttons;
  queue = h.queue;
  join = h.join;
  leave = h.leave;
  note = h.note;
  restart = h.restart;
}

muted-IsShown :
    (b : Bool) (t : Text) (st : AppState) (v : View)
    → IsShown st v
    → IsShown st (record v { mic_shown_muted = b; mic_label = t })
muted-IsShown b t st v h = record {
  circle = h.circle;
  orb = h.orb;
  call_buttons = h.call_buttons;
  queue = h.queue;
  join = h.join;
  leave = h.leave;
  note = h.note;
  restart = h.restart;
}

pub start_countdown-Inv : (sec : ℕ) (s : Session) → Inv s → Inv (start_countdown sec s)
unfolding start_countdown
start_countdown-Inv sec s v =
    let (_, w) = stop_countdown-Inv s v in
    (start_countdown-OwnsTimers sec s v.0, label-IsShown _ _ _ w)

start_heartbeat-view :
    (sec : ℕ) (s : Session)
    → ((start_heartbeat sec s).state ≡ s.state) × ((start_heartbeat sec s).view ≡ s.view)
unfolding start_heartbeat stop_heartbeat
start_heartbeat-view sec s = ground arith

pub start_heartbeat-Inv : (sec : ℕ) (s : Session) → Inv s → Inv (start_heartbeat sec s)
start_heartbeat-Inv sec s (v, w) =
    let (st, view) = start_heartbeat-view sec s in
    (start_heartbeat-OwnsTimers sec s v, rw (st, view) w)

IsOwned-set_left :
    (id left t : ℕ) (is : List Interval) → IsOwned t is → IsOwned t (set_left id left is)
unfolding set_left
IsOwned-set_left id left t [] h = h
IsOwned-set_left id left t ((i, x) ∷ []) h = h
IsOwned-set_left id left t (_ ∷ _ ∷ _) h = absurd h

pub counted-Inv :
    (id left : ℕ) (s : Session)
    → Inv s
    → Inv (record s { countdowns = set_left id left s.countdowns })
counted-Inv id left s (v, w) = (
  record {
    heartbeat = v.heartbeat;
    countdown = IsOwned-set_left id left s.countdown_timer s.countdowns v.countdown;
    heartbeat_given = v.heartbeat_given;
    countdown_given = v.countdown_given;
    apart = v.apart;
  },
  w,
)

pub tick_countdown-Inv : (id left : ℕ) (s : Session) → Inv s → Inv (tick_countdown id left s)
unfolding tick_countdown
tick_countdown-Inv id left s v =
    let s1 = record s { countdowns = set_left id (left - 1) s.countdowns } in
    let w = counted-Inv id (left - 1) s v in
    elim (Bool-cases (leb left 1)) [
      | inl e ↦ let (v', w') = stop_countdown-Inv s1 w in rw e (v', label-IsShown _ _ _ w')
      | inr e ↦ rw e (w.0, label-IsShown _ _ _ w.1)
    ]

pub track_held-Inv : (i : Option SessionInfo) (s : Session) → Inv s → Inv (track_held i s)
track_held-Inv none s v = v
track_held-Inv (some i) s v = elim (Bool-cases (is_nonempty i.session_id)) [
  | inl e ↦ rw e v
  | inr e ↦ rw e v
]

pub on_ready_to_join-Inv :
    (i : Option SessionInfo) (sec : ℕ) (s : Session) → Inv s → Inv (on_ready_to_join i sec s)
unfolding on_ready_to_join
on_ready_to_join-Inv i sec s v =
    start_countdown-Inv sec (track_held i (record s { queued_ticket = [] })) (track_held-Inv i _ v)

pub on_session-Inv : (i : SessionInfo) (s : Session) → Inv s → Inv (on_session i s)
unfolding on_session
on_session-Inv i s v = elim (Bool-cases (i.limited && is_nonempty i.session_id)) [
  | inl e ↦ rw e (start_heartbeat-Inv _ _ v)
  | inr e ↦ rw e v
]

pub toggle_mute-Inv :
    (m : Option (List Bool)) (c : Option ℕ) (s : Session) → Inv s → Inv (toggle_mute m c s)
toggle_mute-Inv (some tracks) (some c) s v =
    let (v', w) = sync_mic_mute_state-Inv (record s { mic_muted = not s.mic_muted }) v in
    (v', muted-IsShown _ _ _ _ w)
toggle_mute-Inv (some tracks) none s v = v
toggle_mute-Inv none c s v = v

pub tell_join-Inv : (c : Option ℕ) (s : Session) → Inv s → Inv (tell_join c s)
tell_join-Inv none s v = v
tell_join-Inv (some c) s v = v

pub on_beat-Inv : (is : List Interval) (s : Session) → Inv s → Inv (on_beat is s)
unfolding on_beat
on_beat-Inv [] s v = v
on_beat-Inv (i ∷ is) s v = elim (Bool-cases (is_nonempty s.tracked_session)) [
  | inl e ↦ rw e v
  | inr e ↦ rw e v
]

pub on_second-Inv : (is : List Interval) (s : Session) → Inv s → Inv (on_second is s)
unfolding on_second
on_second-Inv [] s v = v
on_second-Inv ((id, left) ∷ is) s v = tick_countdown-Inv id left s v
