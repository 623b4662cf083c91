-- ===== src/Session/Events.antt =====
-- demo/main.js, the listeners: buttons, the client's events, timers, and what ends a wait.
use speech_to_speech_k8s.Base.{
  ℕ, zero, suc, Bool, not, Option, none, some, List, [], ◌∷◌, ◌++◌, if◌then◌else◌, ◌&&◌, Text, text,
  is_nonempty, or_text,
}
use speech_to_speech_k8s.Js.Result.{Failure}
use speech_to_speech_k8s.Connection.{Form, Fetched, fetch_config}
use speech_to_speech_k8s.View.{AppState, muted, queue_caption}
use speech_to_speech_k8s.Session.{
  Session, Interval, beating, join, heartbeat, refresh_account, assistant_activity,
}
use speech_to_speech_k8s.Session.Timers.{start_countdown, tick_countdown, start_heartbeat}
use speech_to_speech_k8s.Session.Teardown.{emit, caption, set_state}
use speech_to_speech_k8s.Session.Start.{sync_mic_mute_state}

-- The client's statuses; `unknown` is any other text.
pub data Status : Type 0 where
  creating_session connecting queued your_turn connected user_speaking processing : Status
  ai_speaking closed error unknown : Status

-- `SessionInfo`: an empty id or tier stands for a missing one, 0 for a missing period.
pub record SessionInfo : Type 0 where
  pub session_id : Text
  pub tier : Text
  pub limited : Bool
  pub heartbeat_sec : ℕ

-- What ends a wait: the error of a rejection (`none`: it resolves), and for a heartbeat whether the
-- budget is spent (`none`: the request failed).
pub data Answer : Type 0 where
  prime_answer : Option Failure → Answer
  connect_answer : Option Failure → Answer
  close_answer : Answer
  beat_answer : Option Bool → Answer

pub data Event : Type 0 where
  -- The buttons; the flag says whether an audio context could be made.
  tap : Bool → Event
  restart : Bool → Form → Event
  mute stop leave join_now pagehide : Event
  -- The chat plays the user's audio back, or has stopped.
  replay : Bool → Event
  -- `fetchConfig` is answered.
  config_fetched : Fetched → Event
  -- The client.
  queue_moved : ℕ → Text → Event
  ready_to_join : Option SessionInfo → ℕ → Event
  status : Status → Event
  client_failed : Text → Event
  session_granted : SessionInfo → Event
  mic_acquired : List Bool → Event
  -- The intervals.
  beat_due : Event
  second_over : Event
  -- The n-th wait is over.
  resume : ℕ → Answer → Event

-- The listener of `status`: `onClientStatus`, and the chat is told of assistant's audio.
unfoldable pub on_client_status : Status → Session → Session
on_client_status creating_session s = set_state AppState.connecting s
on_client_status connecting s = set_state AppState.connecting s
on_client_status queued s = set_state AppState.queued s
on_client_status your_turn s = set_state AppState.your_turn s
on_client_status connected s = set_state AppState.listening s
on_client_status user_speaking s = set_state AppState.user_speaking s
on_client_status processing s = set_state AppState.processing s
on_client_status ai_speaking s = emit assistant_activity (set_state AppState.ai_speaking s)
on_client_status closed s = s
on_client_status error s = set_state AppState.error s
on_client_status unknown s = s

unfoldable pub on_queue : ℕ → Text → Session → Session
on_queue n ticket s =
    caption (queue_caption n) muted
      (if is_nonempty ticket then record s { queued_ticket = ticket } else s)

abbrev pub anon : Text
anon = text "anon"

abbrev pub track : SessionInfo → Session → Session
track i s = record s { tracked_session = i.session_id; tracked_tier = or_text i.tier anon }

abbrev pub track_held : Option SessionInfo → Session → Session
track_held none s = s
track_held (some i) s = if is_nonempty i.session_id then track i s else s

unfoldable pub on_ready_to_join : Option SessionInfo → ℕ → Session → Session
on_ready_to_join info sec s =
    start_countdown sec (track_held info (record s { queued_ticket = [] }))

abbrev pub or_five : ℕ → ℕ
or_five zero = 5
or_five (suc n) = suc n

unfoldable pub on_session : SessionInfo → Session → Session
on_session i s =
    let s' = record s { queued_ticket = [] } in
    if i.limited && is_nonempty i.session_id
    then start_heartbeat (or_five i.heartbeat_sec) (track i s')
    else s'

abbrev pub toggle_mute : Option (List Bool) → Option ℕ → Session → Session
toggle_mute (some tracks) (some c) s =
    let s' = sync_mic_mute_state (record s { mic_muted = not s.mic_muted }) in
    record s' {
      view = record (s'.view) {
        mic_shown_muted = s'.mic_muted;
        mic_label = if s'.mic_muted then text "Unmute" else text "Mute";
      };
    }
toggle_mute _ _ s = s

unfoldable pub on_mute : Session → Session
on_mute s = toggle_mute s.mic_stream s.client s

abbrev pub tell_join : Option ℕ → Session → Session
tell_join none s = s
tell_join (some c) s = emit (join c) s

-- The heartbeat's callback up to its request.
unfoldable pub on_beat : List Interval → Session → Session
on_beat [] s = s
on_beat (i ∷ is) s =
    if is_nonempty s.tracked_session
    then record s {
      log = heartbeat s.tracked_session ∷ s.log;
      pending = s.pending ++ beating s.tracked_session ∷ [];
    }
    else s

unfoldable pub on_second : List Interval → Session → Session
on_second [] s = s
on_second ((id, left) ∷ is) s = tick_countdown id left s

-- The end of `fetchConfig`, whose wait for the answer nothing else depends on.
unfoldable pub on_config : Fetched → Session → Session
on_config f s = emit refresh_account (record s { config = fetch_config f s.config })
