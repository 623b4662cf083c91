-- ===== src/Session/Teardown.antt =====
-- demo/main.js, the end of a conversation: `setState`, `endTrackedSession`, `endQueueTicket`,
-- `teardown`, `onLimitReached`, `onFatalError` and `handleStartError`.
use speech_to_speech_k8s.Base.{
  ℕ, Bool, true, false, Option, none, some, [], ◌∷◌, ◌++◌, if◌then◌else◌, Text, text, is_nonempty,
}
use speech_to_speech_k8s.Js.Result.{
  Failure, login_required, limit, aborted, queue_full, queue_expired, join_expired, other,
}
use speech_to_speech_k8s.View.{
  AppState, idle, error, is_your_turn, Kind, failure, show_state, set_caption,
}
use speech_to_speech_k8s.Session.{
  Session, Ending, nothing, show_login_required, show_limit, show_busy, show_expired, show_fatal,
  ends, closing, Effect, close, stop_tracks, end_session, leave_queue, refresh_account, open_login,
  open_limit, open_busy, reset_chat,
}
use speech_to_speech_k8s.Session.Timers.{stop_heartbeat, stop_countdown}

abbrev pub emit : Effect → Session → Session
emit e s = record s { log = e ∷ s.log }

abbrev pub caption : Text → Kind → Session → Session
caption t k s = record s { view = set_caption t k s.view }

unfoldable pub set_state : AppState → Session → Session
set_state next s =
    let shown = record s { state = next; view = show_state next s.view } in
    if is_your_turn next then shown else stop_countdown shown

-- The beacon, or the request in its place; where both fail the server reaps the session itself.
unfoldable pub end_tracked_session : Session → Session
end_tracked_session s =
    if is_nonempty s.tracked_session
    then record s {
      tracked_session = [];
      tracked_tier = [];
      log = end_session s.tracked_session ∷ s.log;
    }
    else s

unfoldable pub end_queue_ticket : Session → Session
end_queue_ticket s =
    if is_nonempty s.queued_ticket
    then record s { queued_ticket = []; log = leave_queue s.queued_ticket ∷ s.log }
    else s

-- `teardown` up to `await client.close()`.
unfoldable pub release_claims : Session → Session
release_claims s =
    emit (reset_chat true)
      (end_queue_ticket (end_tracked_session (stop_countdown (stop_heartbeat s))))

abbrev pub stop_mic : Session → Session
stop_mic s = elim s.mic_stream [
  | none ↦ s
  | some tracks ↦ record s { mic_stream = none; log = stop_tracks ∷ s.log }
]

-- The class goes; the button's label and title stay as they are.
abbrev pub unmute : Session → Session
unmute s = record s {
  client = none;
  mic_muted = false;
  view = record (s.view) { mic_shown_muted = false; rtc_live = false };
}

abbrev pub refresh : Session → Session
refresh s = if s.config.limiter_on then emit refresh_account s else s

-- `teardown` behind the wait.
unfoldable pub release_devices : Session → Session
release_devices s = refresh (set_state idle (unmute (stop_mic s)))

module _ (truncate : Text → Text) where
  unfoldable pub expired_caption : Bool → Text
  expired_caption true = text "Your spot expired. Tap to rejoin."
  expired_caption false = text "That took a while. Tap to rejoin."

  -- What the caller of `teardown` does when it has returned.
  unfoldable pub finish : Ending → Session → Session
  finish nothing s = s
  finish (show_login_required url) s =
      emit (open_login url)
        (caption (text "Sign in again to continue.") failure (set_state error s))
  finish (show_limit tier) s = emit (open_limit tier) s
  finish show_busy s = emit open_busy s
  finish (show_expired joining) s = caption (expired_caption joining) failure (set_state error s)
  finish (show_fatal message) s = caption (truncate message) failure (set_state error s)

  -- The wait for `client.close()`, whose rejection is caught. With no client there is none.
  abbrev pub await_close : Ending → Option ℕ → Session → Session
  await_close k none s = finish k (release_devices s)
  await_close k (some c) s = record s {
    log = close c ∷ s.log;
    pending = s.pending ++ closing (ends k) ∷ [];
  }

  unfoldable pub teardown : Ending → Session → Session
  teardown k s = await_close k s.client (release_claims s)

  -- The server has cut the session.
  unfoldable pub on_limit_reached : Session → Session
  on_limit_reached s = teardown (show_limit s.tracked_tier) (stop_heartbeat s)

  unfoldable pub on_fatal_error : Text → Session → Session
  on_fatal_error message s = teardown (show_fatal message) s

  unfoldable pub handle_start_error : Failure → Session → Session
  handle_start_error e s = elim e.code [
    | login_required ↦ teardown (show_login_required e.login_url) s
    | limit ↦ teardown (show_limit e.tier) s
    | aborted ↦ s
    | queue_full ↦ teardown show_busy s
    | queue_expired ↦ teardown (show_expired false) s
    | join_expired ↦ teardown (show_expired true) s
    | other ↦ on_fatal_error e.message s
  ]
