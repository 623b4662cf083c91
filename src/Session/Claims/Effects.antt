-- ===== src/Session/Claims/Effects.antt =====
-- What the functions of demo/main.js do to the claims: most leave them, a teardown gives them up.
use speech_to_speech_k8s.Base.{
  ℕ, ◌≡◌, refl, ap, ◌∙◌, inl, inr, true, false, Option, none, some, arith, Text, Bool-cases,
  Option-cases,
}
use speech_to_speech_k8s.View.{AppState, idle, error, is_your_turn}
use speech_to_speech_k8s.Js.Result.{
  Failure, Code, login_required, limit, aborted, queue_full, queue_expired, join_expired, other,
}
use speech_to_speech_k8s.Session.{
  Session, Ending, nothing, show_login_required, show_limit, show_busy, show_expired, show_fatal,
}
use speech_to_speech_k8s.Session.Timers.{stop_heartbeat, stop_countdown}
use speech_to_speech_k8s.Session.Teardown.{
  set_state, end_tracked_session, end_queue_ticket, release_claims, release_devices, stop_mic,
  refresh, finish, await_close, teardown, on_limit_reached, on_fatal_error, handle_start_error,
}
use speech_to_speech_k8s.Session.Claims.{claims, end_session_of, leave_queue_of, give_up, MayGiveUp}

pub claims-stop_heartbeat : (s : Session) → claims (stop_heartbeat s) ≡ claims s
unfolding stop_heartbeat
claims-stop_heartbeat s = ground arith

pub claims-stop_countdown : (s : Session) → claims (stop_countdown s) ≡ claims s
unfolding stop_countdown
claims-stop_countdown s = ground arith

pub claims-set_state : (st : AppState) (s : Session) → claims (set_state st s) ≡ claims s
unfolding set_state
claims-set_state st s = elim (Bool-cases (is_your_turn st)) [
  | inl e ↦ rw e refl
  | inr e ↦ rw e (claims-stop_countdown _)
]

pub claims-end_tracked_session :
    (s : Session) → claims (end_tracked_session s) ≡ end_session_of (claims s)
unfolding end_tracked_session
claims-end_tracked_session s = ground arith

pub claims-end_queue_ticket :
    (s : Session) → claims (end_queue_ticket s) ≡ leave_queue_of (claims s)
unfolding end_queue_ticket
claims-end_queue_ticket s = ground arith

pub claims-release_claims : (s : Session) → claims (release_claims s) ≡ give_up (claims s)
unfolding release_claims
claims-release_claims s =
    let s2 = stop_countdown (stop_heartbeat s) in
    let stopped = claims-stop_countdown (stop_heartbeat s) ∙ claims-stop_heartbeat s in
    let ended = claims-end_tracked_session s2 ∙ ap end_session_of stopped in
    claims-end_queue_ticket (end_tracked_session s2) ∙ ap leave_queue_of ended

claims-stop_mic : (s : Session) → claims (stop_mic s) ≡ claims s
claims-stop_mic s = elim (Option-cases s.mic_stream) [
  | inl e ↦ rw e refl
  | inr (tracks, e) ↦ rw e refl
]

claims-refresh : (s : Session) → claims (refresh s) ≡ claims s
claims-refresh s = ground arith

pub claims-release_devices : (s : Session) → claims (release_devices s) ≡ claims s
unfolding release_devices
claims-release_devices s = claims-refresh _ ∙ (claims-set_state idle _ ∙ claims-stop_mic s)

module _ (truncate : Text → Text) where
  pub claims-finish : (k : Ending) (s : Session) → claims (finish truncate k s) ≡ claims s
  unfolding finish
  claims-finish nothing s = refl
  claims-finish (show_login_required url) s = claims-set_state error s
  claims-finish (show_limit tier) s = refl
  claims-finish show_busy s = refl
  claims-finish (show_expired joining) s = claims-set_state error s
  claims-finish (show_fatal message) s = claims-set_state error s

  claims-await_close :
      (k : Ending) (c : Option ℕ) (s : Session) → claims (await_close truncate k c s) ≡ claims s
  claims-await_close k none s = claims-finish k (release_devices s) ∙ claims-release_devices s
  claims-await_close k (some c) s = refl

  pub claims-teardown :
      (k : Ending) (s : Session) → claims (teardown truncate k s) ≡ give_up (claims s)
  unfolding teardown
  claims-teardown k s = claims-await_close k s.client (release_claims s) ∙ claims-release_claims s

  pub claims-on_limit_reached :
      (s : Session) → claims (on_limit_reached truncate s) ≡ give_up (claims s)
  unfolding on_limit_reached
  claims-on_limit_reached s =
      claims-teardown (show_limit s.tracked_tier) (stop_heartbeat s)
      ∙ ap give_up (claims-stop_heartbeat s)

  pub claims-on_fatal_error :
      (message : Text) (s : Session)
      → claims (on_fatal_error truncate message s) ≡ give_up (claims s)
  unfolding on_fatal_error
  claims-on_fatal_error message s = claims-teardown (show_fatal message) s

  -- After each error but an abort, which another teardown has caused.
  claims_by_code :
      (e : Failure) (code : Code) (s : Session)
      → e.code ≡ code
      → MayGiveUp (claims s) (claims (handle_start_error truncate e s))
  unfolding handle_start_error
  claims_by_code e login_required s q =
      rw q (inr (claims-teardown (show_login_required e.login_url) s))
  claims_by_code e limit s q = rw q (inr (claims-teardown (show_limit e.tier) s))
  claims_by_code e aborted s q = rw q (inl refl)
  claims_by_code e queue_full s q = rw q (inr (claims-teardown show_busy s))
  claims_by_code e queue_expired s q = rw q (inr (claims-teardown (show_expired false) s))
  claims_by_code e join_expired s q = rw q (inr (claims-teardown (show_expired true) s))
  claims_by_code e other s q = rw q (inr (claims-on_fatal_error e.message s))

  pub claims-handle_start_error :
      (e : Failure) (s : Session) → MayGiveUp (claims s) (claims (handle_start_error truncate e s))
  claims-handle_start_error e s = claims_by_code e e.code s refl
