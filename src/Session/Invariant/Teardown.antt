-- ===== src/Session/Invariant/Teardown.antt =====
-- The end of a conversation keeps the timers and the view in order.
use speech_to_speech_k8s.Base.{
  ℕ, ◌≡◌, refl, inl, inr, Option-cases, true, false, Option, none, some, arith, Bool-cases, Text,
  is_nonempty,
}
use speech_to_speech_k8s.Js.Result.{
  Failure, Code, login_required, limit, aborted, queue_full, queue_expired, join_expired, other,
}
use speech_to_speech_k8s.View.{
  View, AppState, idle, error, is_your_turn, is_error, Kind, show_state, show_restart, set_caption,
}
use speech_to_speech_k8s.Session.{
  Session, Ending, nothing, show_login_required, show_limit, show_busy, show_expired, show_fatal,
}
use speech_to_speech_k8s.Session.Timers.{stop_heartbeat, stop_countdown}
use speech_to_speech_k8s.Session.Teardown.{
  set_state, caption, end_tracked_session, end_queue_ticket, release_claims, release_devices,
  stop_mic, unmute, refresh, finish, await_close, teardown, on_limit_reached, on_fatal_error,
  handle_start_error,
}
use speech_to_speech_k8s.Session.Invariant.{
  IsShown, OwnsTimers, Inv, stop_heartbeat-OwnsTimers, stop_countdown-OwnsTimers,
}

pub show_state-IsShown : (st : AppState) (v : View) → IsShown st (show_state st v)
unfolding show_state show_restart
show_state-IsShown st v = elim (Bool-cases (is_error st)) [
  | inl e ↦ rw e (record {
    circle = refl;
    orb = refl;
    call_buttons = refl;
    queue = refl;
    join = refl;
    leave = refl;
    note = refl;
    restart = refl;
  })
  | inr e ↦ rw e (record {
    circle = refl;
    orb = refl;
    call_buttons = refl;
    queue = refl;
    join = refl;
    leave = refl;
    note = refl;
    restart = refl;
  })
]

pub caption-IsShown :
    (t : Text) (k : Kind) (st : AppState) (v : View) → IsShown st v → IsShown st (set_caption t k v)
unfolding set_caption
caption-IsShown t k st v h = record {
  circle = h.circle;
  orb = h.orb;
  call_buttons = h.call_buttons;
  queue = h.queue;
  join = h.join;
  leave = h.leave;
  note = h.note;
  restart = h.restart;
}

-- Stopping the countdown leaves the state and the view.
pub stop_countdown-view :
    (s : Session) → ((stop_countdown s).state ≡ s.state) × ((stop_countdown s).view ≡ s.view)
unfolding stop_countdown
stop_countdown-view s = ground arith

pub stop_countdown-Inv : (s : Session) → Inv s → Inv (stop_countdown s)
stop_countdown-Inv s (v, w) =
    let (st, view) = stop_countdown-view s in (stop_countdown-OwnsTimers s v, rw (st, view) w)

stop_heartbeat-view :
    (s : Session) → ((stop_heartbeat s).state ≡ s.state) × ((stop_heartbeat s).view ≡ s.view)
unfolding stop_heartbeat
stop_heartbeat-view s = ground arith

stop_heartbeat-Inv : (s : Session) → Inv s → Inv (stop_heartbeat s)
stop_heartbeat-Inv s (v, w) =
    let (st, view) = stop_heartbeat-view s in (stop_heartbeat-OwnsTimers s v, rw (st, view) w)

-- `setState` sets the whole view right, whatever it showed.
pub set_state-Inv : (st : AppState) (s : Session) → OwnsTimers s → Inv (set_state st s)
unfolding set_state
set_state-Inv st s v =
    let shown = record s { state = st; view = show_state st s.view } in
    let w : Inv shown = (v, show_state-IsShown st s.view) in
    elim (Bool-cases (is_your_turn st)) [
      | inl e ↦ rw e w
      | inr e ↦ rw e (stop_countdown-Inv shown w)
    ]

pub end_tracked_session-Inv : (s : Session) → Inv s → Inv (end_tracked_session s)
unfolding end_tracked_session
end_tracked_session-Inv s v = elim (Bool-cases (is_nonempty s.tracked_session)) [
  | inl e ↦ rw e v
  | inr e ↦ rw e v
]

pub end_queue_ticket-Inv : (s : Session) → Inv s → Inv (end_queue_ticket s)
unfolding end_queue_ticket
end_queue_ticket-Inv s v = elim (Bool-cases (is_nonempty s.queued_ticket)) [
  | inl e ↦ rw e v
  | inr e ↦ rw e v
]

pub release_claims-Inv : (s : Session) → Inv s → Inv (release_claims s)
unfolding release_claims
release_claims-Inv s v =
    let s1 = stop_heartbeat s in
    let s2 = stop_countdown s1 in
    let s3 = end_tracked_session s2 in
    end_queue_ticket-Inv s3
      (end_tracked_session-Inv s2 (stop_countdown-Inv s1 (stop_heartbeat-Inv s v)))

stop_mic-Inv : (s : Session) → Inv s → Inv (stop_mic s)
stop_mic-Inv s v = elim (Option-cases s.mic_stream) [ inl e ↦ rw e v | inr (tracks, e) ↦ rw e v ]

refresh-Inv : (s : Session) → Inv s → Inv (refresh s)
refresh-Inv s v = elim (Bool-cases s.config.limiter_on) [ inl e ↦ rw e v | inr e ↦ rw e v ]

pub release_devices-Inv : (s : Session) → Inv s → Inv (release_devices s)
unfolding release_devices
release_devices-Inv s v =
    let s1 = stop_mic s in
    refresh-Inv (set_state idle (unmute s1)) (set_state-Inv idle (unmute s1) (stop_mic-Inv s v).0)

module _ (truncate : Text → Text) where
  error_caption-Inv :
      (t : Text) (k : Kind) (s : Session) → Inv s → Inv (caption t k (set_state error s))
  error_caption-Inv t k s v =
      let (v', w) = set_state-Inv error s v.0 in (v', caption-IsShown t k _ _ w)

  pub finish-Inv : (k : Ending) (s : Session) → Inv s → Inv (finish truncate k s)
  unfolding finish
  finish-Inv nothing s v = v
  finish-Inv (show_login_required url) s v = error_caption-Inv _ _ s v
  finish-Inv (show_limit tier) s v = v
  finish-Inv show_busy s v = v
  finish-Inv (show_expired joining) s v = error_caption-Inv _ _ s v
  finish-Inv (show_fatal message) s v = error_caption-Inv _ _ s v

  await_close-Inv :
      (k : Ending) (c : Option ℕ) (s : Session) → Inv s → Inv (await_close truncate k c s)
  await_close-Inv k none s v = finish-Inv k (release_devices s) (release_devices-Inv s v)
  await_close-Inv k (some c) s v = v

  pub teardown-Inv : (k : Ending) (s : Session) → Inv s → Inv (teardown truncate k s)
  unfolding teardown
  teardown-Inv k s v = await_close-Inv k s.client (release_claims s) (release_claims-Inv s v)

  pub on_limit_reached-Inv : (s : Session) → Inv s → Inv (on_limit_reached truncate s)
  unfolding on_limit_reached
  on_limit_reached-Inv s v =
      teardown-Inv (show_limit s.tracked_tier) (stop_heartbeat s) (stop_heartbeat-Inv s v)

  pub on_fatal_error-Inv :
      (message : Text) (s : Session) → Inv s → Inv (on_fatal_error truncate message s)
  unfolding on_fatal_error
  on_fatal_error-Inv message s v = teardown-Inv (show_fatal message) s v

  by_code-Inv :
      (e : Failure) (code : Code) (s : Session)
      → e.code ≡ code
      → Inv s
      → Inv (handle_start_error truncate e s)
  unfolding handle_start_error
  by_code-Inv e login_required s q v = rw q (teardown-Inv (show_login_required e.login_url) s v)
  by_code-Inv e limit s q v = rw q (teardown-Inv (show_limit e.tier) s v)
  by_code-Inv e aborted s q v = rw q v
  by_code-Inv e queue_full s q v = rw q (teardown-Inv show_busy s v)
  by_code-Inv e queue_expired s q v = rw q (teardown-Inv (show_expired false) s v)
  by_code-Inv e join_expired s q v = rw q (teardown-Inv (show_expired true) s v)
  by_code-Inv e other s q v = rw q (on_fatal_error-Inv e.message s v)

  pub handle_start_error-Inv :
      (e : Failure) (s : Session) → Inv s → Inv (handle_start_error truncate e s)
  handle_start_error-Inv e s v = by_code-Inv e e.code s refl v
