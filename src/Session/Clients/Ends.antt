-- ===== src/Session/Clients/Ends.antt =====
-- A teardown of demo/main.js, and what ends in one: what they do to the client objects.
use speech_to_speech_k8s.Base.{
  ℕ, ◌≡◌, refl, sym, subst, ◌∙◌, inl, inr, true, false, Option, none, some, arith, Text, Bool-cases,
  Option-cases, is_nonempty,
}
use speech_to_speech_k8s.Js.Result.{
  Failure, Code, login_required, limit, aborted, queue_full, queue_expired, join_expired, other,
}
use speech_to_speech_k8s.View.{AppState, idle, error, is_your_turn}
use speech_to_speech_k8s.Session.{
  Session, Ending, nothing, show_login_required, show_limit, show_busy, show_expired, show_fatal,
  closing, ends, end_session, leave_queue, reset_chat, stop_tracks, refresh_account, open_login,
  open_limit, open_busy,
}
use speech_to_speech_k8s.Session.Timers.{stop_heartbeat, stop_countdown}
use speech_to_speech_k8s.Session.Teardown.{
  set_state, end_tracked_session, end_queue_ticket, release_claims, release_devices, stop_mic,
  unmute, refresh, finish, await_close, teardown, on_limit_reached, on_fatal_error,
  handle_start_error,
}
use speech_to_speech_k8s.Session.Clients.{
  Clients, clients, closes, jobs, jobs-append, IsSteady, IsUndialled, Holds,
}

clients-stop_heartbeat : (s : Session) → clients (stop_heartbeat s) ≡ clients s
unfolding stop_heartbeat
clients-stop_heartbeat s = ground arith

clients-stop_countdown : (s : Session) → clients (stop_countdown s) ≡ clients s
unfolding stop_countdown
clients-stop_countdown s = ground arith

clients-set_state : (st : AppState) (s : Session) → clients (set_state st s) ≡ clients s
unfolding set_state
clients-set_state st s = elim (Bool-cases (is_your_turn st)) [
  | inl e ↦ rw e refl
  | inr e ↦ rw e (clients-stop_countdown _)
]

pub client-release_claims : (s : Session) → (release_claims s).client ≡ s.client
unfolding release_claims end_queue_ticket end_tracked_session stop_countdown stop_heartbeat
client-release_claims s = ground arith

pub client-stop_countdown : (s : Session) → (stop_countdown s).client ≡ s.client
unfolding stop_countdown
client-stop_countdown s = ground arith

client-stop_mic : (s : Session) → (stop_mic s).client ≡ s.client
client-stop_mic s = ground arith

module _ {P : Clients → Type 0} (kept : IsSteady P) where
  same-Holds : (s t : Session) → clients t ≡ clients s → Holds P s → Holds P t
  same-Holds s t e v = subst P (sym e) v

  pub stop_heartbeat-Holds : (s : Session) → Holds P s → Holds P (stop_heartbeat s)
  stop_heartbeat-Holds s v = same-Holds s (stop_heartbeat s) (clients-stop_heartbeat s) v

  pub stop_countdown-Holds : (s : Session) → Holds P s → Holds P (stop_countdown s)
  stop_countdown-Holds s v = same-Holds s (stop_countdown s) (clients-stop_countdown s) v

  pub set_state-Holds : (st : AppState) (s : Session) → Holds P s → Holds P (set_state st s)
  set_state-Holds st s v = same-Holds s (set_state st s) (clients-set_state st s) v

  pub end_tracked_session-Holds : (s : Session) → Holds P s → Holds P (end_tracked_session s)
  unfolding end_tracked_session
  end_tracked_session-Holds s v = elim (Bool-cases (is_nonempty s.tracked_session)) [
    | inl e ↦ rw e (kept.other (end_session s.tracked_session) refl v)
    | inr e ↦ rw e v
  ]

  pub end_queue_ticket-Holds : (s : Session) → Holds P s → Holds P (end_queue_ticket s)
  unfolding end_queue_ticket
  end_queue_ticket-Holds s v = elim (Bool-cases (is_nonempty s.queued_ticket)) [
    | inl e ↦ rw e (kept.other (leave_queue s.queued_ticket) refl v)
    | inr e ↦ rw e v
  ]

  pub release_claims-Holds : (s : Session) → Holds P s → Holds P (release_claims s)
  unfolding release_claims
  release_claims-Holds s v =
      let s2 = stop_countdown (stop_heartbeat s) in
      let stopped = clients-stop_countdown (stop_heartbeat s) ∙ clients-stop_heartbeat s in
      let done : Holds P (end_queue_ticket (end_tracked_session s2)) =
        end_queue_ticket-Holds (end_tracked_session s2)
          (end_tracked_session-Holds s2 (same-Holds s s2 stopped v)) in
      kept.other (reset_chat true) refl done

  stop_mic-Holds : (s : Session) → Holds P s → Holds P (stop_mic s)
  stop_mic-Holds s v = elim (Option-cases s.mic_stream) [
    | inl e ↦ rw e v
    | inr (tracks, e) ↦ rw e (kept.other stop_tracks refl v)
  ]

  refresh-Holds : (s : Session) → Holds P s → Holds P (refresh s)
  refresh-Holds s v = elim (Bool-cases s.config.limiter_on) [
    | inl e ↦ rw e (kept.other refresh_account refl v)
    | inr e ↦ rw e v
  ]

  released-Holds :
      (s : Session)
      → (Holds P (stop_mic s) → Holds P (unmute (stop_mic s)))
      → Holds P s
      → Holds P (release_devices s)
  unfolding release_devices
  released-Holds s lost v =
      refresh-Holds _ (set_state-Holds idle (unmute (stop_mic s)) (lost (stop_mic-Holds s v)))

  unmute-Holds :
      (o : Option ℕ) (s : Session) → s.client ≡ o → o ≡ none → Holds P s → Holds P (unmute s)
  unmute-Holds o s e q v =
      subst (λ c. P (s.made, c, s.log, s.replaying, jobs s.pending)) (e ∙ q)
        (kept.unheld _ (e ∙ q) v)

  module _ (truncate : Text → Text) where
    pub finish-Holds : (k : Ending) (s : Session) → Holds P s → Holds P (finish truncate k s)
    unfolding finish
    finish-Holds nothing s v = v
    finish-Holds (show_login_required url) s v =
        kept.other (open_login url) refl (set_state-Holds error s v)
    finish-Holds (show_limit tier) s v = kept.other (open_limit tier) refl v
    finish-Holds show_busy s v = kept.other open_busy refl v
    finish-Holds (show_expired joining) s v = set_state-Holds error s v
    finish-Holds (show_fatal message) s v = set_state-Holds error s v

    await_close-Holds :
        (k : Ending) (c : Option ℕ) (s : Session)
        → s.client ≡ c
        → Holds P s
        → Holds P (await_close truncate k c s)
    await_close-Holds k none s m v =
        finish-Holds k (release_devices s)
          (released-Holds s (unmute-Holds none (stop_mic s) (client-stop_mic s ∙ m) refl) v)
    await_close-Holds k (some c) s m v =
        rw (jobs-append s.pending (closing (ends k))) (kept.told (closes c) m v)

    pub teardown-Holds : (k : Ending) (s : Session) → Holds P s → Holds P (teardown truncate k s)
    unfolding teardown
    teardown-Holds k s v =
        await_close-Holds k s.client (release_claims s) (client-release_claims s)
          (release_claims-Holds s v)

    pub on_limit_reached-Holds : (s : Session) → Holds P s → Holds P (on_limit_reached truncate s)
    unfolding on_limit_reached
    on_limit_reached-Holds s v =
        teardown-Holds (show_limit s.tracked_tier) (stop_heartbeat s) (stop_heartbeat-Holds s v)

    pub on_fatal_error-Holds :
        (message : Text) (s : Session) → Holds P s → Holds P (on_fatal_error truncate message s)
    unfolding on_fatal_error
    on_fatal_error-Holds message s v = teardown-Holds (show_fatal message) s v

    known_by_code :
        (e : Failure) (code : Code) (s : Session)
        → e.code ≡ code
        → Holds P s
        → Holds P (handle_start_error truncate e s)
    unfolding handle_start_error
    known_by_code e login_required s q v =
        rw q (teardown-Holds (show_login_required e.login_url) s v)
    known_by_code e limit s q v = rw q (teardown-Holds (show_limit e.tier) s v)
    known_by_code e aborted s q v = rw q v
    known_by_code e queue_full s q v = rw q (teardown-Holds show_busy s v)
    known_by_code e queue_expired s q v = rw q (teardown-Holds (show_expired false) s v)
    known_by_code e join_expired s q v = rw q (teardown-Holds (show_expired true) s v)
    known_by_code e other s q v = rw q (on_fatal_error-Holds e.message s v)

    pub handle_start_error-Holds :
        (e : Failure) (s : Session) → Holds P s → Holds P (handle_start_error truncate e s)
    handle_start_error-Holds e s v = known_by_code e e.code s refl v

pub release_devices-Holds :
    {P : Clients → Type 0} → IsUndialled P → (s : Session) → Holds P s → Holds P (release_devices s)
release_devices-Holds kept s v =
    released-Holds kept.steady s (λ w. kept.gone (stop_mic s).replaying w) v
