-- ===== src/Session/Settled.antt =====
-- demo/main.js, `handleStartError` and `teardown`: where a start that fails leaves the page.
use speech_to_speech_k8s.Base.{◌≡◌, ◌≢◌, refl, ap, subst, ◌∙◌, none, Text}
use speech_to_speech_k8s.Js.Result.{
  Failure, Code, login_required, limit, aborted, queue_full, queue_expired, join_expired, other,
}
use speech_to_speech_k8s.View.{AppState, idle, error, Kind, failure}
use speech_to_speech_k8s.Session.{Session, Effect, open_limit, open_busy, open_login}
use speech_to_speech_k8s.Session.Teardown.{
  emit, caption, set_state, release_claims, release_devices, finish, teardown, await_close,
  on_fatal_error, handle_start_error,
}
use speech_to_speech_k8s.Session.Given.{devices_given, log-release_devices}
use speech_to_speech_k8s.Session.Reports.{state_after, ending, IsReported, finish-IsReported}
use speech_to_speech_k8s.Session.Release.{
  IsUnclaimed, IsReleased, release_devices-IsReleased, set_state_kept, set_state_timers,
}

-- Nothing is held, and a tap on the orb starts again: the state is the one given.
pub record IsSettled (st : AppState) (s : Session) : Type 0 where
  pub unclaimed : IsUnclaimed s
  pub client : s.client ≡ none
  pub mic : s.mic_stream ≡ none
  pub state : s.state ≡ st

module _ (truncate : Text → Text) where
  pub by_code :
      (e : Failure) (code : Code) (s : Session)
      → e.code ≡ code
      → code ≢ aborted
      → handle_start_error truncate e s ≡ teardown truncate (ending code e) s
  unfolding handle_start_error on_fatal_error
  by_code e login_required s q n = rw q refl
  by_code e limit s q n = rw q refl
  by_code e aborted s q n = absurd (n refl)
  by_code e queue_full s q n = rw q refl
  by_code e queue_expired s q n = rw q refl
  by_code e join_expired s q n = rw q refl
  by_code e other s q n = rw q refl

  emit-IsSettled :
      (st : AppState) (e : Effect) (s : Session) → IsSettled st s → IsSettled st (emit e s)
  emit-IsSettled st e s v = record {
    unclaimed = record {
      heartbeat = v.unclaimed.heartbeat;
      countdown = v.unclaimed.countdown;
      session = v.unclaimed.session;
      ticket = v.unclaimed.ticket;
    };
    client = v.client;
    mic = v.mic;
    state = v.state;
  }

  idle-IsSettled : (s : Session) → IsReleased s → IsSettled idle s
  idle-IsSettled s r = record {
    unclaimed = r.unclaimed;
    client = r.client;
    mic = r.mic;
    state = r.state;
  }

  error_shown-IsSettled :
      (t : Text) (k : Kind) (s : Session)
      → IsReleased s
      → IsSettled error (caption t k (set_state error s))
  error_shown-IsSettled t k s r =
      let (at, client, mic, _, session, ticket, _, _) = set_state_kept error s in
      let (beats, countdowns) =
        set_state_timers error s r.unclaimed.heartbeat r.unclaimed.countdown in
      record {
        unclaimed = record {
          heartbeat = beats;
          countdown = countdowns;
          session = session ∙ r.unclaimed.session;
          ticket = ticket ∙ r.unclaimed.ticket;
        };
        client = client ∙ r.client;
        mic = mic ∙ r.mic;
        state = at;
      }

  finish-IsSettled :
      (code : Code) (e : Failure) (s : Session)
      → code ≢ aborted
      → IsReleased s
      → IsSettled (state_after code) (finish truncate (ending code e) s)
  unfolding finish
  finish-IsSettled login_required e s n r =
      emit-IsSettled error (open_login e.login_url) _ (error_shown-IsSettled _ failure s r)
  finish-IsSettled limit e s n r = emit-IsSettled idle (open_limit e.tier) s (idle-IsSettled s r)
  finish-IsSettled aborted e s n r = absurd (n refl)
  finish-IsSettled queue_full e s n r = emit-IsSettled idle open_busy s (idle-IsSettled s r)
  finish-IsSettled queue_expired e s n r = error_shown-IsSettled _ failure s r
  finish-IsSettled join_expired e s n r = error_shown-IsSettled _ failure s r
  finish-IsSettled other e s n r = error_shown-IsSettled _ failure s r

  -- With no client to wait for, the teardown is over at once.
  pub over_at_once :
      (e : Failure) (s : Session)
      → s.client ≡ none
      → e.code ≢ aborted
      → handle_start_error truncate e s
        ≡ finish truncate (ending e.code e) (release_devices (release_claims s))
  unfolding teardown
  over_at_once e s gone n =
      by_code e e.code s refl n
      ∙ ap (λ o. await_close truncate (ending e.code e) o (release_claims s)) gone

  -- Once the claims are given up and the client is gone.
  pub ended :
      (e : Failure) (r : Session)
      → e.code ≢ aborted
      → IsUnclaimed r
      → let t = finish truncate (ending e.code e) (release_devices r) in
        IsSettled (state_after e.code) t × IsReported truncate e (devices_given r r.log) t
  ended e r n u = (
    finish-IsSettled e.code e (release_devices r) n (release_devices-IsReleased r u),
    subst (λ l. IsReported truncate e l (finish truncate (ending e.code e) (release_devices r)))
        (log-release_devices r) (finish-IsReported truncate e r n),
  )
