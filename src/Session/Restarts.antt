-- ===== src/Session/Restarts.antt =====
-- A restart that waits for the old client to close, and a click on Stop meanwhile.
use speech_to_speech_k8s.Base.{
  ℕ, zero, suc, ◌≡◌, sym, ap, subst, ◌∙◌, Bool, false, some, List, [], ◌∷◌, ◌++◌, arith, Num, Text,
}
use speech_to_speech_k8s.Settings.{Settings}
use speech_to_speech_k8s.Connection.{Config, missing_server_url, effective_transport}
use speech_to_speech_k8s.Connection.Url.{UrlApi}
use speech_to_speech_k8s.Connection.Url.Scheme.{KeepsScheme}
use speech_to_speech_k8s.Connection.Modes.{IsTrimmed}
use speech_to_speech_k8s.Session.{Session, nothing, starts, ends, closing, Task}
use speech_to_speech_k8s.Session.Timers.{stop_heartbeat, stop_countdown}
use speech_to_speech_k8s.Session.Teardown.{
  set_state, end_tracked_session, end_queue_ticket, release_claims, release_devices,
}
use speech_to_speech_k8s.Session.Start.{do_start}
use speech_to_speech_k8s.Session.Events.{stop, resume, close_answer}
use speech_to_speech_k8s.Session.Step.{task_at, without, continue, step}
use speech_to_speech_k8s.Session.Release.{release_claims_kept, waiting, teardown_waits}
use speech_to_speech_k8s.Session.Starts.{IsAsking, resolved, ask_mic-IsAsking}

-- What a start reads.
abbrev Asked : Session → Config × Settings
Asked s = (s.config, s.settings)

Asked-release_claims : (s : Session) → Asked (release_claims s) ≡ Asked s
unfolding release_claims end_queue_ticket end_tracked_session stop_countdown stop_heartbeat
Asked-release_claims s = ground arith

Asked-release_devices : (s : Session) → Asked (release_devices s) ≡ Asked s
unfolding release_devices set_state stop_countdown
Asked-release_devices s = ground arith

pub task_at-append_left :
    (n : ℕ) (ts us : List Task) (t : Task) → task_at n ts ≡ some t → task_at n (ts ++ us) ≡ some t
unfolding task_at
task_at-append_left n [] us t h = absurd (ground arith)
task_at-append_left zero (x ∷ ts) us t h = h
task_at-append_left (suc n) (x ∷ ts) us t h = task_at-append_left n ts us t h

module _ (api : UrlApi) (truncate : Text → Text) where
  -- `doStart` for a configuration and settings that name a server.
  do_start-IsAsking :
      (s : Session) (audio : Bool)
      → KeepsScheme api
      → IsTrimmed s.config
      → missing_server_url api s.config s.settings ≡ false
      → IsAsking audio s (do_start api truncate audio s)
  unfolding do_start
  do_start-IsAsking s audio keeps v set =
      let (target, e) = resolved api s (effective_transport s.config s.settings) keeps v set in
      rw (e, do_start) (ask_mic-IsAsking target audio s)

  -- The same, from a state that agrees on what a start reads.
  start_of-IsAsking :
      (s t : Session) (audio : Bool)
      → Asked t ≡ Asked s
      → KeepsScheme api
      → IsTrimmed s.config
      → missing_server_url api s.config s.settings ≡ false
      → IsAsking audio t (do_start api truncate audio t)
  start_of-IsAsking s t audio same keeps v set =
      do_start-IsAsking t audio keeps (subst (λ a. IsTrimmed a.0) (sym same) v)
        (subst (λ a. missing_server_url api a.0 a.1 ≡ false) (sym same) set)

module _ (api : UrlApi) (number : Text → Num) (truncate : Text → Text) where
  -- The end of the wait for which a restart was held up.
  closed-IsAsking :
      (s w : Session) (n : ℕ) (audio : Bool)
      → Asked w ≡ Asked s
      → KeepsScheme api
      → IsTrimmed s.config
      → missing_server_url api s.config s.settings ≡ false
      → task_at n w.pending ≡ some (closing (starts audio))
      → IsAsking audio
          (release_devices (record w { pending = without n w.pending }))
          (step api number truncate w (resume n close_answer))
  unfolding step continue
  closed-IsAsking s w n audio same keeps v set waits =
      let t = record w { pending = without n w.pending } in
      rw waits (
        start_of-IsAsking api truncate s (release_devices t) audio (Asked-release_devices t ∙ same)
          keeps v set)

  -- A click on Stop while a restart waits for the old client to close does not call the restart off:
  -- when that client has closed, the microphone is asked for, for the next conversation. It takes
  -- that the server's address is set. The configuration is as `fetchConfig` leaves it, and the
  -- browser's `URL` keeps a WebSocket scheme.
  pub stopped_restart-IsAsking :
      (s : Session) (n c : ℕ) (audio : Bool)
      → KeepsScheme api
      → IsTrimmed s.config
      → missing_server_url api s.config s.settings ≡ false
      → s.client ≡ some c
      → task_at n s.pending ≡ some (closing (starts audio))
      → let w = step api number truncate s stop in
        IsAsking audio
          (release_devices (record w { pending = without n w.pending }))
          (step api number truncate w (resume n close_answer))
  unfolding step
  stopped_restart-IsAsking s n c audio keeps v set up waits =
      let r = release_claims s in
      let held : task_at n r.pending ≡ some (closing (starts audio)) =
        ap (task_at n) (release_claims_kept s).1 ∙ waits in
      subst
        (λ w.
          IsAsking audio (release_devices (record w { pending = without n w.pending }))
            (step api number truncate w (resume n close_answer)))
        (sym (teardown_waits truncate nothing s c up))
        (closed-IsAsking s (waiting nothing c r) n audio (Asked-release_claims s) keeps v set
          (task_at-append_left n r.pending (closing (ends nothing) ∷ []) _ held))
