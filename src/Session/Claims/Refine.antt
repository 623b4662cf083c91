-- ===== src/Session/Claims/Refine.antt =====
-- Every turn of the event loop does to the claims what `Allowed` says, so every run is a run of the
-- claims alone.
use speech_to_speech_k8s.Base.{
  ℕ, ◌≡◌, refl, ap, subst, ◌∙◌, inl, inr, Bool, true, false, Option, none, some, List, [], ◌∷◌, Num,
  Text, Bool-cases,
}
use speech_to_speech_k8s.Js.Result.{Failure, Result, ok, throw}
use speech_to_speech_k8s.Settings.{Transport}
use speech_to_speech_k8s.Connection.{Target, Form, missing_server_url, effective_transport}
use speech_to_speech_k8s.Connection.Url.{UrlApi}
use speech_to_speech_k8s.View.{connecting, is_connecting}
use speech_to_speech_k8s.Session.{
  Session, nothing, ends, starts, Task, priming, connecting_client, closing, beating,
}
use speech_to_speech_k8s.Session.Timers.{stop_countdown}
use speech_to_speech_k8s.Session.Teardown.{end_tracked_session, release_devices, handle_start_error}
use speech_to_speech_k8s.Session.Start.{
  acquire_mic_stream, resolve, prepare, ask_mic, drop_audio, do_start, primed, connected,
}
use speech_to_speech_k8s.Session.Events.{
  Answer, prime_answer, connect_answer, close_answer, beat_answer, Event, tap, restart, mute, stop,
  leave, join_now, pagehide, replay, queue_moved, ready_to_join, status, client_failed,
  session_granted, mic_acquired, beat_due, second_over, resume, config_fetched, on_config, on_mute,
}
use speech_to_speech_k8s.Session.Step.{
  task_at, without, fits, can_start, on_tap, save_form, restart_with, on_restart, continue, step,
  run,
}
use speech_to_speech_k8s.Session.Claims.{
  claims, leave_queue_of, MayGiveUp, Allowed, Runs, none_left, then_runs,
}
use speech_to_speech_k8s.Session.Claims.Listeners.{
  claims-sync_mic_mute_state, claims-toggle_mute, claims-tell_join, claims-on_client_status,
  claims-on_beat, claims-on_second, claims-on_queue, claims-on_ready_to_join, claims-on_session,
}
use speech_to_speech_k8s.Session.Claims.Effects.{
  claims-stop_countdown, claims-set_state, claims-end_tracked_session, claims-end_queue_ticket,
  claims-release_claims, claims-release_devices, claims-finish, claims-teardown,
  claims-on_limit_reached, claims-on_fatal_error, claims-handle_start_error,
}

module _ (api : UrlApi) (truncate : Text → Text) where
  claims-ask_mic :
      (target : Option Target) (t : Transport) (audio : Bool) (s : Session)
      → claims (ask_mic target t audio s) ≡ claims s
  claims-ask_mic target t audio s = claims-set_state connecting (prepare t s)

  claims-resolved :
      (r : Result (Option Target)) (audio : Bool) (s : Session)
      → resolve api s (effective_transport s.config s.settings) ≡ r
      → MayGiveUp (claims s) (claims (do_start api truncate audio s))
  unfolding do_start
  claims-resolved (ok target) audio s e = rw (e, do_start) (inl (claims-ask_mic target _ audio s))
  claims-resolved (throw f) audio s e = rw (e, do_start) (claims-handle_start_error truncate f s)

  claims-do_start :
      (audio : Bool) (s : Session) → MayGiveUp (claims s) (claims (do_start api truncate audio s))
  claims-do_start audio s = claims-resolved _ audio s refl

  claims-drop_audio : (audio : Bool) (s : Session) → claims (drop_audio audio s) ≡ claims s
  claims-drop_audio true s = refl
  claims-drop_audio false s = refl

  claims-dropped :
      (e : Failure) (audio : Bool) (s : Session)
      → MayGiveUp (claims s) (claims (handle_start_error truncate e (drop_audio audio s)))
  claims-dropped e audio s =
      subst (λ c. MayGiveUp c (claims (handle_start_error truncate e (drop_audio audio s))))
        (claims-drop_audio audio s) (claims-handle_start_error truncate e (drop_audio audio s))

  claims-primed :
      (e : Option Failure) (target : Option Target) (t : Transport) (audio : Bool) (s : Session)
      → MayGiveUp (claims s) (claims (primed api truncate e target t audio s))
  unfolding primed
  claims-primed none target t audio s = inl refl
  claims-primed (some e) target t audio s = claims-dropped e audio s

  claims-connected :
      (e : Option Failure) (audio : Bool) (s : Session)
      → MayGiveUp (claims s) (claims (connected api truncate e audio s))
  unfolding connected
  claims-connected none audio s = inl refl
  claims-connected (some e) audio s = claims-dropped e audio s

module _ (api : UrlApi) (number : Text → Num) (truncate : Text → Text) where
  claims-on_tap :
      (audio : Bool) (s : Session)
      → MayGiveUp (claims s) (claims (on_tap api number truncate audio s))
  unfolding on_tap
  claims-on_tap audio s = elim (Bool-cases (can_start s.state)) [
    | inl e ↦ elim (Bool-cases (missing_server_url api s.config s.settings)) [
      | inl m ↦ rw (e, m) (inl refl)
      | inr m ↦ rw (e, m) (claims-do_start api truncate audio s)
    ]
    | inr e ↦ rw e (inl refl)
  ]

  claims-restart_with :
      (c : Option ℕ) (audio : Bool) (s : Session)
      → MayGiveUp (claims s) (claims (restart_with api number truncate c audio s))
  claims-restart_with none audio s = claims-do_start api truncate audio s
  claims-restart_with (some c) audio s = inr (claims-release_claims s)

  claims-on_restart :
      (audio : Bool) (f : Form) (s : Session)
      → MayGiveUp (claims s) (claims (on_restart api number truncate audio f s))
  unfolding on_restart
  claims-on_restart audio f s =
      let s' = save_form api number truncate f s in
      elim (Bool-cases (is_connecting s.state)) [
        | inl e ↦ rw e (inl refl)
        | inr e ↦ elim (Bool-cases (missing_server_url api s'.config s'.settings)) [
          | inl m ↦ rw (e, m) (inl refl)
          | inr m ↦ rw (e, m) (claims-restart_with s'.client audio s')
        ]
      ]

  claims-continue :
      (t : Option Task) (a : Answer) (s : Session)
      → MayGiveUp (claims s) (claims (continue api number truncate t a s))
  unfolding continue
  claims-continue (some (priming target t audio)) (prime_answer e) s =
      claims-primed api truncate e target t audio s
  claims-continue (some (connecting_client c audio)) (connect_answer e) s =
      claims-connected api truncate e audio s
  claims-continue (some (closing (ends k))) close_answer s =
      inl (claims-finish truncate k (release_devices s) ∙ claims-release_devices s)
  claims-continue (some (closing (starts audio))) close_answer s =
      subst (λ c. MayGiveUp c (claims (do_start api truncate audio (release_devices s))))
        (claims-release_devices s) (claims-do_start api truncate audio (release_devices s))
  claims-continue (some (beating id)) (beat_answer (some true)) s =
      inr (claims-on_limit_reached truncate s)
  claims-continue _ _ s = inl refl

  -- One event does to the claims what is allowed for it.
  step-Allowed :
      (e : Event) (s : Session) → Allowed e (claims s) (claims (step api number truncate s e))
  unfolding step on_config on_mute acquire_mic_stream
  step-Allowed (tap audio) s = claims-on_tap audio s
  step-Allowed (restart audio f) s = claims-on_restart audio f s
  step-Allowed mute s = claims-toggle_mute s.mic_stream s.client s
  step-Allowed stop s = claims-teardown truncate nothing s
  step-Allowed leave s = claims-teardown truncate nothing s
  step-Allowed join_now s = claims-tell_join s.client (stop_countdown s) ∙ claims-stop_countdown s
  step-Allowed pagehide s =
      claims-end_queue_ticket (end_tracked_session s)
      ∙ ap leave_queue_of (claims-end_tracked_session s)
  step-Allowed (replay playing) s = claims-sync_mic_mute_state (record s { replaying = playing })
  step-Allowed (config_fetched f) s = refl
  step-Allowed (queue_moved n ticket) s = claims-on_queue n ticket s
  step-Allowed (ready_to_join info sec) s = claims-on_ready_to_join info sec s
  step-Allowed (status st) s = claims-on_client_status st s
  step-Allowed (client_failed message) s = claims-on_fatal_error truncate message s
  step-Allowed (session_granted i) s = claims-on_session i s
  step-Allowed (mic_acquired tracks) s = refl
  step-Allowed beat_due s = claims-on_beat s.beats s
  step-Allowed second_over s = claims-on_second s.countdowns s
  step-Allowed (resume n a) s = elim (Bool-cases (fits (task_at n s.pending) a)) [
    | inl e ↦
        rw e (claims-continue (task_at n s.pending) a (record s { pending = without n s.pending }))
    | inr e ↦ rw e (inl refl)
  ]

  -- Whatever happens, in whatever order the waits end, the claims run as the abstract machine lets
  -- them: what the page holds and what it has told the server is what the events allow.
  pub run-Runs :
      (es : List Event) (s : Session) → Runs es (claims s) (claims (run api number truncate s es))
  unfolding run
  run-Runs [] s = none_left
  run-Runs (e ∷ es) s = then_runs (step-Allowed e s) (run-Runs es (step api number truncate s e))
