-- ===== src/Session/Invariant/Runs.antt =====
-- Every turn of the event loop keeps the timers and the view in order, so every run does.
use speech_to_speech_k8s.Base.{
  ℕ, refl, arith, inl, inr, Bool, true, Option, none, some, List, [], ◌∷◌, Bool-cases, Num, Text,
}
use speech_to_speech_k8s.Connection.{Config, Form, missing_server_url}
use speech_to_speech_k8s.Connection.Url.{UrlApi}
use speech_to_speech_k8s.View.{View, idle, is_connecting}
use speech_to_speech_k8s.Session.{
  Session, nothing, ends, starts, Task, priming, connecting_client, closing, beating,
}
use speech_to_speech_k8s.Session.Timers.{stop_countdown}
use speech_to_speech_k8s.Session.Teardown.{end_tracked_session, release_devices}
use speech_to_speech_k8s.Session.Events.{
  Answer, prime_answer, connect_answer, close_answer, beat_answer, Event, tap, restart, mute, stop,
  leave, join_now, pagehide, replay, queue_moved, ready_to_join, status, client_failed,
  session_granted, mic_acquired, beat_due, second_over, resume, on_mute, config_fetched, on_config,
}
use speech_to_speech_k8s.Session.Start.{acquire_mic_stream}
use speech_to_speech_k8s.Session.Step.{
  task_at, fits, can_start, on_tap, save_form, restart_with, on_restart, continue, step, run,
}
use speech_to_speech_k8s.Session.Boot.{loaded, boot}
use speech_to_speech_k8s.Settings.{Settings, Storage}
use speech_to_speech_k8s.Tools.{Switches}
use speech_to_speech_k8s.Session.Invariant.{Inv}
use speech_to_speech_k8s.Session.Invariant.Teardown.{
  set_state-Inv, stop_countdown-Inv, end_tracked_session-Inv, end_queue_ticket-Inv,
  release_claims-Inv, release_devices-Inv, finish-Inv, teardown-Inv, on_limit_reached-Inv,
  on_fatal_error-Inv,
}
use speech_to_speech_k8s.Session.Invariant.Turns.{
  sync_mic_mute_state-Inv, do_start-Inv, primed-Inv, connected-Inv, on_client_status-Inv,
  on_queue-Inv, on_ready_to_join-Inv, on_session-Inv, toggle_mute-Inv, tell_join-Inv, on_beat-Inv,
  on_second-Inv,
}

module _ (api : UrlApi) (number : Text → Num) (truncate : Text → Text) where
  on_tap-Inv : (audio : Bool) (s : Session) → Inv s → Inv (on_tap api number truncate audio s)
  unfolding on_tap
  on_tap-Inv audio s v = elim (Bool-cases (can_start s.state)) [
    | inl e ↦ elim (Bool-cases (missing_server_url api s.config s.settings)) [
      | inl m ↦ rw (e, m) v
      | inr m ↦ rw (e, m) (do_start-Inv api truncate audio s v)
    ]
    | inr e ↦ rw e v
  ]

  restart_with-Inv :
      (c : Option ℕ) (audio : Bool) (s : Session)
      → Inv s
      → Inv (restart_with api number truncate c audio s)
  restart_with-Inv none audio s v = do_start-Inv api truncate audio s v
  restart_with-Inv (some c) audio s v = release_claims-Inv s v

  on_restart-Inv :
      (audio : Bool) (f : Form) (s : Session)
      → Inv s
      → Inv (on_restart api number truncate audio f s)
  unfolding on_restart
  on_restart-Inv audio f s v =
      let s' = save_form api number truncate f s in
      elim (Bool-cases (is_connecting s.state)) [
        | inl e ↦ rw e v
        | inr e ↦ elim (Bool-cases (missing_server_url api s'.config s'.settings)) [
          | inl m ↦ rw (e, m) v
          | inr m ↦ rw (e, m) (restart_with-Inv s'.client audio s' v)
        ]
      ]

  continue-Inv :
      (t : Option Task) (a : Answer) (s : Session)
      → Inv s
      → Inv (continue api number truncate t a s)
  unfolding continue
  continue-Inv (some (priming target t audio)) (prime_answer e) s v =
      primed-Inv api truncate e target t audio s v
  continue-Inv (some (connecting_client c audio)) (connect_answer e) s v =
      connected-Inv api truncate e audio s v
  continue-Inv (some (closing (ends k))) close_answer s v =
      finish-Inv truncate k (release_devices s) (release_devices-Inv s v)
  continue-Inv (some (closing (starts audio))) close_answer s v =
      do_start-Inv api truncate audio (release_devices s) (release_devices-Inv s v)
  continue-Inv (some (beating id)) (beat_answer (some true)) s v = on_limit_reached-Inv truncate s v
  continue-Inv _ _ s v = v

  step-Inv : (e : Event) (s : Session) → Inv s → Inv (step api number truncate s e)
  unfolding step on_config on_mute acquire_mic_stream
  step-Inv (tap audio) s v = on_tap-Inv audio s v
  step-Inv (restart audio f) s v = on_restart-Inv audio f s v
  step-Inv mute s v = toggle_mute-Inv s.mic_stream s.client s v
  step-Inv stop s v = teardown-Inv truncate nothing s v
  step-Inv leave s v = teardown-Inv truncate nothing s v
  step-Inv join_now s v = tell_join-Inv s.client (stop_countdown s) (stop_countdown-Inv s v)
  step-Inv pagehide s v = end_queue_ticket-Inv (end_tracked_session s) (end_tracked_session-Inv s v)
  step-Inv (replay playing) s v = sync_mic_mute_state-Inv (record s { replaying = playing }) v
  step-Inv (config_fetched f) s v = v
  step-Inv (queue_moved n ticket) s v = on_queue-Inv n ticket s v
  step-Inv (ready_to_join info sec) s v = on_ready_to_join-Inv info sec s v
  step-Inv (status st) s v = on_client_status-Inv st s v
  step-Inv (client_failed message) s v = on_fatal_error-Inv truncate message s v
  step-Inv (session_granted i) s v = on_session-Inv i s v
  step-Inv (mic_acquired tracks) s v = v
  step-Inv beat_due s v = on_beat-Inv s.beats s v
  step-Inv second_over s v = on_second-Inv s.countdowns s v
  step-Inv (resume n a) s v = elim (Bool-cases (fits (task_at n s.pending) a)) [
    | inl e ↦ rw e (continue-Inv _ a _ v)
    | inr e ↦ rw e v
  ]

pub run_from-Inv :
    (api : UrlApi) (number : Text → Num) (truncate : Text → Text) (es : List Event) (s : Session)
    → Inv s
    → Inv (run api number truncate s es)
unfolding run
run_from-Inv api number truncate [] s v = v
run_from-Inv api number truncate (e ∷ es) s v =
    run_from-Inv api number truncate es (step api number truncate s e)
      (step-Inv api number truncate e s v)

boot-Inv :
    (c : Config) (s : Settings) (st : Storage) (t : Switches) (v : View) → Inv (boot c s st t v)
unfolding boot
boot-Inv c s st t v = set_state-Inv idle (loaded c s st t v) (record {
  heartbeat = refl;
  countdown = refl;
  heartbeat_given = omega arith;
  countdown_given = omega arith;
  apart = λ e. refl;
})

-- From the loading of the page on, whatever happens and in whatever order the waits end: at most
-- one heartbeat and one countdown run, each the one that its variable names, so that stopping it
-- stops it; and the buttons, the queue's controls and the restart button show the current state.
pub run-Inv :
    (api : UrlApi) (number : Text → Num) (truncate : Text → Text) (c : Config) (s : Settings)
    (st : Storage) (t : Switches) (v : View) (es : List Event)
    → Inv (run api number truncate (boot c s st t v) es)
run-Inv api number truncate c s st t v es =
    run_from-Inv api number truncate es (boot c s st t v) (boot-Inv c s st t v)
