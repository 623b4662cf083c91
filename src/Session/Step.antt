-- ===== src/Session/Step.antt =====
-- demo/main.js, one turn of the event loop: a listener runs up to its first wait, or a wait ends
-- and what stands behind it runs. `missingServerUrl` guards both buttons that start.
use speech_to_speech_k8s.Base.{
  ℕ, zero, suc, Bool, true, false, Option, none, some, List, [], ◌∷◌, ◌++◌, if◌then◌else◌, Num,
  Text,
}
use speech_to_speech_k8s.Settings.{save_settings}
use speech_to_speech_k8s.Connection.{Form, read_settings_from_form, missing_server_url}
use speech_to_speech_k8s.Connection.Url.{UrlApi}
use speech_to_speech_k8s.View.{AppState, idle, error, is_connecting}
use speech_to_speech_k8s.Session.{
  Session, nothing, ends, starts, Task, priming, connecting_client, closing, beating, close,
  prompt_url,
}
use speech_to_speech_k8s.Session.Timers.{stop_countdown}
use speech_to_speech_k8s.Session.Teardown.{
  emit, end_tracked_session, end_queue_ticket, release_claims, release_devices, finish, teardown,
  on_limit_reached, on_fatal_error,
}
use speech_to_speech_k8s.Session.Start.{
  sync_mic_mute_state, acquire_mic_stream, do_start, primed, connected,
}
use speech_to_speech_k8s.Session.Events.{
  Answer, prime_answer, connect_answer, close_answer, beat_answer, Event, tap, restart, mute, stop,
  leave, join_now, pagehide, replay, queue_moved, ready_to_join, status, client_failed,
  session_granted, mic_acquired, beat_due, second_over, resume, config_fetched, on_config,
  on_client_status, on_queue, on_ready_to_join, on_session, on_mute, tell_join, on_beat, on_second,
}

-- The n-th waiting function, and the list without it.
unfoldable pub task_at : ℕ → List Task → Option Task
task_at n [] = none
task_at zero (t ∷ ts) = some t
task_at (suc n) (t ∷ ts) = task_at n ts

unfoldable pub without : ℕ → List Task → List Task
without n [] = []
without zero (t ∷ ts) = ts
without (suc n) (t ∷ ts) = t ∷ without n ts

-- Each wait has its own kind of answer; no other reaches it.
abbrev pub fits : Option Task → Answer → Bool
fits (some (priming _ _ _)) (prime_answer _) = true
fits (some (connecting_client _ _)) (connect_answer _) = true
fits (some (closing _)) close_answer = true
fits (some (beating _)) (beat_answer _) = true
fits _ _ = false

abbrev pub can_start : AppState → Bool
can_start idle = true
can_start error = true
can_start _ = false

-- The page is left: its claims are given up.
abbrev pub on_pagehide : Session → Session
on_pagehide s = end_queue_ticket (end_tracked_session s)

module _ (api : UrlApi) (number : Text → Num) (truncate : Text → Text) where
  -- `circleBtn`
  unfoldable pub on_tap : Bool → Session → Session
  on_tap audio s =
      if can_start s.state
      then (if missing_server_url api s.config s.settings
          then emit prompt_url s
          else do_start api truncate audio s)
      else s

  abbrev pub save_form : Form → Session → Session
  save_form f s =
      let v = read_settings_from_form number s.config s.settings f in
      record s { settings = v; storage = save_settings v s.storage }

  -- The restart tears a client down before it starts.
  abbrev pub restart_with : Option ℕ → Bool → Session → Session
  restart_with none audio s = do_start api truncate audio s
  restart_with (some c) audio s =
      let s' = release_claims s in
      record s' { log = close c ∷ s'.log; pending = s'.pending ++ closing (starts audio) ∷ [] }

  -- `restartBtn`
  unfoldable pub on_restart : Bool → Form → Session → Session
  on_restart audio f s =
      let s' = save_form f s in
      if is_connecting s.state
      then s
      else if missing_server_url api s'.config s'.settings
      then emit prompt_url s'
      else restart_with s'.client audio s'

  -- What stands behind a wait. The heartbeat's failure is ignored.
  unfoldable pub continue : Option Task → Answer → Session → Session
  continue (some (priming target t audio)) (prime_answer e) s =
      primed api truncate e target t audio s
  continue (some (connecting_client c audio)) (connect_answer e) s =
      connected api truncate e audio s
  continue (some (closing (ends k))) close_answer s = finish truncate k (release_devices s)
  continue (some (closing (starts audio))) close_answer s =
      do_start api truncate audio (release_devices s)
  continue (some (beating id)) (beat_answer (some true)) s = on_limit_reached truncate s
  continue _ _ s = s

  unfoldable pub step : Session → Event → Session
  step s (tap audio) = on_tap audio s
  step s (restart audio f) = on_restart audio f s
  step s mute = on_mute s
  step s stop = teardown truncate nothing s
  step s leave = teardown truncate nothing s
  step s join_now = tell_join s.client (stop_countdown s)
  step s pagehide = on_pagehide s
  step s (replay playing) = sync_mic_mute_state (record s { replaying = playing })
  step s (config_fetched f) = on_config f s
  step s (queue_moved n ticket) = on_queue n ticket s
  step s (ready_to_join info sec) = on_ready_to_join info sec s
  step s (status st) = on_client_status st s
  step s (client_failed message) = on_fatal_error truncate message s
  step s (session_granted i) = on_session i s
  step s (mic_acquired tracks) = acquire_mic_stream tracks s
  step s beat_due = on_beat s.beats s
  step s second_over = on_second s.countdowns s
  step s (resume n answer) =
      if fits (task_at n s.pending) answer
      then continue (task_at n s.pending) answer (record s { pending = without n s.pending })
      else s

  unfoldable pub run : Session → List Event → Session
  run s [] = s
  run s (e ∷ es) = run (step s e) es
