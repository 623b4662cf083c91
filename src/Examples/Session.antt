-- ===== src/Examples/Session.antt =====
-- Runs of the event loop: a call that is stopped, and an answer that comes too late.
use speech_to_speech_k8s.Base.{
  ◌≡◌, ◌≢◌, refl, true, false, none, some, List, [], ◌∷◌, pos, Text, text, length,
}
use speech_to_speech_k8s.Js.Json.{bool}
use speech_to_speech_k8s.Connection.{initial, missing_server_url}
use speech_to_speech_k8s.Connection.Modes.{initial-IsTrimmed}
use speech_to_speech_k8s.View.{View, plain}
use speech_to_speech_k8s.Tools.{Switches}
use speech_to_speech_k8s.Session.{Session, beating, prompt_url}
use speech_to_speech_k8s.Base.{text_eq, text_eq_iff, trim, trim_start, trim_end, is_space, ◌∙◌}
use speech_to_speech_k8s.Connection.{effective_transport, transport_selectable, connection_target}
use speech_to_speech_k8s.Connection.Url.{build_direct_ws_url, with_scheme, with_path, strip_ci}
use speech_to_speech_k8s.Session.Timers.{clear, stop_heartbeat, stop_countdown, start_heartbeat}
use speech_to_speech_k8s.Session.Teardown.{
  set_state, end_tracked_session, end_queue_ticket, release_claims, release_devices, finish,
  teardown,
}
use speech_to_speech_k8s.Session.Start.{do_start, primed, connected}
use speech_to_speech_k8s.Session.Events.{on_client_status, on_session, on_beat}
use speech_to_speech_k8s.Session.Step.{without, on_tap, continue}
use speech_to_speech_k8s.Session.Boot.{boot}
use speech_to_speech_k8s.Session.Teardown.{emit}
use speech_to_speech_k8s.Session.Events.{
  Event, SessionInfo, Status, tap, stop, status, session_granted, beat_due, resume, prime_answer,
  connect_answer, close_answer, beat_answer,
}
use speech_to_speech_k8s.Session.Step.{task_at, step, run}
use speech_to_speech_k8s.Session.Invariant.{Inv}
use speech_to_speech_k8s.Session.Invariant.Runs.{run-Inv}
use speech_to_speech_k8s.Session.{close}
use speech_to_speech_k8s.Session.Given.{claims_given, devices_given}
use speech_to_speech_k8s.Session.Release.{IsUnclaimed, IsReleased, stop_releases}
use speech_to_speech_k8s.Session.Races.{IsClosing, stale_heartbeat-IsClosing}
use speech_to_speech_k8s.Session.Starts.{IsAsking, tap-IsAsking}
use speech_to_speech_k8s.Examples.Settings.{browser_number, stored}
use speech_to_speech_k8s.Examples.Connection.{one_host, one_host-KeepsScheme, chosen}

abbrev pub blank : View
blank = record {
  circle_disabled = false;
  circle_class = [];
  caption = [];
  caption_kind = plain;
  orb_live = false;
  call_buttons_hidden = false;
  call_buttons_tab = pos 0;
  queue_hidden = false;
  join_hidden = false;
  join_tab = pos 0;
  leave_hidden = false;
  leave_tab = pos 0;
  subcaption = [];
  subcaption_hidden = false;
  restart_disabled = false;
  restart_hint = [];
  join_label = [];
  mic_shown_muted = false;
  mic_label = text "Mute";
  rtc_live = false;
}

abbrev pub switched_on : Switches
switched_on = record { web_search = bool true; camera_snapshot = bool true; user_search_key = [] }

abbrev pub fresh : Session
fresh = boot initial chosen stored switched_on blank

abbrev pub whole : Text → Text
whole t = t

abbrev granted : Text → SessionInfo
granted id = record { session_id = id; tier = []; limited = true; heartbeat_sec = 5 }

-- Tap, allow the microphone, connect, and be granted a metered session.
abbrev call_up : Text → List Event → List Event
call_up id rest =
    tap true
    ∷ resume 0 (prime_answer none)
    ∷ resume 0 (connect_answer none)
    ∷ session_granted (granted id)
    ∷ status Status.connected
    ∷ rest

-- The heartbeat of the first call is sent and not answered; the call is stopped and has closed, and
-- a second one is up.
abbrev pub two_calls : List Event
two_calls = call_up (text "A") (
    beat_due
    ∷ stop
    ∷ resume 1 close_answer
    ∷ tap true
    ∷ resume 1 (prime_answer none)
    ∷ resume 1 (connect_answer none)
    ∷ session_granted (granted (text "B"))
    ∷ status Status.connected
    ∷ [])

abbrev second_call : Session
second_call = run one_host browser_number whole fresh two_calls

-- What a run computes with.
unfoldable pub opened : Unit {0}
unfolding run step boot clear stop_heartbeat stop_countdown start_heartbeat set_state
    end_tracked_session end_queue_ticket release_claims release_devices finish teardown on_tap
    continue task_at without on_client_status on_session on_beat do_start primed connected
    effective_transport transport_selectable connection_target missing_server_url one_host
    build_direct_ws_url with_scheme with_path strip_ci text text_eq trim trim_start trim_end
    is_space
opened = tt

second_call_up :
    (task_at 0 second_call.pending ≡ some (beating (text "A")))
    × (second_call.tracked_session ≡ text "B")
    × (second_call.client ≡ some 1)
unfolding opened
second_call_up = (refl, refl, refl)

run-Inv_example : Inv second_call
run-Inv_example =
    run-Inv one_host browser_number whole initial chosen stored switched_on blank two_calls

A-ne-B : ◌≢◌ {A = Text} (text "A") (text "B")
unfolding text text_eq
A-ne-B = λ e. let t : false ≡ true = (text_eq_iff (text "A") (text "B")).1 e in cc

stale_heartbeat-IsClosing_example :
    IsClosing 1
      (step one_host browser_number whole second_call (resume 0 (beat_answer (some true))))
stale_heartbeat-IsClosing_example =
    stale_heartbeat-IsClosing one_host browser_number whole second_call 0 run-Inv_example.0
      second_call_up.0 (λ e. A-ne-B (e ∙ second_call_up.1)) second_call_up.2

stop_releases_example :
    let s1 = step one_host browser_number whole second_call stop in
    let s2 =
      step one_host browser_number whole s1 (resume (length second_call.pending) close_answer) in
    IsUnclaimed s1
    × (s1.log ≡ close 1 ∷ claims_given second_call second_call.log)
    × IsReleased s2
    × (s2.log ≡ devices_given second_call (close 1 ∷ claims_given second_call second_call.log))
stop_releases_example =
    stop_releases one_host browser_number whole second_call run-Inv_example.0 second_call_up.2

tap-IsAsking_example :
    (missing_server_url one_host fresh.config fresh.settings ≡ true
      → step one_host browser_number whole fresh (tap true) ≡ emit prompt_url fresh)
    × (missing_server_url one_host fresh.config fresh.settings ≡ false
        → IsAsking true fresh (step one_host browser_number whole fresh (tap true)))
unfolding opened
tap-IsAsking_example =
    tap-IsAsking one_host browser_number whole fresh true one_host-KeepsScheme initial-IsTrimmed
      refl
