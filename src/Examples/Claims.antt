-- ===== src/Examples/Claims.antt =====
-- Runs of the event loop that end, are restarted or wait for their turn.
use speech_to_speech_k8s.Base.{
  none, ◌≡◌, ◌≤◌, refl, true, false, some, [], ◌∷◌, text, text_eq, trim, trim_start, trim_end,
  is_space,
}
use speech_to_speech_k8s.Connection.{initial, missing_server_url}
use speech_to_speech_k8s.Connection.Url.{build_direct_ws_url, with_scheme, with_path, strip_ci}
use speech_to_speech_k8s.Connection.Modes.{initial-IsTrimmed}
use speech_to_speech_k8s.View.{AppState, idle, listening}
use speech_to_speech_k8s.Js.Result.{Failure, Code, error}
use speech_to_speech_k8s.Settings.{webrtc}
use speech_to_speech_k8s.Session.{Session, closing, starts, priming, connecting_client}
use speech_to_speech_k8s.Session.{close, close_audio}
use speech_to_speech_k8s.Session.Given.{claims_given, devices_given}
use speech_to_speech_k8s.Session.Reports.{IsReported}
use speech_to_speech_k8s.Session.Release.{IsUnclaimed}
use speech_to_speech_k8s.Session.Settled.{IsSettled}
use speech_to_speech_k8s.Session.Failures.{failed_connect-IsSettled, failed_priming-IsSettled}
use speech_to_speech_k8s.Session.Timers.{stop_countdown, start_countdown}
use speech_to_speech_k8s.Session.Teardown.{set_state, release_devices}
use speech_to_speech_k8s.Session.Events.{stop, resume, close_answer, connect_answer, prime_answer}
use speech_to_speech_k8s.Session.Step.{task_at, without, step, run}
use speech_to_speech_k8s.Session.Boot.{boot}
use speech_to_speech_k8s.Session.Invariant.{OwnsTimers}
use speech_to_speech_k8s.Session.Invariant.Runs.{run-Inv}
use speech_to_speech_k8s.Session.Claims.{claims, returns, Runs}
use speech_to_speech_k8s.Session.Claims.Refine.{run-Runs}
use speech_to_speech_k8s.Session.Claims.Ledger.{
  endings, leavings, grants, tickets, returns-le-grants,
}
use speech_to_speech_k8s.Session.Countdown.{seconds, After, start_countdown-After}
use speech_to_speech_k8s.Session.Starts.{IsAsking}
use speech_to_speech_k8s.Session.Restarts.{stopped_restart-IsAsking}
use speech_to_speech_k8s.Examples.Settings.{browser_number, stored}
use speech_to_speech_k8s.Examples.Connection.{one_host, one_host-KeepsScheme, chosen}
use speech_to_speech_k8s.Examples.Session.{blank, switched_on, fresh, whole, two_calls}

run-Runs_example :
    Runs two_calls (claims fresh) (claims (run one_host browser_number whole fresh two_calls))
run-Runs_example = run-Runs one_host browser_number whole two_calls fresh

returns-le-grants_example :
    let log = (run one_host browser_number whole fresh two_calls).log in
    (endings (text "A") (returns log) ≤ grants (text "A") two_calls)
    × (leavings (text "A") (returns log) ≤ tickets (text "A") two_calls)
returns-le-grants_example =
    returns-le-grants (text "A") one_host browser_number whole initial chosen stored switched_on
      blank two_calls

fresh-OwnsTimers : OwnsTimers fresh
unfolding run
fresh-OwnsTimers =
    (run-Inv one_host browser_number whole initial chosen stored switched_on blank []).0

start_countdown-After_example :
    After one_host browser_number whole 30 2
      (run one_host browser_number whole (start_countdown 30 fresh) (seconds 2))
start_countdown-After_example =
    start_countdown-After one_host browser_number whole 30 2 fresh fresh-OwnsTimers

-- A call whose restart waits.
abbrev restarting : Session
restarting = record fresh {
  state = listening;
  client = some 0;
  made = 1;
  pending = closing (starts true) ∷ [];
}

restarting-set : missing_server_url one_host restarting.config restarting.settings ≡ false
unfolding boot set_state stop_countdown missing_server_url one_host build_direct_ws_url with_scheme
    with_path strip_ci text text_eq trim trim_start trim_end is_space
restarting-set = refl

stopped_restart-IsAsking_example :
    let w = step one_host browser_number whole restarting stop in
    IsAsking true
      (release_devices (record w { pending = without 0 w.pending }))
      (step one_host browser_number whole w (resume 0 close_answer))
unfolding task_at boot set_state stop_countdown
stopped_restart-IsAsking_example =
    stopped_restart-IsAsking one_host browser_number whole restarting 0 0 true one_host-KeepsScheme
      initial-IsTrimmed restarting-set refl refl

-- A call that connects, with the microphone granted.
abbrev connecting_call : Session
connecting_call = record fresh {
  client = some 0;
  made = 1;
  pending = connecting_client 0 true ∷ [];
}

abbrev spent : Failure
spent = record { message = text "limit"; code = Code.limit; tier = text "free"; login_url = [] }

failed_connect-IsSettled_example :
    let s1 =
      step one_host browser_number whole connecting_call (resume 0 (connect_answer (some spent))) in
    let s2 = step one_host browser_number whole s1 (resume 0 close_answer) in
    let told = close 0 ∷ claims_given connecting_call (close_audio ∷ connecting_call.log) in
    IsUnclaimed s1
    × (s1.log ≡ told)
    × IsSettled idle s2
    × IsReported whole spent (devices_given connecting_call told) s2
unfolding task_at without
failed_connect-IsSettled_example =
    failed_connect-IsSettled one_host browser_number whole connecting_call 0 0 0 true spent
      fresh-OwnsTimers refl (λ e. cc) refl

-- The browser's refusal of the microphone.
abbrev denied : Failure
denied = error (text "Microphone access denied: Permission denied")

abbrev priming_call : Session
priming_call = record fresh { pending = priming none webrtc true ∷ [] }

failed_priming-IsSettled_example :
    let s1 =
      step one_host browser_number whole priming_call (resume 0 (prime_answer (some denied))) in
    IsSettled AppState.error s1
    × IsReported whole denied
        (devices_given priming_call (claims_given priming_call (close_audio ∷ priming_call.log)))
        s1
unfolding task_at boot set_state stop_countdown
failed_priming-IsSettled_example =
    failed_priming-IsSettled one_host browser_number whole priming_call 0 none webrtc true denied
      fresh-OwnsTimers refl (λ e. cc) refl
