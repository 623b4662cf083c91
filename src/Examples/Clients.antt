-- ===== src/Examples/Clients.antt =====
-- Two restarts of one call that overlap.
use speech_to_speech_k8s.Base.{◌≡◌, refl, true, none, List, [], ◌∷◌, ◌++◌, ◌||◌, text}
use speech_to_speech_k8s.Connection.{Form, initial, read_settings_from_form}
use speech_to_speech_k8s.Session.{Session}
use speech_to_speech_k8s.Session.Events.{
  Event, replay, Status, tap, restart, status, resume, prime_answer, connect_answer, close_answer,
}
use speech_to_speech_k8s.Session.Step.{on_restart, run}
use speech_to_speech_k8s.Session.Clients.{clients}
use speech_to_speech_k8s.Session.Clients.Muted.{IsTold, run-AreTold}
use speech_to_speech_k8s.Session.Clients.Lost.{IsLost, overlapping_starts-IsLost}
use speech_to_speech_k8s.Session.Clients.Orderly.{IsOrderly}
use speech_to_speech_k8s.Session.Clients.InTurn.{all_in_turn, run-IsOrderly}
use speech_to_speech_k8s.Examples.Settings.{browser_number, stored}
use speech_to_speech_k8s.Examples.Connection.{one_host, chosen}
use speech_to_speech_k8s.Examples.Session.{blank, switched_on, fresh, whole, two_calls, opened}

-- The user's audio is played back during the second call.
abbrev replayed : List Event
replayed = two_calls ++ (replay true ∷ [])

run-AreTold_example :
    let now = run one_host browser_number whole fresh replayed in
    IsTold now.client now.log (now.mic_muted || now.replaying)
run-AreTold_example =
    run-AreTold one_host browser_number whole initial chosen stored switched_on blank replayed

abbrev form : Form
form = record {
  url = text "localhost:8080";
  voice = text "Aiden";
  instructions = text "Be brief.";
  noise_gate = text "-50";
  transport = text "ws";
  audio_input = [];
  audio_output = [];
}

-- A call, and two clicks on Restart before its client has closed.
abbrev restarted_twice : List Event
restarted_twice =
    tap true
    ∷ resume 0 (prime_answer none)
    ∷ resume 0 (connect_answer none)
    ∷ status Status.connected
    ∷ restart true form
    ∷ restart true form
    ∷ resume 0 close_answer
    ∷ resume 0 close_answer
    ∷ []

abbrev both_asking : Session
both_asking = run one_host browser_number whole fresh restarted_twice

abbrev up : List Event
up = status Status.connected ∷ []

overlapping_starts-IsLost_example : IsLost 1 (
    clients (
      run one_host browser_number whole both_asking
        (resume 0 (prime_answer none) ∷ resume 0 (prime_answer none) ∷ up)))
unfolding opened on_restart read_settings_from_form
overlapping_starts-IsLost_example =
    overlapping_starts-IsLost one_host browser_number whole initial chosen stored switched_on blank
      restarted_twice up 0 0 refl refl

-- Two calls, and a restart of the second once the first has closed.
abbrev one_by_one : List Event
one_by_one =
    two_calls
    ++ restart true form
      ∷ resume 1 close_answer
      ∷ resume 1 (prime_answer none)
      ∷ resume 1 (connect_answer none)
      ∷ []

each_in_turn : all_in_turn one_host browser_number whole fresh one_by_one ≡ true
unfolding opened on_restart read_settings_from_form
each_in_turn = refl

run-IsOrderly_example : IsOrderly (clients (run one_host browser_number whole fresh one_by_one))
run-IsOrderly_example =
    run-IsOrderly one_host browser_number whole initial chosen stored switched_on blank one_by_one
      each_in_turn
