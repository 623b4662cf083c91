-- ===== src/Examples/Connection.antt =====
-- Where to connect, with a browser that knows one host.
use mathlib.Core.Option.{some-injective}
use speech_to_speech_k8s.Base.{
  ◌∷◌, ◌≡◌, ◌≢◌, refl, sym, subst, ◌∙◌, Bool, true, false, none, some, [], if◌then◌else◌, negsuc,
  Text, text, text_eq, trim, trim_start, trim_end, is_space,
}
use speech_to_speech_k8s.Js.Json.{lookup}
use speech_to_speech_k8s.Js.Result.{Failure, ok, throw}
use speech_to_speech_k8s.Settings.{Settings, ws, webrtc}
use speech_to_speech_k8s.Connection.{
  initial, Form, fetch_config, Target, session_url, connection_target, missing_server_url,
  transport_selectable, effective_transport, target_of, read_settings_from_form,
}
use speech_to_speech_k8s.Connection.Url.{
  UrlApi, strip_ci, starts_ci, is_ws, realtime_path, build_direct_ws_url, with_scheme,
}
use speech_to_speech_k8s.Connection.Url.Scheme.{
  KeepsScheme, IsWsAddress, asks_tls, build_direct_ws_url-IsWsAddress,
}
use speech_to_speech_k8s.Connection.Modes.{
  initial-IsTrimmed, connection_target-missing_server_url, server_json, reported, reported_modes,
}
use speech_to_speech_k8s.Connection.Panel.NextVisit.{submit-load_settings}
use speech_to_speech_k8s.Settings.{load_settings}
use speech_to_speech_k8s.Connection.Panel.{submit, Panel}
use speech_to_speech_k8s.Examples.Settings.{browser_number, browser_number-ReadsNumbers, stored}

-- The address of the one host, secure or not, with a path or with none.
unfoldable pub shown : Bool → Bool → Text
shown true true = text "wss://h/v1/realtime"
shown true false = text "wss://h/"
shown false true = text "ws://h/v1/realtime"
shown false false = text "ws://h/"

unfoldable pub path_of : Bool → Text
path_of true = realtime_path
path_of false = text "/"

unfoldable pub one_host : UrlApi
unfolding shown path_of
one_host = record {
  Url = Bool × Bool;
  parse = λ s. if is_ws s then some (starts_ci (text "wss://") s, false) else none;
  pathname = λ u. path_of u.1;
  set_pathname = λ p u. (u.0, true);
  to_string = λ u. shown u.0 u.1;
}

pub shown-IsWsAddress : (tls moved : Bool) → IsWsAddress tls (shown tls moved)
unfolding shown strip_ci text
shown-IsWsAddress true true = (refl, refl)
shown-IsWsAddress true false = (refl, refl)
shown-IsWsAddress false true = (refl, refl)
shown-IsWsAddress false false = (refl, refl)

pub one_host-KeepsScheme : KeepsScheme one_host
unfolding one_host
one_host-KeepsScheme = record {
  parsed = λ s u tls e h.
      subst (λ w. IsWsAddress tls (shown w.0 w.1))
        (some-injective (tls, false) u (rw (h.0, h.1) at e)) (shown-IsWsAddress tls false);
  moved = λ p u tls h.
      subst (λ t. IsWsAddress t (shown u.0 true)) (sym (shown-IsWsAddress u.0 u.1).1 ∙ h.1)
        (shown-IsWsAddress u.0 true);
}

-- A bare local host is dialled without TLS, any other with it; letters are compared without case.
typed_addresses :
    (with_scheme (text "LocalHost:8080") ≡ text "ws://LocalHost:8080")
    × (with_scheme (text "voice.example/x") ≡ text "wss://voice.example/x")
    × (with_scheme (text "HTTPS://a") ≡ text "wsS://a")
    × (with_scheme (text "localhosts") ≡ text "wss://localhosts")
unfolding with_scheme text strip_ci
typed_addresses = (refl, refl, refl, refl)

pub some_text : trim (text " localhost:8080 ") ≢ []
unfolding trim trim_start trim_end is_space text
some_text = λ e. cc

build_direct_ws_url-IsWsAddress_example :
    (trim (text " localhost:8080 ") ≡ []
      → build_direct_ws_url one_host (text " localhost:8080 ") ≡ [])
    × (trim (text " localhost:8080 ") ≢ []
        → IsWsAddress
            (asks_tls (trim (text " localhost:8080 ")))
            (build_direct_ws_url one_host (text " localhost:8080 ")))
build_direct_ws_url-IsWsAddress_example =
    build_direct_ws_url-IsWsAddress one_host (text " localhost:8080 ") one_host-KeepsScheme

abbrev pub chosen : Settings
chosen = record {
  direct_url = text "localhost:8080";
  voice = text "Aiden";
  instructions = text "Be brief.";
  noise_gate = negsuc 49;
  transport = webrtc;
  audio_input_id = [];
  audio_output_id = [];
}

connection_target-missing_server_url_example :
    (missing_server_url one_host initial chosen ≡ false
      → (g : Target) × (connection_target one_host initial chosen ≡ ok g))
    × (missing_server_url one_host initial chosen ≡ true
        → (e : Failure) × (connection_target one_host initial chosen ≡ throw e))
connection_target-missing_server_url_example =
    connection_target-missing_server_url one_host initial chosen one_host-KeepsScheme
      initial-IsTrimmed

-- A pinned deployment, reached over WebRTC.
pinned_modes :
    let c = reported false (text "wss://s") [] in
    (effective_transport c chosen ≡ webrtc)
    × (transport_selectable c ≡ true)
    × (effective_transport initial chosen ≡ ws)
unfolding effective_transport transport_selectable fetch_config server_json lookup text text_eq trim
    trim_start trim_end is_space
pinned_modes = (refl, refl, refl)

reported_modes_example :
    let c = reported true [] [] in
    (true ≡ true
      → (connection_target one_host c chosen ≡ ok (session_url (text "api/session")))
        × (effective_transport c chosen ≡ ws))
    × (true ≡ false
        → trim [] ≢ []
        → (connection_target one_host c chosen
            ≡ target_of one_host (build_direct_ws_url one_host (trim [])))
          × (effective_transport c chosen ≡ chosen.transport))
    × (true ≡ false
        → trim [] ≡ []
        → (connection_target one_host c chosen
            ≡ target_of one_host (build_direct_ws_url one_host chosen.direct_url))
          × (effective_transport c chosen ≡ ws))
reported_modes_example = reported_modes one_host true [] [] chosen

abbrev pub empty_form : Form
empty_form = record {
  url = [];
  voice = [];
  instructions = [];
  noise_gate = [];
  transport = [];
  audio_input = [];
  audio_output = [];
}

abbrev pub closed_panel : Panel
closed_panel = record {
  form = empty_form;
  voices = text "Aiden" ∷ [];
  transport_hidden = false;
  transport_disabled = false;
  transport_hint = [];
  gate_hidden = false;
  url_hidden = false;
  url_read_only = false;
  url_placeholder = [];
  url_hint = [];
  url_error = false;
  is_open = false;
}

abbrev edited : Form
edited = record empty_form {
  url = text "localhost:9";
  noise_gate = text "-40";
  transport = text "ws";
}

submit-load_settings_example :
    let done = submit browser_number initial true true true edited (chosen, stored) in
    let left = submit browser_number initial false true true edited (chosen, stored) in
    (load_settings browser_number done.1 ≡ done.0)
    × (done.0 ≡ read_settings_from_form browser_number initial chosen edited)
    × (left ≡ (chosen, stored, []))
submit-load_settings_example =
    submit-load_settings browser_number initial true true edited chosen stored
      browser_number-ReadsNumbers
