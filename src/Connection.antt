-- ===== src/Connection.antt =====
-- demo/main.js, where to connect and how: what `/api/config` tells (`fetchConfig`), the target of
-- a connection, the transport, and the settings form. `allowDirect` and `rtcAvailable` are kept as
-- the truth values by which alone they are read.
pub mod Url
pub mod Modes
pub mod Panel
use speech_to_speech_k8s.Base.{
  Bool, true, false, not, ◌&&◌, ◌||◌, Option, none, some, List, [], ◌∷◌, if◌then◌else◌, Num, Text,
  text, text_eq, is_nonempty, or_text, trim,
}
use speech_to_speech_k8s.Js.Json.{
  Json, null, bool, num, str, arr, obj, items, get, truthy, truthy?, or_nullish,
}
use speech_to_speech_k8s.Js.Result.{Result, ok, throw, error}
use speech_to_speech_k8s.Settings.{
  Settings, Transport, ws, webrtc, read_gate_threshold, default_voice, default_instructions,
  transport_of, transport_name,
}
use Url.{UrlApi, build_direct_ws_url}

pub record Config : Type 0 where
  pub server_search_key : Bool
  pub lb_mode : Bool
  pub allow_direct : Bool
  pub pinned_url : Text
  pub rtc_available : Bool
  pub ice_servers : List Json
  pub startup_greeting : Text
  pub limiter_on : Bool

-- The module's initial values: direct entry is open until a load balancer is reported.
abbrev pub initial : Config
initial = record {
  server_search_key = false;
  lb_mode = false;
  allow_direct = true;
  pinned_url = [];
  rtc_available = false;
  ice_servers = [];
  startup_greeting = [];
  limiter_on = false;
}

-- What `await fetch(…)` gives: a rejection, or a response with `res.ok` and what `res.json()`
-- resolves to (`none`: it rejects).
pub data Fetched : Type 0 where
  failed : Fetched
  response : Bool → Option Json → Fetched

-- `(v || "").trim()`; `none`: the value has no `trim`, a TypeError.
abbrev pub trimmed : Option Json → Option Text
trimmed none = some []
trimmed (some (str s)) = some (trim s)
trimmed (some v) = if truthy v then none else some []

abbrev pub array_or_nil : Option Json → List Json
array_or_nil (some (arr vs)) = items vs
array_or_nil _ = []

abbrev pub trimmed_string : Option Json → Text
trimmed_string (some (str s)) = trim s
trimmed_string _ = []

-- The assignments up to the one that may throw.
abbrev read_mode : Json → Config → Config
read_mode json c = record c {
  server_search_key = truthy? (get json (text "search"));
  lb_mode = truthy? (get json (text "lb"));
  allow_direct =
      truthy
        (or_nullish (get json (text "allowDirect")) (bool (not (truthy? (get json (text "lb"))))));
}

-- The assignments behind it.
abbrev read_target : Json → Option Text → Config → Config
read_target json none c = c
read_target json (some url) c = record c {
  pinned_url = url;
  rtc_available = truthy? (get json (text "rtc"));
  ice_servers = array_or_nil (get json (text "iceServers"));
  startup_greeting = trimmed_string (get json (text "startupGreeting"));
  limiter_on = c.lb_mode;
}

-- Reading a property of `null` throws at once.
abbrev read_config : Json → Config → Config
read_config null c = c
read_config json c = read_target json (trimmed (get json (text "s2sUrl"))) (read_mode json c)

-- The configuration that `fetchConfig` leaves: whatever throws, the assignments made before stay.
unfoldable pub fetch_config : Fetched → Config → Config
fetch_config failed c = c
fetch_config (response false body) c = c
fetch_config (response true none) c = c
fetch_config (response true (some json)) c = read_config json c

pub data Target : Type 0 where
  session_url : Text → Target
  direct_url : Text → Target

unfoldable pub transport_selectable : Config → Bool
transport_selectable c = c.allow_direct && is_nonempty c.pinned_url && c.rtc_available

abbrev both_webrtc : Bool → Transport → Transport
both_webrtc true webrtc = webrtc
both_webrtc _ _ = ws

unfoldable pub effective_transport : Config → Settings → Transport
unfolding transport_selectable
effective_transport c s = both_webrtc (transport_selectable c) s.transport

module _ (api : UrlApi) where
  abbrev pub target_of : Text → Result Target
  target_of [] = throw (error (text "Enter a speech-to-speech server URL in Settings."))
  target_of (c ∷ t) = ok (direct_url (c ∷ t))

  unfoldable pub connection_target : Config → Settings → Result Target
  connection_target c s =
      if not c.allow_direct
      then ok (session_url (text "api/session"))
      else target_of (build_direct_ws_url api (or_text c.pinned_url s.direct_url))

  unfoldable pub missing_server_url : Config → Settings → Bool
  missing_server_url c s =
      c.allow_direct
      && not (is_nonempty c.pinned_url)
      && not (is_nonempty (build_direct_ws_url api s.direct_url))

-- The values of the form's controls.
pub record Form : Type 0 where
  pub url : Text
  pub voice : Text
  pub instructions : Text
  pub noise_gate : Text
  pub transport : Text
  pub audio_input : Text
  pub audio_output : Text

unfoldable pub read_settings_from_form : (Text → Num) → Config → Settings → Form → Settings
unfolding transport_selectable
read_settings_from_form number c s f = record {
  direct_url =
      if c.allow_direct && not (is_nonempty c.pinned_url) then trim f.url else s.direct_url;
  voice = or_text f.voice default_voice;
  instructions = or_text (trim f.instructions) default_instructions;
  noise_gate = read_gate_threshold number f.noise_gate;
  transport = if transport_selectable c then transport_of f.transport else s.transport;
  audio_input_id = f.audio_input;
  audio_output_id = f.audio_output;
}
