-- ===== src/Settings.antt =====
-- demo/main.js, the saved settings: `STORAGE_KEYS`, `loadSettings`, `saveSettings`, the noise
-- gate's threshold and the tool switches. `localStorage` is a function from the keys.
pub mod Roundtrip
use speech_to_speech_k8s.Base.{
  ◌==◌, ℕ, Bool, Option, none, some, [], ◌∷◌, if◌then◌else◌, ℤ, negsuc, min_ℤ, max_ℤ, ltb_ℤ, Num,
  finite, round, Text, text, text_eq, or_text,
}
use speech_to_speech_k8s.Js.Number.{show_int}

pub data Transport : Type 0 where
  ws webrtc : Transport

pub record Settings : Type 0 where
  pub direct_url : Text
  pub voice : Text
  pub instructions : Text
  pub noise_gate : ℤ
  pub transport : Transport
  pub audio_input_id : Text
  pub audio_output_id : Text

-- The keys of `STORAGE_KEYS`.
pub data Key : Type 0 where
  direct_url voice instructions tools search_key noise_gate transport audio_input_id : Key
  audio_output_id : Key

abbrev index : Key → ℕ
index direct_url = 0
index voice = 1
index instructions = 2
index tools = 3
index search_key = 4
index noise_gate = 5
index transport = 6
index audio_input_id = 7
index audio_output_id = 8

-- The spelling of the keys.
pub key_name : Key → Text
key_name direct_url = text "s2s.ws.directUrl"
key_name voice = text "s2s.ws.voice"
key_name instructions = text "s2s.ws.instructions"
key_name tools = text "s2s.ws.tools"
key_name search_key = text "s2s.ws.searchKey"
key_name noise_gate = text "s2s.ws.noiseGate"
key_name transport = text "s2s.transport"
key_name audio_input_id = text "s2s.audio.inputId"
key_name audio_output_id = text "s2s.audio.outputId"

abbrev pub Storage : Type 0
Storage = Key → Option Text

abbrev pub set_item : Key → Text → Storage → Storage
set_item k v s j = if index k == index j then some v else s j

abbrev pub remove_item : Key → Storage → Storage
remove_item k s j = if index k == index j then none else s j

-- `getItem(k) || d`: a missing item and an empty one are both falsy.
abbrev pub item_or : Option Text → Text → Text
item_or none d = d
item_or (some v) d = or_text v d

abbrev pub default_voice : Text
default_voice = text "Aiden"

abbrev pub default_instructions : Text
default_instructions = text "You are a friendly voice assistant."

-- GATE_OFF_DB, GATE_MAX_DB and GATE_DEFAULT_DB: -66, -3 and -50.
abbrev pub gate_off_db : ℤ
gate_off_db = negsuc 65

abbrev pub gate_max_db : ℤ
gate_max_db = negsuc 2

abbrev pub gate_default_db : ℤ
gate_default_db = negsuc 49

-- `Math.min(GATE_MAX_DB, Math.max(GATE_OFF_DB, db))`
unfoldable pub clamp_db : ℤ → ℤ
clamp_db db = min_ℤ gate_max_db (max_ℤ gate_off_db db)

-- What the audio client is told of the gate.
pub record GateParams : Type 0 where
  pub enabled : Bool
  pub threshold_db : ℤ

unfoldable pub gate_params : ℤ → GateParams
gate_params db = record { enabled = ltb_ℤ gate_off_db db; threshold_db = db }

-- `Number.isFinite(raw)` and the two returns behind it
abbrev gate_of : Num → ℤ
gate_of (finite m) = clamp_db (round m)
gate_of _ = gate_default_db

-- The same for the slider, which falls back to off.
abbrev gate_or_off : Num → ℤ
gate_or_off (finite m) = clamp_db (round m)
gate_or_off _ = gate_off_db

-- `Number` of a text is the browser's.
module _ (number : Text → Num) where
  unfoldable pub load_gate_threshold : Storage → ℤ
  load_gate_threshold s = elim (s noise_gate) [
    | none ↦ gate_default_db
    | some [] ↦ gate_default_db
    | some (c ∷ t) ↦ gate_of (number (c ∷ t))
  ]

  -- The slider's value is text too.
  unfoldable pub read_gate_threshold : Text → ℤ
  read_gate_threshold value = gate_or_off (number value)

abbrev pub transport_of : Text → Transport
transport_of t = if text_eq t (text "webrtc") then webrtc else ws

abbrev pub transport_name : Transport → Text
transport_name ws = text "ws"
transport_name webrtc = text "webrtc"

unfoldable pub load_settings : (Text → Num) → Storage → Settings
load_settings number s = record {
  direct_url = item_or (s direct_url) [];
  voice = item_or (s voice) default_voice;
  instructions = item_or (s instructions) default_instructions;
  noise_gate = load_gate_threshold number s;
  transport = transport_of (item_or (s transport) []);
  audio_input_id = item_or (s audio_input_id) [];
  audio_output_id = item_or (s audio_output_id) [];
}

unfoldable pub save_settings : Settings → Storage → Storage
save_settings v s = set_item audio_output_id v.audio_output_id (
    set_item audio_input_id v.audio_input_id (
      set_item transport (transport_name v.transport) (
        set_item noise_gate (show_int v.noise_gate) (
          set_item instructions v.instructions
            (set_item voice v.voice (set_item direct_url v.direct_url s))))))
