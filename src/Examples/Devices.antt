-- ===== src/Examples/Devices.antt =====
-- The lists of audio devices, one of them unplugged.
use speech_to_speech_k8s.Base.{
  false, ◌≢◌, trim, trim_start, trim_end, is_space, arith, List, ◌≡◌, refl, none, some, [], ◌∷◌,
  Text, text,
}
use speech_to_speech_k8s.Js.Result.{Result, ok, throw, error}
use speech_to_speech_k8s.Connection.{Form, initial, read_settings_from_form}
use speech_to_speech_k8s.Devices.{
  Device, DeviceKind, Select, AudioPanel, list_devices, with_devices, prime_mic_permission,
}
use speech_to_speech_k8s.Devices.Kept.{read_settings_from_form-list_devices}
use speech_to_speech_k8s.Examples.Settings.{browser_number, browser_number-ReadsNumbers, saved}
use speech_to_speech_k8s.Examples.Connection.{closed_panel}
use speech_to_speech_k8s.Connection.Panel.{open_settings}
use speech_to_speech_k8s.Devices.Unedited.{read_settings_from_form_unedited}

abbrev empty : Select
empty = record { options = []; value = [] }

abbrev panel : AudioPanel
panel = record {
  input = record empty { value = text "mic-9" };
  output = empty;
  output_disabled = false;
  output_hint = [];
  input_hint = none;
}

abbrev plugged : Result (List Device)
plugged = ok (record { kind = DeviceKind.audio_input; device_id = text "mic-1"; label = [] } ∷ [])

abbrev form : Form
form = record {
  url = [];
  voice = [];
  instructions = [];
  noise_gate = text "-50";
  transport = text "ws";
  audio_input = [];
  audio_output = [];
}

-- The saved speaker is not there, and stays; no microphone is saved, so the one chosen stays.
read_settings_from_form-list_devices_example :
    let r =
      read_settings_from_form browser_number initial saved
        (with_devices (list_devices plugged saved panel) form) in
    (r.audio_input_id ≡ text "mic-9") × (r.audio_output_id ≡ text "speaker-2")
unfolding text
read_settings_from_form-list_devices_example =
    read_settings_from_form-list_devices browser_number initial saved form plugged panel

-- A refused microphone is an error with no code.
refused :
    prime_mic_permission {A = Text} (λ k. throw (error (text "no"))) saved
    ≡ some (error (text "Microphone access denied: no"))
unfolding prime_mic_permission
refused = refl

saved_trimmed :
    (trim saved.direct_url ≡ saved.direct_url)
    × (trim saved.instructions ≡ saved.instructions)
    × (saved.instructions ≢ [])
unfolding trim trim_start trim_end is_space text
saved_trimmed = (refl, refl, λ e. cc)

-- The saved speaker is not listed.
abbrev untouched : AudioPanel
untouched = record panel { input = empty }

read_settings_from_form_unedited_example :
    let r = read_settings_from_form browser_number initial saved (
      with_devices
        (list_devices plugged saved untouched)
        (open_settings initial saved closed_panel).form) in
    r ≡ record saved { voice = r.voice }
read_settings_from_form_unedited_example =
    read_settings_from_form_unedited browser_number initial saved closed_panel plugged untouched
      browser_number-ReadsNumbers (omega arith) saved_trimmed.0 saved_trimmed.1 saved_trimmed.2
      (λ e. refl) (λ e. refl)
