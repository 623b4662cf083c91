-- ===== src/Devices.antt =====
-- demo/main.js, the audio devices: `micConstraints`, `refreshAudioDeviceLists`, `fillDeviceSelect`
-- and `primeMicPermission`. The browser enumerates the devices and asks for the microphone.
pub mod Kept
pub mod Unedited
use speech_to_speech_k8s.Base.{
  ℕ, suc, Bool, true, false, not, ◌&&◌, Option, none, some, List, [], ◌∷◌, ◌++◌, any, if◌then◌else◌,
  Text, text, text_eq, is_nonempty, or_text,
}
use speech_to_speech_k8s.Js.Number.{show_nat}
use speech_to_speech_k8s.Js.Result.{Result, ok, throw, Failure, error}
use speech_to_speech_k8s.Settings.{Settings}
use speech_to_speech_k8s.Connection.{Form}

-- `MediaDeviceInfo`
pub data DeviceKind : Type 0 where
  audio_input audio_output video_input : DeviceKind

pub record Device : Type 0 where
  pub kind : DeviceKind
  pub device_id : Text
  pub label : Text

abbrev pub is_input : Device → Bool
is_input d = elim d.kind [ audio_input ↦ true | _ ↦ false ]

abbrev pub is_output : Device → Bool
is_output d = elim d.kind [ audio_output ↦ true | _ ↦ false ]

abbrev pub keep_if : (Device → Bool) → List Device → List Device
keep_if p [] = []
keep_if p (d ∷ ds) = let rest = keep_if p ds in if p d then d ∷ rest else rest

-- An option of a select, and a select with the value of the option that is chosen.
pub record Choice : Type 0 where
  pub value : Text
  pub shown : Text

pub record Select : Type 0 where
  pub options : List Choice
  pub value : Text

abbrev pub offers : Text → List Choice → Bool
offers v = any (λ o. text_eq o.value v)

-- `select.value = v`: with no such option none is chosen, and the value reads as empty.
abbrev pub choose : Text → List Choice → Text
choose v os = if offers v os then v else []

abbrev pub system_default : Choice
system_default = record { value = []; shown = text "System default" }

-- `i` is the position in the list, from 0.
unfoldable pub device_options : Text → ℕ → List Device → List Choice
device_options fallback i [] = []
device_options fallback i (d ∷ ds) =
    record {
      value = d.device_id;
      shown = or_text d.label (fallback ++ text " " ++ show_nat (suc i));
    }
    ∷ device_options fallback (suc i) ds

abbrev pub missing : Text → Text → Choice
missing fallback id = record { value = id; shown = fallback ++ text " (saved, not found)" }

abbrev pub with_missing : Text → Text → List Choice → List Choice
with_missing fallback prev listed =
    if is_nonempty prev && not (offers prev listed)
    then listed ++ missing fallback prev ∷ []
    else listed

-- The last assignment runs where the one before has not found the value.
abbrev pub settle : Text → List Choice → Select
settle prev os = record {
  options = os;
  value = if text_eq (choose prev os) prev then choose prev os else choose [] os;
}

unfoldable pub fill_device_select : List Device → Text → Text → Select → Select
unfolding text device_options
fill_device_select ds selected fallback s =
    let prev = or_text selected s.value in
    settle prev (with_missing fallback prev (system_default ∷ device_options fallback 0 ds))

-- The part of the settings panel that shows the devices. The hint of the input may be missing.
pub record AudioPanel : Type 0 where
  pub input : Select
  pub output : Select
  pub output_disabled : Bool
  pub output_hint : Text
  pub input_hint : Option Text

abbrev set_hint : Text → Option Text → Option Text
set_hint t none = none
set_hint t (some old) = some t

-- Up to the wait for `enumerateDevices`; `can_pick` is `supportsAudioOutputSelection()`.
unfoldable pub announce_output : Bool → AudioPanel → AudioPanel
announce_output can_pick p = record p {
  output_disabled = not can_pick;
  output_hint =
      if can_pick
      then text "Where assistant audio plays. Can change live while connected."
      else text "Speaker selection needs a browser with AudioContext.setSinkId (Chrome/Edge).";
}

abbrev or_no_devices : Result (List Device) → List Device
or_no_devices (ok ds) = ds
or_no_devices (throw e) = []

-- Behind the wait.
unfoldable pub list_devices : Result (List Device) → Settings → AudioPanel → AudioPanel
unfolding fill_device_select
list_devices found s p =
    let ds = or_no_devices found in
    record p {
      input = fill_device_select (keep_if is_input ds) s.audio_input_id (text "Microphone") p.input;
      output =
          fill_device_select (keep_if is_output ds) s.audio_output_id (text "Speaker") p.output;
      input_hint =
          set_hint
            (if any (λ d. is_nonempty d.label) ds
              then text "Applies on the next conversation (or Restart)."
              else text
                  "Allow microphone access (tap Start once) to see device names. Mic changes apply on Restart.")
            p.input_hint;
    }

-- The listener of `devicechange`, the wait run through.
unfoldable pub on_device_change :
    Bool → Bool → Result (List Device) → Settings → AudioPanel → AudioPanel
unfolding announce_output list_devices
on_device_change is_open can_pick found s p =
    if is_open then list_devices found s (announce_output can_pick p) else p

-- `inputAudioInput.value` and `inputAudioOutput.value`, as the form reads them.
abbrev pub with_devices : AudioPanel → Form → Form
with_devices p f = record f { audio_input = p.input.value; audio_output = p.output.value }

-- The constraints for `getUserMedia`; the device is an ideal one, so another may be used.
pub record Constraints : Type 0 where
  pub echo_cancellation : Bool
  pub noise_suppression : Bool
  pub auto_gain_control : Bool
  pub ideal_device : Option Text

abbrev ideal : Text → Option Text
ideal [] = none
ideal (c ∷ id) = some (c ∷ id)

unfoldable pub mic_constraints : Settings → Constraints
mic_constraints s = record {
  echo_cancellation = true;
  noise_suppression = true;
  auto_gain_control = true;
  ideal_device = ideal s.audio_input_id;
}

-- `getUserMedia` gives the tracks, of which only the stopping matters here, or rejects with an error.
unfoldable pub prime_mic_permission :
    {A : Type 0} → (Constraints → Result A) → Settings → Option Failure
unfolding mic_constraints text
prime_mic_permission ask s = elim (ask (mic_constraints s)) [
  | ok tracks ↦ none
  | throw e ↦ some (error (text "Microphone access denied: " ++ e.message))
]
