-- ===== src/Devices/Kept.antt =====
-- demo/main.js, the audio devices: which device a select shows, and what saving the form keeps.
use speech_to_speech_k8s.Base.{
  ◌≡◌, refl, inl, inr, true, List, [], ◌∷◌, ◌++◌, arith, Bool-cases, Num, Text, text_eq,
  text_eq_iff, or_text, text,
}
use speech_to_speech_k8s.Js.Result.{Result}
use speech_to_speech_k8s.Settings.{Settings}
use speech_to_speech_k8s.Connection.{Config, Form, read_settings_from_form}
use speech_to_speech_k8s.Devices.{
  Device, Choice, Select, offers, system_default, settle, with_missing, device_options,
  fill_device_select, AudioPanel, list_devices, with_devices,
}

text_eq_refl : (t : Text) → text_eq t t ≡ true
text_eq_refl t = (text_eq_iff t t).1 refl

offers-append :
    (v : Text) (os : List Choice) (shown : Text)
    → offers v (os ++ record { value = v; shown = shown } ∷ []) ≡ true
offers-append v [] shown = rw (text_eq_refl v) refl
offers-append v (o ∷ os) shown = rw (offers-append v os shown) (ground arith)

offers-with_missing :
    (fallback prev : Text) (os : List Choice)
    → offers prev (with_missing fallback prev (system_default ∷ os)) ≡ true
unfolding text_eq
offers-with_missing fallback [] os = refl
offers-with_missing fallback (c ∷ t) os = elim (Bool-cases (offers (c ∷ t) (system_default ∷ os))) [
  | inl e ↦ rw e e
  | inr e ↦ rw e (offers-append (c ∷ t) (system_default ∷ os) _)
]

settle-value :
    (prev : Text) (os : List Choice) → offers prev os ≡ true → (settle prev os).value ≡ prev
settle-value prev os e = rw (e, text_eq_refl prev) refl

-- Whatever devices the browser lists, the select shows the saved one, or else what it showed before.
pub fill_device_select-value :
    (ds : List Device) (selected fallback : Text) (s : Select)
    → (fill_device_select ds selected fallback s).value ≡ or_text selected s.value
unfolding fill_device_select
fill_device_select-value ds selected fallback s =
    settle-value (or_text selected s.value) _
      (offers-with_missing fallback (or_text selected s.value) (device_options fallback 0 ds))

-- After any listing of the devices, one that failed or listed nothing included, saving the form
-- gives the input and the output that were saved, however the rest of the form is filled in: a
-- device that is unplugged stays saved, and what was chosen and not saved is dropped. Where none was
-- saved, it gives what the select showed before the listing.
pub read_settings_from_form-list_devices :
    (number : Text → Num) (c : Config) (s : Settings) (f : Form) (found : Result (List Device))
    (p : AudioPanel)
    → let r = read_settings_from_form number c s (with_devices (list_devices found s p) f) in
      (r.audio_input_id ≡ or_text s.audio_input_id p.input.value)
      × (r.audio_output_id ≡ or_text s.audio_output_id p.output.value)
unfolding read_settings_from_form list_devices
read_settings_from_form-list_devices number c s f found p = (
  fill_device_select-value _ s.audio_input_id (text "Microphone") p.input,
  fill_device_select-value _ s.audio_output_id (text "Speaker") p.output,
)
