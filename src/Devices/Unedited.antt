-- ===== src/Devices/Unedited.antt =====
-- Opening Settings, the lists of devices filled meanwhile, and saving the form as it is.
use speech_to_speech_k8s.Base.{◌≡◌, ◌≢◌, refl, ◌∙◌, List, [], ◌∷◌, Num, Text, or_text, trim}
use speech_to_speech_k8s.Js.Result.{Result}
use speech_to_speech_k8s.Settings.{Settings}
use speech_to_speech_k8s.Settings.Roundtrip.{ReadsNumbers, IsOnAxis}
use speech_to_speech_k8s.Connection.{Config, read_settings_from_form}
use speech_to_speech_k8s.Connection.Panel.{Panel, open_settings}
use speech_to_speech_k8s.Connection.Panel.Saving.{read_settings_from_form-open_settings}
use speech_to_speech_k8s.Devices.{Device, AudioPanel, list_devices, with_devices}
use speech_to_speech_k8s.Devices.Kept.{read_settings_from_form-list_devices}

or_text_kept : (t d : Text) → (t ≡ [] → d ≡ []) → or_text t d ≡ t
or_text_kept [] d h = h refl
or_text_kept (c ∷ t) d h = refl

-- Opening Settings and saving the form as it stands, after any listing of the devices, gives the
-- saved settings but for the voice, in every mode of the deployment. The saved texts are trimmed and
-- the prompt is not empty, the threshold is on the slider, where `Number(String(n))` is n, and a
-- select of devices shows none where none is saved.
pub read_settings_from_form_unedited :
    (number : Text → Num) (c : Config) (s : Settings) (p : Panel) (found : Result (List Device))
    (a : AudioPanel)
    → ReadsNumbers number
    → IsOnAxis s.noise_gate
    → trim s.direct_url ≡ s.direct_url
    → trim s.instructions ≡ s.instructions
    → s.instructions ≢ []
    → (s.audio_input_id ≡ [] → a.input.value ≡ [])
    → (s.audio_output_id ≡ [] → a.output.value ≡ [])
    → let r =
        read_settings_from_form number c s
          (with_devices (list_devices found s a) (open_settings c s p).form) in
      r ≡ record s { voice = r.voice }
unfolding read_settings_from_form
read_settings_from_form_unedited number c s p found a reads on url prompt some_prompt input output =
    let opened = (open_settings c s p).form in
    let (u, t, i, g) =
      read_settings_from_form-open_settings number c s p reads on url prompt some_prompt in
    let (d, e) = read_settings_from_form-list_devices number c s opened found a in
    cc (
      u,
      t,
      i,
      g,
      d ∙ or_text_kept s.audio_input_id a.input.value input,
      e ∙ or_text_kept s.audio_output_id a.output.value output,
    )
