-- ===== src/Page/Early.antt =====
-- Settings saved before the browser has listed the audio devices.
use speech_to_speech_k8s.Base.{◌≡◌, refl, ◌∙◌, Bool, true, [], ◌∷◌, List, Num, Text, or_text}
use speech_to_speech_k8s.Js.Result.{Result}
use speech_to_speech_k8s.Settings.{load_settings}
use speech_to_speech_k8s.Connection.{read_settings_from_form}
use speech_to_speech_k8s.Connection.Url.{UrlApi}
use speech_to_speech_k8s.Connection.Panel.{submit}
use speech_to_speech_k8s.Devices.{Device, announce_output}
use speech_to_speech_k8s.Devices.Kept.{read_settings_from_form-list_devices}
use speech_to_speech_k8s.Gate.{Doubles, sync_gate_ui, render_gate_handle}
use speech_to_speech_k8s.Page.{Page, open_page, submit_page, on_page, on_pages}
use speech_to_speech_k8s.Page.PageEvent.{settings_clicked, submitted, devices_found}

or_nil : (t d : Text) → d ≡ [] → or_text t d ≡ t
or_nil [] d e = e
or_nil (c ∷ t) d e = refl

module _ (fl : Doubles) (number : Text → Num) (api : UrlApi) (can_pick can_route : Bool) where
  -- Settings opened while the selects of devices show none, as in a page that has not listed any:
  -- saved at once, before the browser has listed the devices, the form takes the saved microphone and
  -- speaker back, in memory and for the next visit; saved when they are listed, in whatever way that
  -- ends, it keeps both.
  pub save_before_listing :
      (p : Page) (found : Result (List Device))
      → p.audio.input.value ≡ []
      → p.audio.output.value ≡ []
      → let early =
          on_pages fl number api can_pick can_route p (settings_clicked ∷ submitted true ∷ []) in
        let late =
          on_pages fl number api can_pick can_route p
            (settings_clicked ∷ devices_found found ∷ submitted true ∷ []) in
        (early.gate.settings.audio_input_id ≡ [])
        × (early.gate.settings.audio_output_id ≡ [])
        × ((load_settings number early.gate.storage).audio_input_id ≡ [])
        × ((load_settings number early.gate.storage).audio_output_id ≡ [])
        × (late.gate.settings.audio_input_id ≡ p.gate.settings.audio_input_id)
        × (late.gate.settings.audio_output_id ≡ p.gate.settings.audio_output_id)
  unfolding load_settings on_pages on_page open_page submit_page submit read_settings_from_form
      announce_output sync_gate_ui render_gate_handle
  save_before_listing p found no_input no_output =
      let opened = open_page fl number api can_pick can_route p in
      let kept =
        read_settings_from_form-list_devices number p.config p.gate.settings
          (record opened.panel.form { noise_gate = opened.gate.ui.slider }) found opened.audio in
      (
        no_input,
        no_output,
        rw no_input refl,
        rw no_output refl,
        kept.0 ∙ or_nil p.gate.settings.audio_input_id p.audio.input.value no_input,
        kept.1 ∙ or_nil p.gate.settings.audio_output_id p.audio.output.value no_output,
      )
