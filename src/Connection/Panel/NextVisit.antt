-- ===== src/Connection/Panel/NextVisit.antt =====
-- What the form's submission leaves for the next visit of the page.
use speech_to_speech_k8s.Base.{◌≡◌, refl, ◌∙◌, true, false, Bool, [], Num, Text}
use speech_to_speech_k8s.Settings.{
  Settings, Storage, default_voice, default_instructions, load_settings,
}
use speech_to_speech_k8s.Settings.Roundtrip.{
  ReadsNumbers, IsUsable, with_defaults, load_settings-save_settings,
}
use speech_to_speech_k8s.Connection.{Config, Form, read_settings_from_form}
use speech_to_speech_k8s.Connection.Modes.{or_text_nonempty}
use speech_to_speech_k8s.Connection.Panel.{submit}
use speech_to_speech_k8s.Connection.Panel.Saving.{read_settings_from_form_kept}

with_defaults_of_IsUsable : (v : Settings) → IsUsable v → with_defaults v ≡ v
with_defaults_of_IsUsable v h = cc (
  (or_text_nonempty v.voice default_voice h.voiced).0,
  (or_text_nonempty v.instructions default_instructions h.prompted).0,
)

-- However the form is edited: saved, it gives the settings that the page goes on with and that the
-- next visit loads, both the same; a form that is not saved changes neither. `Number(String(n))` is
-- n on the slider.
pub submit-load_settings :
    (number : Text → Num) (c : Config) (live can_route : Bool) (f : Form) (s : Settings)
    (st : Storage)
    → ReadsNumbers number
    → let saved = submit number c true live can_route f (s, st) in
      let not_saved = submit number c false live can_route f (s, st) in
      (load_settings number saved.1 ≡ saved.0)
      × (saved.0 ≡ read_settings_from_form number c s f)
      × (not_saved ≡ (s, st, []))
unfolding submit
submit-load_settings number c live can_route f s st reads =
    let v = read_settings_from_form number c s f in
    let usable = (read_settings_from_form_kept number c s f).0 in
    (
      (load_settings-save_settings number v st reads usable.on_axis).0
          ∙ with_defaults_of_IsUsable v usable,
      refl,
      refl,
    )
