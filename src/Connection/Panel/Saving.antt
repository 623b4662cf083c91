-- ===== src/Connection/Panel/Saving.antt =====
-- Opening the panel and saving it unedited keeps what the user has saved.
use speech_to_speech_k8s.Base.{
  ◌≡◌, refl, ◌≢◌, none, Bool, true, false, not, ◌&&◌, [], arith, if◌then◌else◌, ℤ, Num, round-of_ℤ,
  Text, text, text_eq, trim, is_nonempty,
}
use speech_to_speech_k8s.Settings.{
  Settings, Transport, ws, webrtc, transport_of, transport_name, read_gate_threshold, default_voice,
  default_instructions,
}
use speech_to_speech_k8s.Js.Number.{show_int}
use speech_to_speech_k8s.Settings.Roundtrip.{
  IsOnAxis, ReadsNumbers, clamp_db_of_IsOnAxis, gate_threshold-IsOnAxis, IsUsable, or_text-ne-nil,
  default_voice-ne-nil, default_instructions-ne-nil,
}
use speech_to_speech_k8s.Connection.Modes.{or_text_nonempty}
use speech_to_speech_k8s.Connection.{
  Config, Form, both_webrtc, transport_selectable, read_settings_from_form,
}
use speech_to_speech_k8s.Connection.Panel.{Panel, open_settings}

transport_shown :
    (b : Bool) (t : Transport)
    → (if b then transport_of (transport_name (both_webrtc b t)) else t) ≡ t
unfolding text text_eq
transport_shown true ws = refl
transport_shown true webrtc = refl
transport_shown false t = refl

-- Where the user's own URL may be edited, the field shows it.
url_shown :
    (c : Config) (s : Settings) (p : Panel)
    → trim s.direct_url ≡ s.direct_url
    → (if c.allow_direct && not (is_nonempty c.pinned_url)
        then trim (open_settings c s p).form.url
        else s.direct_url)
      ≡ s.direct_url
unfolding open_settings
url_shown c s p h = ground arith

form_transport :
    (c : Config) (s : Settings) (p : Panel)
    → (open_settings c s p).form.transport
      ≡ transport_name (both_webrtc (transport_selectable c) s.transport)
unfolding open_settings
form_transport c s p = ground arith

transport_kept :
    (c : Config) (s : Settings) (p : Panel)
    → (if transport_selectable c
        then transport_of (open_settings c s p).form.transport
        else s.transport)
      ≡ s.transport
transport_kept c s p =
    rw (form_transport c s p) (transport_shown (transport_selectable c) s.transport)

pub gate_shown :
    (number : Text → Num) (n : ℤ)
    → ReadsNumbers number
    → IsOnAxis n
    → read_gate_threshold number (show_int n) ≡ n
unfolding read_gate_threshold
gate_shown number n reads h = rw (reads n h, round-of_ℤ n) (clamp_db_of_IsOnAxis n h)

-- Opening Settings and saving the form with nothing edited keeps the URL, the transport, the prompt
-- and the gate as they are saved, in every mode of the deployment and whatever the panel showed
-- before. The saved texts are trimmed and the prompt is not empty, the threshold is on the slider,
-- and `Number(String(n))` is n there.
pub read_settings_from_form-open_settings :
    (number : Text → Num) (c : Config) (s : Settings) (p : Panel)
    → ReadsNumbers number
    → IsOnAxis s.noise_gate
    → trim s.direct_url ≡ s.direct_url
    → trim s.instructions ≡ s.instructions
    → s.instructions ≢ []
    → let r = read_settings_from_form number c s (open_settings c s p).form in
      (r.direct_url ≡ s.direct_url)
      × (r.transport ≡ s.transport)
      × (r.instructions ≡ s.instructions)
      × (r.noise_gate ≡ s.noise_gate)
unfolding read_settings_from_form open_settings
read_settings_from_form-open_settings number c s p reads on url prompt some_prompt = (
  url_shown c s p url,
  transport_kept c s p,
  rw prompt (or_text_nonempty s.instructions default_instructions some_prompt).0,
  gate_shown number s.noise_gate reads on,
)

-- However the form is edited, what it gives has a voice, a prompt and a threshold on the slider.
-- A URL that the user may not edit, and a transport that cannot be chosen, stay as saved.
pub read_settings_from_form_kept :
    (number : Text → Num) (c : Config) (s : Settings) (f : Form)
    → let r = read_settings_from_form number c s f in
      IsUsable r
      × (c.allow_direct && not (is_nonempty c.pinned_url) ≡ false → r.direct_url ≡ s.direct_url)
      × (transport_selectable c ≡ false → r.transport ≡ s.transport)
unfolding read_settings_from_form
read_settings_from_form_kept number c s f = (
  record {
    voiced = or_text-ne-nil f.voice default_voice default_voice-ne-nil;
    prompted =
        or_text-ne-nil (trim f.instructions) default_instructions default_instructions-ne-nil;
    on_axis = (gate_threshold-IsOnAxis number (λ k. none) f.noise_gate).1;
  },
  λ h. rw h refl,
  λ h. ground arith,
)
