-- ===== src/Page/Immediate.antt =====
-- The controls of Settings that save as soon as they are used: the slider, the arc, the transport.
use speech_to_speech_k8s.Base.{
  ◌≡◌, refl, ◌∙◌, ap, inl, inr, Bool, [], ◌∷◌, if◌then◌else◌, ℤ, Num, Text, Bool-cases,
}
use speech_to_speech_k8s.Settings.{
  Settings, load_settings, clamp_db, read_gate_threshold, transport_of,
}
use speech_to_speech_k8s.Settings.Roundtrip.{
  ReadsNumbers, clamp_db_of_IsOnAxis, gate_threshold-IsOnAxis,
}
use speech_to_speech_k8s.Connection.{transport_selectable}
use speech_to_speech_k8s.Connection.Url.{UrlApi}
use speech_to_speech_k8s.Connection.Panel.{change_transport}
use speech_to_speech_k8s.Gate.{
  Doubles, set_gate_threshold, render_gate_handle, sync_gate_ui, on_gate, gate_pointer_to_db,
}
use speech_to_speech_k8s.Page.{Page, PageEvent, on_page, on_pages}
use speech_to_speech_k8s.Page.PageEvent.{transport_picked, slider_moved, arc_pressed}
use speech_to_speech_k8s.Page.Memory.{on_pages-IsKept}
use speech_to_speech_k8s.Gate.Loaded.{IsKept}

-- The settings are these, on the page and for the next visit.
abbrev pub IsSaved : (Text → Num) → Page → Settings → Type 0
IsSaved number p v = (p.gate.settings ≡ v) × (load_settings number p.gate.storage ≡ v)

module _ (fl : Doubles) (number : Text → Num) where
  module _ (api : UrlApi) (can_pick can_route : Bool) where
    -- The three controls that save by themselves.
    pub slid_settings :
        (p : Page) (t : Text)
        → (on_page fl number api can_pick can_route p (slider_moved t)).gate.settings
          ≡ record p.gate.settings { noise_gate = read_gate_threshold number t }
    unfolding on_page on_gate set_gate_threshold sync_gate_ui render_gate_handle
    slid_settings p t =
        ap {A = ℤ} (λ n. record p.gate.settings { noise_gate = n })
          (clamp_db_of_IsOnAxis (read_gate_threshold number t)
            (gate_threshold-IsOnAxis number p.gate.storage t).1)

    pub pressed_settings :
        (p : Page) (angle : ℤ)
        → (on_page fl number api can_pick can_route p (arc_pressed angle)).gate.settings
          ≡ record p.gate.settings { noise_gate = clamp_db (gate_pointer_to_db fl angle) }
    unfolding on_page on_gate set_gate_threshold sync_gate_ui render_gate_handle
    pressed_settings p angle = refl

    pub picked_settings :
        (p : Page) (t : Text)
        → (on_page fl number api can_pick can_route p (transport_picked t)).gate.settings
          ≡ record p.gate.settings {
            transport =
                if transport_selectable p.config then transport_of t else p.gate.settings.transport;
          }
    unfolding on_page change_transport
    picked_settings p t = elim (Bool-cases (transport_selectable p.config)) [
      | inl e ↦ rw e refl
      | inr e ↦ rw e refl
    ]

    -- What a control saves is in memory and in storage.
    pub now-IsSaved :
        (p : Page) (e : PageEvent) (v : Settings)
        → ReadsNumbers number
        → IsKept fl number p.gate
        → (on_page fl number api can_pick can_route p e).gate.settings ≡ v
        → IsSaved number (on_page fl number api can_pick can_route p e) v
    unfolding on_pages
    now-IsSaved p e v reads kept same =
        let after = on_pages-IsKept fl number reads api can_pick can_route p (e ∷ []) kept in
        (same, after.loaded ∙ same)
