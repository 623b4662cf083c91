-- ===== src/Page/Unsaved.antt =====
-- Settings that is closed without saving: what of the edits stays.
use speech_to_speech_k8s.Base.{
  ◌≡◌, refl, ◌∙◌, ap, inl, inr, Bool, true, false, ◌&&◌, zero, suc, ℕ, List, [], ◌∷◌, if◌then◌else◌,
  ℤ, text_eq, Num, Text, Bool-cases, is_nonempty, arith, any,
}
use speech_to_speech_k8s.Js.Result.{Result}
use speech_to_speech_k8s.Settings.{
  Settings, load_settings, clamp_db, read_gate_threshold, transport_of,
}
use speech_to_speech_k8s.Settings.Roundtrip.{ReadsNumbers}
use speech_to_speech_k8s.Connection.{transport_selectable}
use speech_to_speech_k8s.Connection.Url.{UrlApi}
use speech_to_speech_k8s.Connection.Panel.{submit, change_transport, open_settings}
use speech_to_speech_k8s.Devices.{Device}
use speech_to_speech_k8s.Gate.{
  Doubles, Gate, GateEvent, slid, pressed, moved, released, heard, set_gate_threshold,
  render_gate_handle, paint_input_level, sync_gate_ui, on_gate, gate_pointer_to_db,
}
use speech_to_speech_k8s.Session.Step.{can_start}
use speech_to_speech_k8s.Page.{
  Page, PageEvent, form_of, end_listing, pick_transport, ask_devices, is_missing, open_page,
  prompt_page, submit_page, tap_page, on_page, on_pages,
}
use speech_to_speech_k8s.Page.PageEvent.{
  restart_clicked, orb_tapped, submitted, transport_picked, slider_moved, arc_pressed, arc_moved,
  arc_released, level_heard, devices_changed, devices_found,
}
use speech_to_speech_k8s.Page.Memory.{on_pages-IsKept}
use speech_to_speech_k8s.Gate.Loaded.{IsKept}
use speech_to_speech_k8s.Page.Immediate.{
  IsSaved, slid_settings, pressed_settings, picked_settings, now-IsSaved,
}

-- The events that save the form.
abbrev pub saves : PageEvent → Bool
saves (submitted save) = save
saves restart_clicked = true
saves _ = false

abbrev pub AreUnsaved : List PageEvent → Type 0
AreUnsaved es = any saves es ≡ false

AreUnsaved-parts :
    (e : PageEvent) (es : List PageEvent) → AreUnsaved (e ∷ es) → (saves e ≡ false) × AreUnsaved es
AreUnsaved-parts e es h = ground arith

-- But for the threshold and the transport the settings are the same.
abbrev pub Agrees : Settings → Settings → Type 0
Agrees s r = r ≡ record s { noise_gate = r.noise_gate; transport = r.transport }

Agrees-trans : (s r t : Settings) → Agrees s r → Agrees r t → Agrees s t
Agrees-trans s r t h k = cc

if-Agrees :
    (s : Settings) (b : Bool) (p q : Page)
    → Agrees s p.gate.settings
    → Agrees s q.gate.settings
    → Agrees s (if b then p else q).gate.settings
if-Agrees s true p q h k = h
if-Agrees s false p q h k = k

module _ (fl : Doubles) (number : Text → Num) where
  on_gate-Agrees : (g : Gate) (e : GateEvent) → Agrees g.settings (on_gate fl number g e).settings
  unfolding on_gate set_gate_threshold sync_gate_ui render_gate_handle paint_input_level
  on_gate-Agrees g (moved angle) = elim (Bool-cases g.ui.dragging) [
    | inl e ↦ rw e refl
    | inr e ↦ rw e refl
  ]
  on_gate-Agrees g released = elim (Bool-cases g.ui.dragging) [
    | inl e ↦ rw e refl
    | inr e ↦ rw e refl
  ]
  on_gate-Agrees g _ = refl

  module _ (api : UrlApi) (can_pick can_route : Bool) where
    prompt_page-Agrees :
        (p : Page)
        → Agrees p.gate.settings (prompt_page fl number api can_pick can_route p).gate.settings
    unfolding prompt_page open_page sync_gate_ui render_gate_handle
    prompt_page-Agrees p =
        if-Agrees p.gate.settings p.panel.is_open p (open_page fl number api can_pick can_route p)
          refl refl

    tap_page-Agrees :
        (p : Page)
        → Agrees p.gate.settings (tap_page fl number api can_pick can_route p).gate.settings
    unfolding tap_page
    tap_page-Agrees p =
        if-Agrees p.gate.settings
          (can_start p.state && is_missing fl number api can_pick can_route p)
          (prompt_page fl number api can_pick can_route p) p (prompt_page-Agrees p) refl

    pick_transport-Agrees :
        (t : Text) (p : Page) → Agrees p.gate.settings (pick_transport t p).gate.settings
    unfolding change_transport
    pick_transport-Agrees t p = elim (Bool-cases (transport_selectable p.config)) [
      | inl e ↦ rw e refl
      | inr e ↦ rw e refl
    ]

    end_listing-Agrees :
        (found : Result (List Device)) (n : ℕ) (p : Page)
        → Agrees p.gate.settings (end_listing found n p).gate.settings
    end_listing-Agrees found zero p = refl
    end_listing-Agrees found (suc n) p = refl

    on_page-Agrees :
        (p : Page) (e : PageEvent)
        → saves e ≡ false
        → Agrees p.gate.settings (on_page fl number api can_pick can_route p e).gate.settings
    unfolding on_page submit_page submit open_page sync_gate_ui render_gate_handle
    on_page-Agrees p restart_clicked q = absurd cc
    on_page-Agrees p orb_tapped q = tap_page-Agrees p
    on_page-Agrees p (submitted true) q = absurd cc
    on_page-Agrees p (submitted false) q = refl
    on_page-Agrees p (transport_picked t) q = pick_transport-Agrees t p
    on_page-Agrees p (slider_moved t) q = on_gate-Agrees p.gate (slid t)
    on_page-Agrees p (arc_pressed angle) q = on_gate-Agrees p.gate (pressed angle)
    on_page-Agrees p (arc_moved angle) q = on_gate-Agrees p.gate (moved angle)
    on_page-Agrees p arc_released q = on_gate-Agrees p.gate released
    on_page-Agrees p (level_heard db) q = on_gate-Agrees p.gate (heard db)
    on_page-Agrees p devices_changed q =
        if-Agrees p.gate.settings p.panel.is_open (ask_devices can_pick p) p refl refl
    on_page-Agrees p (devices_found found) q = end_listing-Agrees found p.listings p
    on_page-Agrees p _ q = refl

    settings-Agrees :
        (p : Page) (es : List PageEvent)
        → AreUnsaved es
        → Agrees p.gate.settings (on_pages fl number api can_pick can_route p es).gate.settings
    unfolding on_pages
    settings-Agrees p [] h = refl
    settings-Agrees p (e ∷ es) h =
        let q = on_page fl number api can_pick can_route p e in
        let (first, rest) = AreUnsaved-parts e es h in
        Agrees-trans p.gate.settings q.gate.settings
          (on_pages fl number api can_pick can_route q es).gate.settings (on_page-Agrees p e first)
          (settings-Agrees q es rest)

    shown_url :
        (p : Page)
        → (form_of (open_page fl number api can_pick can_route p)).url ≡ (
            if is_nonempty p.config.pinned_url
            then p.config.pinned_url
            else if p.config.allow_direct
            then p.gate.settings.direct_url
            else p.panel.form.url)
    unfolding open_page open_settings
    shown_url p = ground arith

    shown_texts :
        (p : Page)
        → let shown = form_of (open_page fl number api can_pick can_route p) in
          (shown.voice ≡ (
            if any (text_eq p.gate.settings.voice) p.panel.voices
            then p.gate.settings.voice
            else []))
          × (shown.instructions ≡ p.gate.settings.instructions)
    unfolding open_page open_settings
    shown_texts p = ground arith

    -- Whatever happens while no form is saved, neither by its button nor by a restart: the page has
    -- the settings that it had, but for the threshold and the transport, and the next visit loads what
    -- the page has. Settings, opened again, shows the voice that was saved, if the select has it, and
    -- none otherwise, the prompt and, where the user may edit it, the URL. From then on, a slider that
    -- is moved, an arc that is pressed and, where there is a choice, a transport that is picked are at
    -- once the page's setting and the one that the next visit loads, and no other setting changes. At
    -- first the page agrees with storage and shows its threshold; `Number(String(n))` is n on the
    -- slider.
    pub on_pages-Agrees :
        (p : Page) (es : List PageEvent) (t u : Text) (angle : ℤ)
        → ReadsNumbers number
        → IsKept fl number p.gate
        → AreUnsaved es
        → let s = p.gate.settings in
          let q = on_pages fl number api can_pick can_route p es in
          let r = q.gate.settings in
          let shown = form_of (open_page fl number api can_pick can_route q) in
          let slid_now = on_page fl number api can_pick can_route q (slider_moved t) in
          let pressed_now = on_page fl number api can_pick can_route q (arc_pressed angle) in
          let picked_now = on_page fl number api can_pick can_route q (transport_picked u) in
          Agrees s r
          × (load_settings number q.gate.storage ≡ r)
          × (shown.voice ≡ (if any (text_eq s.voice) q.panel.voices then s.voice else []))
          × (shown.instructions ≡ s.instructions)
          × (shown.url ≡ (
              if is_nonempty q.config.pinned_url
              then q.config.pinned_url
              else if q.config.allow_direct
              then s.direct_url
              else q.panel.form.url))
          × IsSaved number slid_now (record r { noise_gate = read_gate_threshold number t })
          × IsSaved number pressed_now
              (record r { noise_gate = clamp_db (gate_pointer_to_db fl angle) })
          × IsSaved number picked_now (record r {
            transport = if transport_selectable q.config then transport_of u else r.transport;
          })
    on_pages-Agrees p es t u angle reads kept unsaved =
        let q = on_pages fl number api can_pick can_route p es in
        let agree = settings-Agrees p es unsaved in
        let still = on_pages-IsKept fl number reads api can_pick can_route p es kept in
        let (voice, prompt) = shown_texts q in
        (
          agree,
          still.loaded,
          voice
              ∙ ap (λ (s : Settings). if any (text_eq s.voice) q.panel.voices then s.voice else [])
                  agree,
          prompt ∙ ap (λ s. s.instructions) agree,
          shown_url q
              ∙ ap
                  (λ (s : Settings).
                    if is_nonempty q.config.pinned_url
                    then q.config.pinned_url
                    else if q.config.allow_direct
                    then s.direct_url
                    else q.panel.form.url)
                  agree,
          now-IsSaved fl number api can_pick can_route q (slider_moved t) _ reads still
              (slid_settings fl number api can_pick can_route q t),
          now-IsSaved fl number api can_pick can_route q (arc_pressed angle) _ reads still
              (pressed_settings fl number api can_pick can_route q angle),
          now-IsSaved fl number api can_pick can_route q (transport_picked u) _ reads still
              (picked_settings fl number api can_pick can_route q u),
        )
