-- ===== src/Page/Memory.antt =====
-- Settings: what the page has in memory, what it shows of the gate, and what the next visit finds.
use speech_to_speech_k8s.Base.{
  ◌≡◌, sym, ap, subst, ◌∙◌, inl, inr, Bool, true, false, ◌&&◌, zero, suc, ℕ, List, [], ◌∷◌,
  if◌then◌else◌, Num, Text, Bool-cases,
}
use speech_to_speech_k8s.Js.Result.{Result}
use speech_to_speech_k8s.Settings.{
  Settings, Storage, Key, Transport, set_item, transport_of, transport_name, load_gate_threshold,
  load_settings, read_gate_threshold,
}
use speech_to_speech_k8s.Settings.Roundtrip.{ReadsNumbers, saved_transport}
use speech_to_speech_k8s.Connection.{transport_selectable, read_settings_from_form}
use speech_to_speech_k8s.Connection.Url.{UrlApi}
use speech_to_speech_k8s.Connection.Panel.{submit, change_transport}
use speech_to_speech_k8s.Connection.Panel.Saving.{gate_shown}
use speech_to_speech_k8s.Connection.Panel.NextVisit.{submit-load_settings}
use speech_to_speech_k8s.Devices.{Device}
use speech_to_speech_k8s.Gate.{
  Doubles, slid, pressed, moved, released, panel_shown, heard, sync_gate_ui, on_gate,
}
use speech_to_speech_k8s.Gate.Synced.{Shows}
use speech_to_speech_k8s.Session.Step.{can_start}
use speech_to_speech_k8s.View.{is_connecting}
use speech_to_speech_k8s.Page.{
  Page, PageEvent, form_of, end_listing, pick_transport, show_settings, ask_devices, is_missing,
  open_page, prompt_page, save_page, submit_page, restart_page, tap_page, on_page, on_pages,
}
use speech_to_speech_k8s.Page.PageEvent.{
  settings_clicked, settings_closed, restart_clicked, orb_tapped, submitted, transport_picked,
  slider_moved, arc_pressed, arc_moved, arc_released, level_heard, devices_changed, devices_found,
  state_set,
}
use speech_to_speech_k8s.Gate.Loaded.{IsKept, gate-IsKept}

module _ (fl : Doubles) (number : Text → Num) (reads : ReadsNumbers number) where
  load_settings-transport :
      (st : Storage) (t : Transport)
      → load_settings number (set_item Key.transport (transport_name t) st)
        ≡ record (load_settings number st) { transport = t }
  unfolding load_settings load_gate_threshold
  load_settings-transport st t =
      ap (λ u. record (load_settings number st) { transport = u }) (saved_transport t)

  module _ (api : UrlApi) (can_pick can_route : Bool) where
    abbrev Kept : Page → Type 0
    Kept p = IsKept fl number p.gate

    if-Kept : (b : Bool) (p q : Page) → Kept p → Kept q → Kept (if b then p else q)
    if-Kept true p q h k = h
    if-Kept false p q h k = k

    -- The threshold that the form gives is the one that the slider shows.
    form_gate :
        (p : Page)
        → Kept p
        → (read_settings_from_form number p.config p.gate.settings (form_of p)).noise_gate
          ≡ p.gate.settings.noise_gate
    unfolding read_settings_from_form
    form_gate p h =
        ap (read_gate_threshold number) h.synced.slider_shows
        ∙ gate_shown number p.gate.settings.noise_gate reads h.synced.on_axis

    save_page-Kept : (p : Page) → Kept p → Kept (save_page fl number api can_pick can_route p)
    unfolding save_page submit load_settings
    save_page-Kept p h =
        let e = form_gate p h in
        let loaded =
          (submit-load_settings number p.config false false (form_of p) p.gate.settings
            p.gate.storage reads).0 in
        record {
          loaded = loaded;
          synced =
              subst
                (λ n.
                  Shows fl number n (save_page fl number api can_pick can_route p).gate.storage
                    p.gate.ui.slider p.gate.ui.label p.gate.ui.handle p.gate.ui.shown_off)
                (sym e)
                (record {
                  on_axis = h.synced.on_axis;
                  slider_shows = h.synced.slider_shows;
                  label_shows = h.synced.label_shows;
                  handle_shows = h.synced.handle_shows;
                  off_shows = h.synced.off_shows;
                  saved = ap (λ u. u.noise_gate) loaded ∙ e;
                });
        }

    open_page-Kept : (p : Page) → Kept p → Kept (open_page fl number api can_pick can_route p)
    unfolding open_page on_gate
    open_page-Kept p h =
        let kept : IsKept fl number (sync_gate_ui fl p.gate) =
          gate-IsKept fl number reads p.gate panel_shown h in
        record { loaded = kept.loaded; synced = kept.synced }

    prompt_page-Kept : (p : Page) → Kept p → Kept (prompt_page fl number api can_pick can_route p)
    unfolding prompt_page
    prompt_page-Kept p h =
        let opened = open_page fl number api can_pick can_route p in
        let kept = if-Kept p.panel.is_open p opened h (open_page-Kept p h) in
        record { loaded = kept.loaded; synced = kept.synced }

    submit_page-Kept :
        (save : Bool) (p : Page)
        → Kept p
        → Kept (submit_page fl number api can_pick can_route save p)
    unfolding submit_page submit save_page
    submit_page-Kept true p h =
        let kept = save_page-Kept p h in record { loaded = kept.loaded; synced = kept.synced }
    submit_page-Kept false p h = h

    restart_page-Kept : (p : Page) → Kept p → Kept (restart_page fl number api can_pick can_route p)
    unfolding restart_page
    restart_page-Kept p h =
        let saved = save_page fl number api can_pick can_route p in
        let kept = save_page-Kept p h in
        if-Kept (is_connecting p.state) p _ h (
          if-Kept (is_missing fl number api can_pick can_route saved)
            (prompt_page fl number api can_pick can_route saved) (show_settings false saved)
            (prompt_page-Kept saved kept) (record { loaded = kept.loaded; synced = kept.synced }))

    tap_page-Kept : (p : Page) → Kept p → Kept (tap_page fl number api can_pick can_route p)
    unfolding tap_page
    tap_page-Kept p h =
        if-Kept (can_start p.state && is_missing fl number api can_pick can_route p)
          (prompt_page fl number api can_pick can_route p) p (prompt_page-Kept p h) h

    pick_transport-Kept : (t : Text) (p : Page) → Kept p → Kept (pick_transport t p)
    unfolding change_transport load_gate_threshold
    pick_transport-Kept t p h = elim (Bool-cases (transport_selectable p.config)) [
      | inl e ↦ rw e (record {
        loaded =
            load_settings-transport p.gate.storage (transport_of t)
            ∙ ap {A = Settings} (λ s. record s { transport = transport_of t }) h.loaded;
        synced = record {
          on_axis = h.synced.on_axis;
          slider_shows = h.synced.slider_shows;
          label_shows = h.synced.label_shows;
          handle_shows = h.synced.handle_shows;
          off_shows = h.synced.off_shows;
          saved = h.synced.saved;
        };
      })
      | inr e ↦ rw e h
    ]

    end_listing-Kept :
        (found : Result (List Device)) (n : ℕ) (p : Page) → Kept p → Kept (end_listing found n p)
    end_listing-Kept found zero p h = h
    end_listing-Kept found (suc n) p h = h

    on_page-Kept :
        (p : Page) (e : PageEvent) → Kept p → Kept (on_page fl number api can_pick can_route p e)
    unfolding on_page
    on_page-Kept p settings_clicked h = open_page-Kept p h
    on_page-Kept p settings_closed h = record { loaded = h.loaded; synced = h.synced }
    on_page-Kept p restart_clicked h = restart_page-Kept p h
    on_page-Kept p orb_tapped h = tap_page-Kept p h
    on_page-Kept p (submitted save) h = submit_page-Kept save p h
    on_page-Kept p (transport_picked t) h = pick_transport-Kept t p h
    on_page-Kept p (slider_moved t) h = gate-IsKept fl number reads p.gate (slid t) h
    on_page-Kept p (arc_pressed angle) h = gate-IsKept fl number reads p.gate (pressed angle) h
    on_page-Kept p (arc_moved angle) h = gate-IsKept fl number reads p.gate (moved angle) h
    on_page-Kept p arc_released h = gate-IsKept fl number reads p.gate released h
    on_page-Kept p (level_heard db) h = gate-IsKept fl number reads p.gate (heard db) h
    on_page-Kept p devices_changed h = if-Kept p.panel.is_open (ask_devices can_pick p) p h h
    on_page-Kept p (devices_found found) h = end_listing-Kept found p.listings p h
    on_page-Kept p (state_set st has_client) h = record { loaded = h.loaded; synced = h.synced }
    on_page-Kept p _ h = h

    -- Whatever happens on the page and in whatever order the lists of devices arrive, when it holds
    -- at first: the next visit loads the settings that the page has in memory, and the slider, the
    -- label and the bead show their threshold. `Number(String(n))` is n on the slider.
    pub on_pages-IsKept :
        (p : Page) (es : List PageEvent)
        → IsKept fl number p.gate
        → IsKept fl number (on_pages fl number api can_pick can_route p es).gate
    unfolding on_pages
    on_pages-IsKept p [] h = h
    on_pages-IsKept p (e ∷ es) h =
        on_pages-IsKept (on_page fl number api can_pick can_route p e) es (on_page-Kept p e h)
