-- ===== src/Page/Restarts.antt =====
-- The restart of demo/main.js, as the page sees it and as the conversation sees it.
use speech_to_speech_k8s.Base.{
  ℕ, ◌≡◌, refl, ap, ◌∙◌, inl, inr, Bool, true, false, Option, none, some, Text, Num, arith,
  Bool-cases, if◌then◌else◌,
}
use speech_to_speech_k8s.Js.Result.{
  Failure, Code, login_required, limit, aborted, queue_full, queue_expired, join_expired, other,
  Result, ok, throw,
}
use speech_to_speech_k8s.Settings.{Settings, Storage, load_settings}
use speech_to_speech_k8s.Settings.Roundtrip.{ReadsNumbers}
use speech_to_speech_k8s.Connection.{read_settings_from_form}
use speech_to_speech_k8s.Connection.Panel.{submit}
use speech_to_speech_k8s.Connection.Panel.NextVisit.{submit-load_settings}
use speech_to_speech_k8s.Connection.{Target, Form, effective_transport, missing_server_url}
use speech_to_speech_k8s.Connection.Url.{UrlApi}
use speech_to_speech_k8s.View.{AppState, is_connecting, connecting, error}
use speech_to_speech_k8s.Gate.{Doubles, sync_gate_ui, render_gate_handle}
use speech_to_speech_k8s.Page.{
  Page, form_of, is_missing, open_page, prompt_page, save_page, restart_page, show_settings,
}
use speech_to_speech_k8s.Session.{
  Session, Ending, nothing, show_login_required, show_limit, show_busy, show_expired, show_fatal,
}
use speech_to_speech_k8s.Session.Timers.{stop_heartbeat, stop_countdown}
use speech_to_speech_k8s.Session.Teardown.{
  set_state, end_tracked_session, end_queue_ticket, release_claims, release_devices, finish,
  await_close, teardown, on_fatal_error, handle_start_error,
}
use speech_to_speech_k8s.Session.Start.{resolve, prepare, do_start}
use speech_to_speech_k8s.Session.Step.{save_form, restart_with, on_restart}

-- What is saved.
abbrev pub saved : Session → Settings × Storage
saved s = (s.settings, s.storage)

abbrev pub kept : Page → Settings × Storage
kept p = (p.gate.settings, p.gate.storage)

saved-set_state : (st : AppState) (s : Session) → saved (set_state st s) ≡ saved s
unfolding set_state stop_countdown
saved-set_state st s = ground arith

saved-release_claims : (s : Session) → saved (release_claims s) ≡ saved s
unfolding release_claims end_queue_ticket end_tracked_session stop_countdown stop_heartbeat
saved-release_claims s = ground arith

saved-release_devices : (s : Session) → saved (release_devices s) ≡ saved s
unfolding release_devices set_state stop_countdown
saved-release_devices s = ground arith

either_way :
    (b m : Bool) (p with_form prompting closed : Page)
    → kept prompting ≡ kept with_form
    → kept closed ≡ kept with_form
    → kept (if b then p else if m then prompting else closed)
      ≡ (if b then kept p else kept with_form)
either_way true m p with_form prompting closed h k = refl
either_way false true p with_form prompting closed h k = h
either_way false false p with_form prompting closed h k = k

module _ (truncate : Text → Text) where
  saved-finish : (k : Ending) (s : Session) → saved (finish truncate k s) ≡ saved s
  unfolding finish
  saved-finish nothing s = refl
  saved-finish (show_login_required url) s = saved-set_state error s
  saved-finish (show_limit tier) s = refl
  saved-finish show_busy s = refl
  saved-finish (show_expired joining) s = saved-set_state error s
  saved-finish (show_fatal message) s = saved-set_state error s

  saved-await_close :
      (k : Ending) (c : Option ℕ) (s : Session) → saved (await_close truncate k c s) ≡ saved s
  saved-await_close k none s = saved-finish k (release_devices s) ∙ saved-release_devices s
  saved-await_close k (some c) s = refl

  saved-teardown : (k : Ending) (s : Session) → saved (teardown truncate k s) ≡ saved s
  unfolding teardown
  saved-teardown k s = saved-await_close k s.client (release_claims s) ∙ saved-release_claims s

  saved_by_code :
      (e : Failure) (code : Code) (s : Session)
      → e.code ≡ code
      → saved (handle_start_error truncate e s) ≡ saved s
  unfolding handle_start_error on_fatal_error
  saved_by_code e login_required s q = rw q (saved-teardown (show_login_required e.login_url) s)
  saved_by_code e limit s q = rw q (saved-teardown (show_limit e.tier) s)
  saved_by_code e aborted s q = rw q refl
  saved_by_code e queue_full s q = rw q (saved-teardown show_busy s)
  saved_by_code e queue_expired s q = rw q (saved-teardown (show_expired false) s)
  saved_by_code e join_expired s q = rw q (saved-teardown (show_expired true) s)
  saved_by_code e other s q = rw q (saved-teardown (show_fatal e.message) s)

  module _ (api : UrlApi) where
    saved-resolved :
        (r : Result (Option Target)) (audio : Bool) (s : Session)
        → resolve api s (effective_transport s.config s.settings) ≡ r
        → saved (do_start api truncate audio s) ≡ saved s
    unfolding do_start
    saved-resolved (ok target) audio s e =
        rw (e, do_start)
          (saved-set_state connecting (prepare (effective_transport s.config s.settings) s))
    saved-resolved (throw f) audio s e = rw (e, do_start) (saved_by_code f f.code s refl)

    module _ (number : Text → Num) where
      saved-restart_with :
          (c : Option ℕ) (audio : Bool) (s : Session)
          → saved (restart_with api number truncate c audio s) ≡ saved s
      saved-restart_with none audio s = saved-resolved _ audio s refl
      saved-restart_with (some c) audio s = saved-release_claims s

      -- The form that a restart saves, unless a connect is under way.
      saved-on_restart :
          (audio : Bool) (f : Form) (s : Session)
          → saved (on_restart api number truncate audio f s)
            ≡ (if is_connecting s.state then saved s else saved (save_form api number truncate f s))
      unfolding on_restart
      saved-on_restart audio f s =
          let s' = save_form api number truncate f s in
          elim (Bool-cases (is_connecting s.state)) [
            | inl e ↦ rw e refl
            | inr e ↦ elim (Bool-cases (missing_server_url api s'.config s'.settings)) [
              | inl m ↦ rw (e, m) refl
              | inr m ↦ rw (e, m) (saved-restart_with s'.client audio s')
            ]
          ]

      module _ (fl : Doubles) (can_pick can_route : Bool) where
        prompted : (p : Page) → kept (prompt_page fl number api can_pick can_route p) ≡ kept p
        unfolding prompt_page open_page sync_gate_ui render_gate_handle
        prompted p = elim (Bool-cases p.panel.is_open) [ inl e ↦ rw e refl | inr e ↦ rw e refl ]

        same_form :
            (p : Page) (s : Session)
            → s.config ≡ p.config
            → saved s ≡ kept p
            → saved (save_form api number truncate (form_of p) s)
              ≡ kept (save_page fl number api can_pick can_route p)
        unfolding save_page
        same_form p s config same =
            let settings = ap (λ x. x.0) same in
            let storage = ap (λ x. x.1) same in rw (config, settings, storage) refl

        saved_form :
            (p : Page)
            → ReadsNumbers number
            → let q = save_page fl number api can_pick can_route p in
              let v = read_settings_from_form number p.config p.gate.settings (form_of p) in
              (q.gate.settings ≡ v) × (load_settings number q.gate.storage ≡ v)
        unfolding save_page submit
        saved_form p reads =
            let (loads, _, _) =
              submit-load_settings number p.config false false (form_of p) p.gate.settings
                p.gate.storage reads in
            (refl, loads)

        -- A restart saves the form as it stands, whether or not the server's address is missing: unless
        -- a connect is under way, both the conversation and the page go on with the settings that the
        -- form gives, and the next visit loads those. The two have the same settings, storage,
        -- configuration and state before. `Number(String(n))` is n on the slider.
        pub restart_page-on_restart :
            (audio : Bool) (p : Page) (s : Session)
            → ReadsNumbers number
            → s.config ≡ p.config
            → s.state ≡ p.state
            → saved s ≡ kept p
            → is_connecting p.state ≡ false
            → let q = restart_page fl number api can_pick can_route p in
              let t = on_restart api number truncate audio (form_of p) s in
              let v = read_settings_from_form number p.config p.gate.settings (form_of p) in
              (t.settings ≡ v)
              × (q.gate.settings ≡ v)
              × (load_settings number t.storage ≡ v)
              × (load_settings number q.gate.storage ≡ v)
        unfolding restart_page
        restart_page-on_restart audio p s reads config state same free =
            let with_form = save_page fl number api can_pick can_route p in
            let page_kept =
              either_way (is_connecting p.state)
                (is_missing fl number api can_pick can_route with_form) p with_form
                (prompt_page fl number api can_pick can_route with_form)
                (show_settings false with_form) (prompted with_form) refl in
            let on_page : kept (restart_page fl number api can_pick can_route p) ≡ kept with_form =
              page_kept ∙ rw free refl in
            let in_call =
              saved-on_restart audio (form_of p) s ∙ rw (state, free) (same_form p s config same) in
            let (settings, loads) = saved_form p reads in
            (
              ap (λ x. x.0) in_call ∙ settings,
              ap (λ x. x.0) on_page ∙ settings,
              ap (λ x. load_settings number x.1) in_call ∙ loads,
              ap (λ x. load_settings number x.1) on_page ∙ loads,
            )
