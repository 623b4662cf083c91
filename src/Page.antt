-- ===== src/Page.antt =====
-- demo/main.js, the page round the conversation: Settings with its controls together, the listeners
-- of `settingsBtn`, `settingsForm`, `restartBtn` and `circleBtn` as far as they show or save, and the
-- three dialogs.
pub mod Memory
pub mod Immediate
pub mod Unsaved
pub mod Early
pub mod Restarts
use speech_to_speech_k8s.Base.{
  ℕ, zero, suc, Bool, true, false, ◌&&◌, List, [], ◌∷◌, ◌++◌, if◌then◌else◌, ℤ, Num, Text,
}
use speech_to_speech_k8s.Js.Result.{Result}
use speech_to_speech_k8s.Settings.{Settings, Storage, save_settings}
use speech_to_speech_k8s.Connection.{
  Config, Form, Fetched, fetch_config, read_settings_from_form, missing_server_url,
}
use speech_to_speech_k8s.Connection.Url.{UrlApi}
use speech_to_speech_k8s.Connection.Panel.{
  Panel, ClientUpdate, option_of, with_transport, with_url, sync_connection_ui, open_settings,
  prompt_server_url, change_transport, submit,
}
use speech_to_speech_k8s.Devices.{
  Device, AudioPanel, choose, announce_output, list_devices, with_devices,
}
use speech_to_speech_k8s.Gate.{Doubles, Gate, GateEvent, sync_gate_ui, on_gate}
use speech_to_speech_k8s.View.{AppState, View, is_connecting, is_live, show_restart, show_state}
use speech_to_speech_k8s.Session.Step.{can_start}

-- The settings and the storage are those of the gate; `panel.is_open` and `gate.panel_open` are both
-- `settingsModal.open`. `listings` counts the waits for `enumerateDevices`; `updates` is what a live
-- client was told when the form was submitted, the latest first.
pub record Page : Type 0 where
  pub config : Config
  pub gate : Gate
  pub panel : Panel
  pub audio : AudioPanel
  pub state : AppState
  pub view : View
  pub about_open : Bool
  pub tools_open : Bool
  pub listings : ℕ
  pub updates : List ClientUpdate

pub data PageEvent : Type 0 where
  settings_clicked settings_closed restart_clicked orb_tapped : PageEvent
  -- The form is submitted, by the button whose value is "save" or by another.
  submitted : Bool → PageEvent
  -- The fields of the form are edited. A select takes one of its options.
  url_typed voice_picked prompt_typed transport_picked : Text → PageEvent
  microphone_picked speaker_picked : Text → PageEvent
  -- The slider, the pointer on the arc and the level of the microphone.
  slider_moved : Text → PageEvent
  arc_pressed arc_moved : ℤ → PageEvent
  arc_released : PageEvent
  level_heard : ℤ → PageEvent
  -- `devicechange`, and the end of a wait for the devices.
  devices_changed : PageEvent
  devices_found : Result (List Device) → PageEvent
  config_fetched : Fetched → PageEvent
  -- `setState`, with whether there is a client.
  state_set : AppState → Bool → PageEvent
  about_clicked about_closed tools_clicked tools_closed : PageEvent

-- `showModal` and `close` of the settings.
abbrev pub show_settings : Bool → Page → Page
show_settings b p = record p {
  panel = record p.panel { is_open = b };
  gate = record p.gate { panel_open = b };
}

-- The values that the form submits: the slider and the two selects of devices are controls of it.
abbrev pub form_of : Page → Form
form_of p = with_devices p.audio (record p.panel.form { noise_gate = p.gate.ui.slider })

abbrev pub edit : (Form → Form) → Page → Page
edit change p = record p { panel = record p.panel { form = change p.panel.form } }

-- `refreshAudioDeviceLists` up to its wait.
abbrev pub ask_devices : Bool → Page → Page
ask_devices can_pick p = record p {
  audio = announce_output can_pick p.audio;
  listings = suc p.listings;
}

-- Behind the wait.
abbrev pub end_listing : Result (List Device) → ℕ → Page → Page
end_listing found zero p = p
end_listing found (suc n) p = record p {
  audio = list_devices found p.gate.settings p.audio;
  listings = n;
}

abbrev pub pick_transport : Text → Page → Page
pick_transport t p =
    let q = edit (with_transport t) p in
    let (s, st, panel) = change_transport q.config (q.gate.settings, q.gate.storage, q.panel) in
    record q { gate = record q.gate { settings = s; storage = st }; panel = panel }

abbrev pub set_config : Config → Page → Page
set_config c p = record p { config = c; panel = sync_connection_ui c p.gate.settings p.panel }

-- The browser: its arithmetic, `Number`, `URL`, `supportsAudioOutputSelection()`, and whether the
-- client has a method `setAudioOutputDevice`.
module _ (fl : Doubles) (number : Text → Num) (api : UrlApi) (can_pick can_route : Bool) where
  unfoldable pub open_page : Page → Page
  unfolding open_settings sync_gate_ui show_restart announce_output
  open_page p = ask_devices can_pick (record p {
    panel = open_settings p.config p.gate.settings p.panel;
    gate = record (sync_gate_ui fl p.gate) { panel_open = true };
    view = show_restart p.state p.view;
  })

  -- `promptServerUrl`
  unfoldable pub prompt_page : Page → Page
  unfolding prompt_server_url open_page
  prompt_page p =
      let shown = if p.panel.is_open then p else open_page p in
      record shown { panel = prompt_server_url p.config p.gate.settings p.panel }

  abbrev pub is_missing : Page → Bool
  is_missing p = missing_server_url api p.config p.gate.settings

  -- `settings = readSettingsFromForm(); saveSettings(settings)`
  unfoldable pub save_page : Page → Page
  unfolding read_settings_from_form save_settings
  save_page p =
      let v = read_settings_from_form number p.config p.gate.settings (form_of p) in
      record p { gate = record p.gate { settings = v; storage = save_settings v p.gate.storage } }

  unfoldable pub submit_page : Bool → Page → Page
  unfolding submit
  submit_page save p =
      let (s, st, told) =
        submit number p.config save p.gate.live can_route (form_of p)
          (p.gate.settings, p.gate.storage) in
      record p { gate = record p.gate { settings = s; storage = st }; updates = told ++ p.updates }

  -- The listener of `restartBtn` up to the start.
  unfoldable pub restart_page : Page → Page
  unfolding save_page prompt_page missing_server_url
  restart_page p =
      let saved = save_page p in
      if is_connecting p.state
      then p
      else if is_missing saved
      then prompt_page saved
      else show_settings false saved

  -- The listener of `circleBtn` up to the start.
  unfoldable pub tap_page : Page → Page
  unfolding prompt_page missing_server_url
  tap_page p = if can_start p.state && is_missing p then prompt_page p else p

  abbrev pub gate_page : GateEvent → Page → Page
  gate_page e p = record p { gate = on_gate fl number p.gate e }

  unfoldable pub on_page : Page → PageEvent → Page
  unfolding open_page submit_page restart_page tap_page on_gate change_transport list_devices
      announce_output sync_connection_ui fetch_config show_state
  on_page p settings_clicked = open_page p
  on_page p settings_closed = show_settings false p
  on_page p restart_clicked = restart_page p
  on_page p orb_tapped = tap_page p
  on_page p (submitted save) = submit_page save p
  on_page p (url_typed t) = edit (with_url t) p
  on_page p (voice_picked t) = edit (λ f. record f { voice = option_of p.panel.voices t }) p
  on_page p (prompt_typed t) = edit (λ f. record f { instructions = t }) p
  on_page p (transport_picked t) = pick_transport t p
  on_page p (microphone_picked t) =
      let s = p.audio.input in
      record p { audio = record p.audio { input = record s { value = choose t s.options } } }
  on_page p (speaker_picked t) =
      let s = p.audio.output in
      record p { audio = record p.audio { output = record s { value = choose t s.options } } }
  on_page p (slider_moved t) = gate_page (GateEvent.slid t) p
  on_page p (arc_pressed angle) = gate_page (GateEvent.pressed angle) p
  on_page p (arc_moved angle) = gate_page (GateEvent.moved angle) p
  on_page p arc_released = gate_page GateEvent.released p
  on_page p (level_heard rms) = gate_page (GateEvent.heard rms) p
  on_page p devices_changed = if p.panel.is_open then ask_devices can_pick p else p
  on_page p (devices_found found) = end_listing found p.listings p
  on_page p (config_fetched f) = set_config (fetch_config f p.config) p
  on_page p (state_set st has_client) = record p {
    state = st;
    view = show_state st p.view;
    gate = record p.gate { live = has_client && is_live st };
  }
  on_page p about_clicked = record p { about_open = true }
  on_page p about_closed = record p { about_open = false }
  on_page p tools_clicked = record p { tools_open = true }
  on_page p tools_closed = record p { tools_open = false }

  unfoldable pub on_pages : Page → List PageEvent → Page
  unfolding on_page
  on_pages p [] = p
  on_pages p (e ∷ es) = on_pages (on_page p e) es
