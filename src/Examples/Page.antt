-- ===== src/Examples/Page.antt =====
-- The page with what is stored: Settings opened, edited, saved or not.
use speech_to_speech_k8s.Base.{
  text_eq, any, ◌≡◌, refl, true, false, none, [], ◌∷◌, List, pos, negsuc, of_ℤ, text, if◌then◌else◌,
  is_nonempty,
}
use speech_to_speech_k8s.Js.Result.{throw, error}
use speech_to_speech_k8s.Settings.{
  Settings, load_settings, clamp_db, read_gate_threshold, transport_of,
}
use speech_to_speech_k8s.Settings.Roundtrip.{gate_threshold-IsOnAxis}
use speech_to_speech_k8s.Connection.{
  Config, initial, failed, transport_selectable, read_settings_from_form,
}
use speech_to_speech_k8s.Devices.{Select}
use speech_to_speech_k8s.Gate.{sync_gate_ui, render_gate_handle, gate_pointer_to_db}
use speech_to_speech_k8s.View.{AppState}
use speech_to_speech_k8s.Session.{Session}
use speech_to_speech_k8s.Session.Boot.{loaded as at_load}
use speech_to_speech_k8s.Session.Step.{on_restart}
use speech_to_speech_k8s.Page.Restarts.{restart_page-on_restart}
use speech_to_speech_k8s.Page.{Page, PageEvent, form_of, open_page, restart_page, on_page, on_pages}
use speech_to_speech_k8s.Page.PageEvent.{
  settings_clicked, settings_closed, restart_clicked, orb_tapped, submitted, url_typed,
  prompt_typed, transport_picked, slider_moved, arc_pressed, arc_moved, arc_released, devices_found,
  config_fetched, state_set,
}
use speech_to_speech_k8s.Page.Memory.{on_pages-IsKept}
use speech_to_speech_k8s.Gate.Loaded.{IsKept}
use speech_to_speech_k8s.Page.Early.{save_before_listing}
use speech_to_speech_k8s.Page.Immediate.{IsSaved}
use speech_to_speech_k8s.Page.Unsaved.{Agrees, on_pages-Agrees}
use speech_to_speech_k8s.Examples.Settings.{browser_number, browser_number-ReadsNumbers, stored}
use speech_to_speech_k8s.Examples.Connection.{one_host, closed_panel}
use speech_to_speech_k8s.Examples.Session.{blank, switched_on, whole}
use speech_to_speech_k8s.Examples.Gate.{down}

abbrev no_devices : Select
no_devices = record { options = []; value = [] }

abbrev loaded : Settings
loaded = load_settings browser_number stored

-- A deployment where the transport can be chosen.
abbrev pinned : Config
pinned = record initial { pinned_url = text "wss://voice.example"; rtc_available = true }

abbrev page : Page
page = record {
  config = pinned;
  gate = sync_gate_ui down (record {
    settings = loaded;
    storage = stored;
    ui = record {
      slider = [];
      label = [];
      handle = pos 0;
      shown_off = false;
      level = pos 0;
      meter = pos 0;
      shown_open = false;
      dragging = false;
    };
    panel_open = false;
    live = false;
    sent = [];
  });
  panel = closed_panel;
  audio = record {
    input = no_devices;
    output = no_devices;
    output_disabled = true;
    output_hint = [];
    input_hint = none;
  };
  state = AppState.idle;
  view = blank;
  about_open = false;
  tools_open = false;
  listings = 0;
  updates = [];
}

page-IsKept : IsKept down browser_number page.gate
unfolding sync_gate_ui render_gate_handle load_settings
page-IsKept = record {
  loaded = refl;
  synced = record {
    on_axis = (gate_threshold-IsOnAxis browser_number stored []).0;
    slider_shows = refl;
    label_shows = refl;
    handle_shows = refl;
    off_shows = refl;
    saved = refl;
  };
}

abbrev edits : List PageEvent
edits =
    settings_clicked
    ∷ url_typed (text "localhost:9")
    ∷ prompt_typed (text " Be kind. ")
    ∷ slider_moved (text "-30")
    ∷ transport_picked (text "ws")
    ∷ devices_found (throw (error (text "no")))
    ∷ config_fetched failed
    ∷ settings_closed
    ∷ arc_pressed (of_ℤ (pos 100))
    ∷ arc_moved (of_ℤ (negsuc 39))
    ∷ arc_released
    ∷ []

on_pages-IsKept_example :
    IsKept down browser_number
      (on_pages down browser_number one_host true true page (
        settings_clicked
        ∷ prompt_typed (text " Be kind. ")
        ∷ submitted true
        ∷ state_set AppState.listening true
        ∷ slider_moved (text "-30")
        ∷ restart_clicked
        ∷ orb_tapped
        ∷ edits)).gate
on_pages-IsKept_example =
    on_pages-IsKept down browser_number browser_number-ReadsNumbers one_host true true page
      (settings_clicked
        ∷ prompt_typed (text " Be kind. ")
        ∷ submitted true
        ∷ state_set AppState.listening true
        ∷ slider_moved (text "-30")
        ∷ restart_clicked
        ∷ orb_tapped
        ∷ edits)
      page-IsKept

on_pages-Agrees_example :
    let q = on_pages down browser_number one_host true true page edits in
    let r = q.gate.settings in
    let shown = form_of (open_page down browser_number one_host true true q) in
    Agrees loaded r
    × (load_settings browser_number q.gate.storage ≡ r)
    × (shown.voice ≡ (if any (text_eq loaded.voice) q.panel.voices then loaded.voice else []))
    × (shown.instructions ≡ loaded.instructions)
    × (shown.url ≡ (
        if is_nonempty q.config.pinned_url
        then q.config.pinned_url
        else if q.config.allow_direct
        then loaded.direct_url
        else q.panel.form.url))
    × IsSaved browser_number
        (on_page down browser_number one_host true true q (slider_moved (text "-40")))
        (record r { noise_gate = read_gate_threshold browser_number (text "-40") })
    × IsSaved browser_number
        (on_page down browser_number one_host true true q (arc_pressed (of_ℤ (pos 180))))
        (record r { noise_gate = clamp_db (gate_pointer_to_db down (of_ℤ (pos 180))) })
    × IsSaved browser_number
        (on_page down browser_number one_host true true q (transport_picked (text "webrtc")))
        (record r {
          transport =
              if transport_selectable q.config then transport_of (text "webrtc") else r.transport;
        })
unfolding sync_gate_ui render_gate_handle
on_pages-Agrees_example =
    on_pages-Agrees down browser_number one_host true true page edits (text "-40") (text "webrtc")
      (of_ℤ (pos 180)) browser_number-ReadsNumbers page-IsKept refl

-- A microphone and a speaker are saved; the browser's list fails.
abbrev equipped : Page
equipped = record page {
  gate = record page.gate {
    settings = record loaded { audio_input_id = text "mic-1"; audio_output_id = text "speaker-2" };
  };
}

save_before_listing_example :
    let early =
      on_pages down browser_number one_host true true equipped
        (settings_clicked ∷ submitted true ∷ []) in
    let late =
      on_pages down browser_number one_host true true equipped
        (settings_clicked ∷ devices_found (throw (error (text "no"))) ∷ submitted true ∷ []) in
    (early.gate.settings.audio_input_id ≡ [])
    × (early.gate.settings.audio_output_id ≡ [])
    × ((load_settings browser_number early.gate.storage).audio_input_id ≡ [])
    × ((load_settings browser_number early.gate.storage).audio_output_id ≡ [])
    × (late.gate.settings.audio_input_id ≡ text "mic-1")
    × (late.gate.settings.audio_output_id ≡ text "speaker-2")
save_before_listing_example =
    save_before_listing down browser_number one_host true true equipped (throw (error (text "no")))
      refl refl

-- The conversation of that page, before any call.
abbrev session : Session
session = at_load pinned loaded stored switched_on blank

restart_page-on_restart_example :
    let q = restart_page down browser_number one_host true true page in
    let t = on_restart one_host browser_number whole true (form_of page) session in
    let v = read_settings_from_form browser_number pinned loaded (form_of page) in
    (t.settings ≡ v)
    × (q.gate.settings ≡ v)
    × (load_settings browser_number t.storage ≡ v)
    × (load_settings browser_number q.gate.storage ≡ v)
unfolding sync_gate_ui render_gate_handle
restart_page-on_restart_example =
    restart_page-on_restart whole one_host browser_number down true true true page session
      browser_number-ReadsNumbers refl refl refl refl
