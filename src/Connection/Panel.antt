-- ===== src/Connection/Panel.antt =====
-- demo/main.js, the settings panel: `syncTransportUi`, `syncConnectionUi`, `openSettings`,
-- `promptServerUrl`, the listener of the transport's select and the form's submission.
pub mod Saving
pub mod NextVisit
use speech_to_speech_k8s.Base.{
  Bool, true, false, not, ◌&&◌, ◌||◌, List, [], ◌∷◌, if◌then◌else◌, Num, Text, text, text_eq, any,
  is_nonempty,
}
use speech_to_speech_k8s.Js.Number.{show_int}
use speech_to_speech_k8s.Settings.{
  Settings, Storage, Key, Transport, ws, webrtc, transport_of, transport_name, set_item,
  save_settings,
}
use speech_to_speech_k8s.Connection.{
  Config, Form, both_webrtc, transport_selectable, effective_transport, read_settings_from_form,
}

-- The controls, with the values that the form submits.
pub record Panel : Type 0 where
  pub form : Form
  -- The values of the options of the select of voices.
  pub voices : List Text
  pub transport_hidden : Bool
  pub transport_disabled : Bool
  pub transport_hint : Text
  pub gate_hidden : Bool
  pub url_hidden : Bool
  pub url_read_only : Bool
  pub url_placeholder : Text
  pub url_hint : Text
  pub url_error : Bool
  pub is_open : Bool

abbrev is_webrtc : Transport → Bool
is_webrtc webrtc = true
is_webrtc ws = false

abbrev pub with_transport : Text → Form → Form
with_transport t f = record f { transport = t }

abbrev pub with_url : Text → Form → Form
with_url t f = record f { url = t }

unfoldable pub sync_transport_ui : Config → Settings → Panel → Panel
unfolding transport_selectable effective_transport
sync_transport_ui c s p = record p {
  form = with_transport (transport_name (both_webrtc (transport_selectable c) s.transport)) p.form;
  transport_hidden = not c.allow_direct;
  transport_disabled = not (transport_selectable c);
  transport_hint =
      if transport_selectable c
      then text "How audio travels to the server. Applies on the next conversation."
      else text "WebRTC needs a server URL pinned by the deployment (SPEECH_TO_SPEECH_URL).";
  gate_hidden = is_webrtc (effective_transport c s);
}

abbrev show_pinned : Config → Panel → Panel
show_pinned c p = record p {
  form = with_url c.pinned_url p.form;
  url_hidden = false;
  url_read_only = true;
  url_error = false;
  url_hint = text "Speech-to-speech server URL pinned by this deployment.";
}

abbrev show_typed : Settings → Panel → Panel
show_typed s p = record p {
  form = with_url s.direct_url p.form;
  url_hidden = false;
  url_read_only = false;
  url_placeholder = text "http://localhost:port";
  url_error = false;
  url_hint =
      text
        "URL of your speech-to-speech server, e.g. http://localhost:8080 (the app adds /v1/realtime).";
}

abbrev show_url : Config → Settings → Panel → Panel
show_url c s p =
    if is_nonempty c.pinned_url
    then show_pinned c p
    else if c.allow_direct
    then show_typed s p
    else record p { url_hidden = true }

unfoldable pub sync_connection_ui : Config → Settings → Panel → Panel
unfolding sync_transport_ui
sync_connection_ui c s p = show_url c s (sync_transport_ui c s p)

-- The value of a select that is set to v: with no such option none is chosen, and it reads as empty.
abbrev pub option_of : List Text → Text → Text
option_of vs v = if any (text_eq v) vs then v else []

abbrev filled : List Text → Settings → Form → Form
filled vs s f = record f {
  voice = option_of vs s.voice;
  instructions = s.instructions;
  noise_gate = show_int s.noise_gate;
}

abbrev opened : Settings → Panel → Panel
opened s p = record p { form = filled p.voices s p.form; is_open = true }

-- The lists of audio devices are filled later, when the browser has enumerated them.
unfoldable pub open_settings : Config → Settings → Panel → Panel
unfolding sync_connection_ui
open_settings c s p = opened s (sync_connection_ui c s p)

unfoldable pub prompt_server_url : Config → Settings → Panel → Panel
unfolding sync_connection_ui open_settings
prompt_server_url c s p =
    record (if p.is_open then sync_connection_ui c s p else open_settings c s p) {
      url_hint = text "Set the speech-to-speech server URL to start.";
      url_error = true;
    }

-- The listener of the transport's select: the choice is kept only where there is one.
unfoldable pub change_transport : Config → Settings × Storage × Panel → Settings × Storage × Panel
unfolding sync_transport_ui
change_transport c (s, st, p) =
    let s' = record s { transport = transport_of p.form.transport } in
    if not (transport_selectable c)
    then (s, st, p)
    else (s', set_item Key.transport (transport_name s'.transport) st, sync_transport_ui c s' p)

-- What the listener of `submit` sends to a live client.
pub data ClientUpdate : Type 0 where
  update_session : Text → Text → ClientUpdate
  set_audio_output : Text → ClientUpdate

-- The listener of `submit`: only the button whose value is "save" saves. `live` is
-- `client && LIVE_STATES.has(currentState)`, `can_route` that the client can switch its output.
unfoldable pub submit :
    (Text → Num)
    → Config
    → Bool
    → Bool
    → Bool
    → Form
    → Settings × Storage
    → Settings × Storage × List ClientUpdate
submit number c save live can_route f (s, st) =
    let s' = read_settings_from_form number c s f in
    if not save then (s, st, []) else (
      s',
      save_settings s' st,
      (if live
          then update_session s'.voice s'.instructions
            ∷ (if can_route then set_audio_output s'.audio_output_id ∷ [] else [])
          else []),
    )
