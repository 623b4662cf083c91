-- ===== src/Tools/Panel.antt =====
-- demo/main.js, the tools panel and the webcam: the listeners of the switches, of the search key and
-- of the camera's permission, `enableCamera`, `disableCamera`, `autoStartCamera`.
pub mod Turn
pub mod Kept
pub mod Overlaps
use speech_to_speech_k8s.Base.{
  ℕ, zero, suc, ◌+◌, ◌==◌, Bool, true, false, not, ◌&&◌, Option, none, some, List, [], ◌∷◌, ◌++◌,
  if◌then◌else◌, Text, text, is_nonempty, trim,
}
use speech_to_speech_k8s.Js.Json.{Json, bool, obj, field, end, truthy}
use speech_to_speech_k8s.Connection.{Config}
use speech_to_speech_k8s.Tools.{Tool, Switches, search_available, active_tool_defs}

-- The controls of the panel.
pub record Controls : Type 0 where
  pub web_checked : Bool
  pub web_disabled : Bool
  pub cam_checked : Bool
  pub key_disabled : Bool
  pub key_text : Text
  pub key_placeholder : Text
  pub web_hint : Text
  pub cam_hint : Text

-- Who waits for the camera: `autoStartCamera` or the listener of the switch.
pub data Asker : Type 0 where
  auto_start cam_switch : Asker

-- The two awaits of `enableCamera`: for the stream, and for the video to play.
pub data Wait : Type 0 where
  opening playing : Asker → Wait

-- `running` holds the streams whose tracks have not been stopped, by the order of their opening;
-- `pushed` is what `client.setTools` has been called with, the last call first; `live` is
-- `client && LIVE_STATES.has(currentState)`. The items of
-- storage are the flags, as the JSON value whose text is stored, and the key.
pub record Tooling : Type 0 where
  pub switches : Switches
  pub controls : Controls
  pub stored_tools : Option Json
  pub stored_key : Option Text
  pub stream : Option ℕ
  pub running : List ℕ
  pub opened : ℕ
  pub preview_shown : Bool
  pub waits : List Wait
  pub live : Bool
  pub pushed : List (List Tool)

pub data PanelEvent : Type 0 where
  page_loaded tools_clicked permission_granted permission_denied : PanelEvent
  web_changed cam_changed : Bool → PanelEvent
  -- The page enters or leaves a live state.
  live_changed : Bool → PanelEvent
  key_typed : Text → PanelEvent
  -- The n-th wait ends: with a stream, with an error (whether the user or the browser denied it, and
  -- its message), or with the video's play, however that ends.
  stream_given video_played : ℕ → PanelEvent
  stream_refused : ℕ → Bool → Text → PanelEvent

abbrev pub wait_at : ℕ → List Wait → Option Wait
wait_at n [] = none
wait_at zero (w ∷ ws) = some w
wait_at (suc n) (w ∷ ws) = wait_at n ws

abbrev pub drop_wait : ℕ → List Wait → List Wait
drop_wait n [] = []
drop_wait zero (w ∷ ws) = ws
drop_wait (suc n) (w ∷ ws) = w ∷ drop_wait n ws

abbrev pub remove : ℕ → List ℕ → List ℕ
remove i [] = []
remove i (j ∷ js) = let rest = remove i js in if i == j then rest else j ∷ rest

unfoldable pub save_tools : Tooling → Tooling
save_tools s = record s {
  stored_tools = some (
      obj (
        field (text "web_search") s.switches.web_search
          (field (text "camera_snapshot") s.switches.camera_snapshot end)));
}

abbrev pub set_web : Bool → Tooling → Tooling
set_web b s = record s { switches = record s.switches { web_search = bool b } }

abbrev pub set_cam : Bool → Tooling → Tooling
set_cam b s = record s { switches = record s.switches { camera_snapshot = bool b } }

abbrev pub check_web : Bool → Tooling → Tooling
check_web b s = record s { controls = record s.controls { web_checked = b } }

abbrev pub hint_cam : Text → Tooling → Tooling
hint_cam t s = record s { controls = record s.controls { cam_hint = t } }

abbrev pub check_cam : Bool → Tooling → Tooling
check_cam b s = record s { controls = record s.controls { cam_checked = b } }

abbrev pub own_key_hint : Text → Text
own_key_hint [] = text "No server key configured. Add your own Serper key to enable web search."
own_key_hint (c ∷ t) = text "Using your key — stored in this browser only."

unfoldable pub disable_camera : Tooling → Tooling
disable_camera s = elim s.stream [
  | none ↦ record s { preview_shown = false }
  | some i ↦ record s { running = remove i s.running; stream = none; preview_shown = false }
]

module _ (c : Config) where
  unfoldable pub push_tools_to_session : Tooling → Tooling
  unfolding active_tool_defs
  push_tools_to_session s =
      if s.live then record s { pushed = active_tool_defs c s.switches ∷ s.pushed } else s

  abbrev pub available : Tooling → Bool
  available s = search_available c s.switches

  abbrev key_controls : Switches → Controls → Controls
  key_controls t k =
      if c.server_search_key
      then record k {
        key_text = [];
        key_placeholder = text "••••••••  · provided by the server";
        key_disabled = true;
        web_hint = text "Ready. The search key is held server-side and never sent to your browser.";
      }
      else record k {
        key_disabled = false;
        key_text = t.user_search_key;
        key_placeholder = text "Paste a Serper key to enable web search";
        web_hint = own_key_hint t.user_search_key;
      }

  unfoldable pub sync_tools_ui : Tooling → Tooling
  unfolding search_available text
  sync_tools_ui s = record s {
    controls = key_controls s.switches (record s.controls {
      web_checked = truthy s.switches.web_search && available s;
      web_disabled = not (available s);
      cam_checked = truthy s.switches.camera_snapshot;
    });
  }
