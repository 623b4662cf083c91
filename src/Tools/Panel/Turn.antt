-- ===== src/Tools/Panel/Turn.antt =====
-- demo/main.js, the tools panel and the webcam: one turn of the event loop. An async function is cut
-- at its awaits; an event ends any of the waits.
use speech_to_speech_k8s.Base.{
  ℕ, suc, Bool, true, false, not, ◌&&◌, Option, none, some, List, [], ◌∷◌, ◌++◌, if◌then◌else◌,
  Text, text, trim,
}
use speech_to_speech_k8s.Js.Json.{truthy}
use speech_to_speech_k8s.Connection.{Config}
use speech_to_speech_k8s.Tools.{search_available}
use speech_to_speech_k8s.Tools.Panel.{
  Tooling, Asker, auto_start, cam_switch, Wait, opening, playing, PanelEvent, page_loaded,
  tools_clicked, permission_granted, permission_denied, web_changed, cam_changed, key_typed,
  live_changed, stream_given, video_played, stream_refused, wait_at, drop_wait, save_tools, set_web,
  set_cam, check_web, hint_cam, check_cam, own_key_hint, disable_camera, push_tools_to_session,
  available, sync_tools_ui,
}

abbrev pub stored_text : Text → Option Text
stored_text [] = none
stored_text (c ∷ t) = some (c ∷ t)

abbrev pub set_key : Text → Tooling → Tooling
set_key key s = record s {
  switches = record s.switches { user_search_key = key };
  stored_key = stored_text key;
}

abbrev refusal : Bool → Text → Text
refusal true message =
    text
      "Camera blocked. Allow it from the camera icon in your browser's address bar — it switches on automatically."
refusal false message = text "Camera unavailable: " ++ message

module _ (c : Config) where
  -- What the asker does when `enableCamera` has returned.
  unfoldable pub camera_on : Asker → Tooling → Tooling
  unfolding save_tools push_tools_to_session text
  camera_on auto_start s = s
  camera_on cam_switch s = push_tools_to_session c (
      save_tools (
        hint_cam (text "Camera on. The assistant can take a snapshot when it needs to see.")
          (set_cam true s)))

  -- What it does when `enableCamera` has thrown.
  unfoldable pub camera_failed : Bool → Text → Asker → Tooling → Tooling
  unfolding save_tools sync_tools_ui text
  camera_failed denied message auto_start s = sync_tools_ui c (save_tools (set_cam false s))
  camera_failed denied message cam_switch s = hint_cam (refusal denied message) (check_cam false s)

  -- `enableCamera`: with a stream it returns at once.
  unfoldable pub enable_camera : Asker → Tooling → Tooling
  unfolding camera_on
  enable_camera a s = elim s.stream [
    | none ↦ record s { waits = opening a ∷ s.waits }
    | some i ↦ camera_on a s
  ]

  -- Behind the wait for the stream.
  abbrev pub take_stream : Asker → Tooling → Tooling
  take_stream a s = record s {
    stream = some s.opened;
    running = s.opened ∷ s.running;
    opened = suc s.opened;
    waits = playing a ∷ s.waits;
  }

  unfoldable pub auto_start_camera : Tooling → Tooling
  unfolding enable_camera
  auto_start_camera s = elim s.stream [
    | none ↦ if truthy s.switches.camera_snapshot then enable_camera auto_start s else s
    | some i ↦ s
  ]

  unfoldable pub on_granted : Tooling → Tooling
  unfolding save_tools auto_start_camera sync_tools_ui
  on_granted s = sync_tools_ui c (
      auto_start_camera
        (if truthy s.switches.camera_snapshot then s else save_tools (set_cam true s)))

  unfoldable pub on_denied : Tooling → Tooling
  unfolding save_tools disable_camera sync_tools_ui
  on_denied s =
      let s1 = disable_camera s in
      sync_tools_ui c
        (if truthy s1.switches.camera_snapshot then save_tools (set_cam false s1) else s1)

  unfoldable pub on_web_changed : Bool → Tooling → Tooling
  unfolding save_tools push_tools_to_session search_available
  on_web_changed checked s =
      if checked && not (available c s)
      then check_web false s
      else push_tools_to_session c (save_tools (set_web checked (check_web checked s)))

  unfoldable pub on_cam_changed : Bool → Tooling → Tooling
  unfolding save_tools push_tools_to_session disable_camera enable_camera text
  on_cam_changed true s = enable_camera cam_switch (check_cam true s)
  on_cam_changed false s = push_tools_to_session c (
      save_tools (
        hint_cam (text "Let the assistant see through your webcam.")
          (set_cam false (disable_camera (check_cam false s)))))

  -- A web search that was on is switched off with the key that it needs.
  abbrev pub lose_key : Tooling → Tooling
  lose_key s =
      if not (available c s) && truthy s.switches.web_search
      then push_tools_to_session c (save_tools (set_web false (check_web false s)))
      else s

  abbrev pub allow_web : Tooling → Tooling
  allow_web s = record s { controls = record s.controls { web_disabled = not (available c s) } }

  abbrev pub type_key : Text → Tooling → Tooling
  type_key typed s = record s { controls = record s.controls { key_text = typed } }

  abbrev pub hint_key : Text → Tooling → Tooling
  hint_key key s = record s { controls = record s.controls { web_hint = own_key_hint key } }

  unfoldable pub on_key_typed : Text → Tooling → Tooling
  unfolding save_tools push_tools_to_session search_available text trim
  on_key_typed typed s =
      let key = trim typed in
      let s1 = type_key typed s in
      if c.server_search_key then s1 else hint_key key (lose_key (allow_web (set_key key s1)))

  abbrev pub end_wait : ℕ → Tooling → Tooling
  end_wait n s = record s { waits = drop_wait n s.waits }

  abbrev pub given : Option Wait → ℕ → Tooling → Tooling
  given (some (opening a)) n s = take_stream a (end_wait n s)
  given _ n s = s

  abbrev pub refused : Option Wait → ℕ → Bool → Text → Tooling → Tooling
  refused (some (opening a)) n denied message s = camera_failed denied message a (end_wait n s)
  refused _ n denied message s = s

  -- The preview is shown, and `enableCamera` returns.
  abbrev pub played : Option Wait → ℕ → Tooling → Tooling
  played (some (playing a)) n s = camera_on a (record (end_wait n s) { preview_shown = true })
  played _ n s = s

  unfoldable pub turn : Tooling → PanelEvent → Tooling
  unfolding auto_start_camera sync_tools_ui on_granted on_denied on_web_changed on_cam_changed
      on_key_typed camera_on camera_failed
  turn s page_loaded = auto_start_camera s
  turn s tools_clicked = sync_tools_ui c s
  turn s permission_granted = on_granted s
  turn s permission_denied = on_denied s
  turn s (web_changed b) = on_web_changed b s
  turn s (cam_changed b) = on_cam_changed b s
  turn s (live_changed b) = record s { live = b }
  turn s (key_typed t) = on_key_typed t s
  turn s (stream_given n) = given (wait_at n s.waits) n s
  turn s (video_played n) = played (wait_at n s.waits) n s
  turn s (stream_refused n denied message) = refused (wait_at n s.waits) n denied message s

-- The configuration is the one at each event: `/api/config` is read while the page is used.
unfoldable pub turns : Tooling → List (Config × PanelEvent) → Tooling
unfolding turn
turns s [] = s
turns s ((c, e) ∷ es) = turns (turn c s e) es
