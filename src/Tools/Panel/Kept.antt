-- ===== src/Tools/Panel/Kept.antt =====
-- demo/main.js, the tools panel: what stands in storage beside what the page has in memory.
use speech_to_speech_k8s.Base.{
  ◌≡◌, refl, Bool, true, false, not, ◌&&◌, Option, none, some, List, [], ◌∷◌, Text, text, trim,
  text_eq, if◌then◌else◌, Bool-cases, Option-cases, inl, inr, ℕ,
}
use speech_to_speech_k8s.Js.Json.{Json, bool, lookup, or_nullish, truthy}
use speech_to_speech_k8s.Tools.{flags as flags_of}
use speech_to_speech_k8s.Settings.{item_or}
use speech_to_speech_k8s.Connection.{Config}
use speech_to_speech_k8s.Tools.Panel.{
  Tooling, Asker, auto_start, cam_switch, Wait, opening, playing, PanelEvent, page_loaded,
  tools_clicked, permission_granted, permission_denied, web_changed, cam_changed, key_typed,
  live_changed, stream_given, video_played, stream_refused, wait_at, save_tools, hint_cam, set_cam,
  set_web, check_cam, disable_camera, push_tools_to_session, sync_tools_ui, available, check_web,
}
use speech_to_speech_k8s.Tools.Panel.Turn.{
  camera_on, camera_failed, enable_camera, auto_start_camera, on_granted, on_denied, on_web_changed,
  on_cam_changed, on_key_typed, turn, turns, given, refused, played, end_wait, set_key, stored_text,
  type_key, allow_web, hint_key, lose_key,
}

-- A flag that `??` leaves as it is.
abbrev pub IsPresent : Json → Type 0
IsPresent v = or_nullish (some v) (bool true) ≡ v

abbrev pub ArePresent : Tooling → Type 0
ArePresent s = IsPresent s.switches.web_search × IsPresent s.switches.camera_snapshot

-- A reload would find the same flags, as `loadTools` reads them, and the same key.
pub record IsSaved (s : Tooling) : Type 0 where
  pub flags : flags_of s.stored_tools ≡ (s.switches.web_search, s.switches.camera_snapshot)
  pub set : ArePresent s
  pub key : item_or s.stored_key [] ≡ s.switches.user_search_key

item_or-stored_text : (t : Text) → item_or (stored_text t) [] ≡ t
item_or-stored_text [] = refl
item_or-stored_text (x ∷ t) = refl

set_key-IsSaved : (t : Text) (s : Tooling) → IsSaved s → IsSaved (set_key t s)
set_key-IsSaved t s v = record { flags = v.flags; set = v.set; key = item_or-stored_text t }

module _ (c : Config) where
  push-IsSaved : (s : Tooling) → IsSaved s → IsSaved (push_tools_to_session c s)
  unfolding push_tools_to_session
  push-IsSaved s v = elim (Bool-cases s.live) [
    | inl e ↦ record { flags = rw e v.flags; set = rw e v.set; key = rw e v.key }
    | inr e ↦ record { flags = rw e v.flags; set = rw e v.set; key = rw e v.key }
  ]

  -- What the page has just saved is saved.
  save_tools-IsSaved :
      (s : Tooling)
      → item_or s.stored_key [] ≡ s.switches.user_search_key
      → ArePresent s
      → IsSaved (save_tools s)
  unfolding save_tools lookup text text_eq
  save_tools-IsSaved s k (w, c) = record { flags = rw (w, c) refl; set = (w, c); key = k }

  told-IsSaved :
      (s : Tooling)
      → item_or s.stored_key [] ≡ s.switches.user_search_key
      → ArePresent s
      → IsSaved (push_tools_to_session c (save_tools s))
  told-IsSaved s k set = push-IsSaved (save_tools s) (save_tools-IsSaved s k set)

  camera_on-IsSaved : (a : Asker) (s : Tooling) → IsSaved s → IsSaved (camera_on c a s)
  unfolding camera_on
  camera_on-IsSaved auto_start s v = v
  camera_on-IsSaved cam_switch s v =
      told-IsSaved
        (hint_cam (text "Camera on. The assistant can take a snapshot when it needs to see.")
          (set_cam true s))
        v.key (v.set.0, refl)

  sync_tools_ui-IsSaved : (s : Tooling) → IsSaved s → IsSaved (sync_tools_ui c s)
  unfolding sync_tools_ui
  sync_tools_ui-IsSaved s v = record { flags = v.flags; set = v.set; key = v.key }

  camera_failed-IsSaved :
      (denied : Bool) (message : Text) (a : Asker) (s : Tooling)
      → IsSaved s
      → IsSaved (camera_failed c denied message a s)
  unfolding camera_failed
  camera_failed-IsSaved denied message auto_start s v =
      sync_tools_ui-IsSaved _ (save_tools-IsSaved (set_cam false s) v.key (v.set.0, refl))
  camera_failed-IsSaved denied message cam_switch s v = record {
    flags = v.flags;
    set = v.set;
    key = v.key;
  }

  enable_camera-IsSaved : (a : Asker) (s : Tooling) → IsSaved s → IsSaved (enable_camera c a s)
  unfolding enable_camera
  enable_camera-IsSaved a s v = elim (Option-cases s.stream) [
    | inl e ↦ rw (enable_camera, e) (record { flags = v.flags; set = v.set; key = v.key })
    | inr h ↦ rw (enable_camera, h.1) (camera_on-IsSaved a s v)
  ]

  if-IsSaved : (b : Bool) (s t : Tooling) → IsSaved s → IsSaved t → IsSaved (if b then s else t)
  if-IsSaved true s t v w = v
  if-IsSaved false s t v w = w

  auto_start_camera-IsSaved : (s : Tooling) → IsSaved s → IsSaved (auto_start_camera c s)
  unfolding auto_start_camera
  auto_start_camera-IsSaved s v = elim (Option-cases s.stream) [
    | inl e ↦
        rw (auto_start_camera, e)
          (if-IsSaved (truthy s.switches.camera_snapshot) (enable_camera c auto_start s) s
            (enable_camera-IsSaved auto_start s v) v)
    | inr h ↦ rw (auto_start_camera, h.1) v
  ]

  on_granted-IsSaved : (s : Tooling) → IsSaved s → IsSaved (on_granted c s)
  unfolding on_granted
  on_granted-IsSaved s v = sync_tools_ui-IsSaved _ (
      auto_start_camera-IsSaved _ (
        if-IsSaved (truthy s.switches.camera_snapshot) s (save_tools (set_cam true s)) v
          (save_tools-IsSaved (set_cam true s) v.key (v.set.0, refl))))

  disable_camera-IsSaved : (s : Tooling) → IsSaved s → IsSaved (disable_camera s)
  unfolding disable_camera
  disable_camera-IsSaved s v = elim (Option-cases s.stream) [
    | inl e ↦ rw (disable_camera, e) (record { flags = v.flags; set = v.set; key = v.key })
    | inr h ↦ rw (disable_camera, h.1) (record { flags = v.flags; set = v.set; key = v.key })
  ]

  on_denied-IsSaved : (s : Tooling) → IsSaved s → IsSaved (on_denied c s)
  unfolding on_denied
  on_denied-IsSaved s v =
      let s1 = disable_camera s in
      let v1 = disable_camera-IsSaved s v in
      sync_tools_ui-IsSaved _ (
        if-IsSaved (truthy s1.switches.camera_snapshot) (save_tools (set_cam false s1)) s1
          (save_tools-IsSaved (set_cam false s1) v1.key (v1.set.0, refl)) v1)

  on_web_changed-IsSaved : (b : Bool) (s : Tooling) → IsSaved s → IsSaved (on_web_changed c b s)
  unfolding on_web_changed
  on_web_changed-IsSaved b s v =
      let s1 = set_web b (check_web b s) in
      if-IsSaved (b && not (available c s)) (check_web false s)
        (push_tools_to_session c (save_tools s1))
        (record { flags = v.flags; set = v.set; key = v.key })
        (told-IsSaved s1 v.key (refl, v.set.1))

  on_cam_changed-IsSaved : (b : Bool) (s : Tooling) → IsSaved s → IsSaved (on_cam_changed c b s)
  unfolding on_cam_changed
  on_cam_changed-IsSaved true s v =
      enable_camera-IsSaved cam_switch (check_cam true s)
        (record { flags = v.flags; set = v.set; key = v.key })
  on_cam_changed-IsSaved false s v =
      let s1 = disable_camera (check_cam false s) in
      let v1 =
        disable_camera-IsSaved (check_cam false s)
          (record { flags = v.flags; set = v.set; key = v.key }) in
      told-IsSaved (hint_cam (text "Let the assistant see through your webcam.") (set_cam false s1))
        v1.key (v1.set.0, refl)

  given-IsSaved : (w : Option Wait) (n : ℕ) (s : Tooling) → IsSaved s → IsSaved (given c w n s)
  given-IsSaved none n s v = v
  given-IsSaved (some (opening a)) n s v = record { flags = v.flags; set = v.set; key = v.key }
  given-IsSaved (some (playing a)) n s v = v

  refused-IsSaved :
      (w : Option Wait) (n : ℕ) (denied : Bool) (message : Text) (s : Tooling)
      → IsSaved s
      → IsSaved (refused c w n denied message s)
  refused-IsSaved none n denied message s v = v
  refused-IsSaved (some (opening a)) n denied message s v =
      camera_failed-IsSaved denied message a (end_wait c n s)
        (record { flags = v.flags; set = v.set; key = v.key })
  refused-IsSaved (some (playing a)) n denied message s v = v

  played-IsSaved : (w : Option Wait) (n : ℕ) (s : Tooling) → IsSaved s → IsSaved (played c w n s)
  played-IsSaved none n s v = v
  played-IsSaved (some (opening a)) n s v = v
  played-IsSaved (some (playing a)) n s v =
      camera_on-IsSaved a (record (end_wait c n s) { preview_shown = true })
        (record { flags = v.flags; set = v.set; key = v.key })

  lose_key-IsSaved : (s : Tooling) → IsSaved s → IsSaved (lose_key c s)
  lose_key-IsSaved s v =
      let s1 = set_web false (check_web false s) in
      if-IsSaved (not (available c s) && truthy s.switches.web_search)
        (push_tools_to_session c (save_tools s1)) s (told-IsSaved s1 v.key (refl, v.set.1)) v

  on_key_typed-IsSaved : (t : Text) (s : Tooling) → IsSaved s → IsSaved (on_key_typed c t s)
  unfolding on_key_typed
  on_key_typed-IsSaved t s v =
      let s1 = type_key c t s in
      let s2 = allow_web c (set_key (trim t) s1) in
      let v2 = set_key-IsSaved (trim t) s v in
      let v3 = lose_key-IsSaved s2 (record { flags = v2.flags; set = v2.set; key = v2.key }) in
      if-IsSaved c.server_search_key s1 (hint_key c (trim t) (lose_key c s2))
        (record { flags = v.flags; set = v.set; key = v.key })
        (record { flags = v3.flags; set = v3.set; key = v3.key })

  turn-IsSaved : (e : PanelEvent) (s : Tooling) → IsSaved s → IsSaved (turn c s e)
  unfolding turn
  turn-IsSaved page_loaded s v = auto_start_camera-IsSaved s v
  turn-IsSaved tools_clicked s v = sync_tools_ui-IsSaved s v
  turn-IsSaved permission_granted s v = on_granted-IsSaved s v
  turn-IsSaved permission_denied s v = on_denied-IsSaved s v
  turn-IsSaved (web_changed b) s v = on_web_changed-IsSaved b s v
  turn-IsSaved (cam_changed b) s v = on_cam_changed-IsSaved b s v
  turn-IsSaved (live_changed b) s v = record { flags = v.flags; set = v.set; key = v.key }
  turn-IsSaved (key_typed t) s v = on_key_typed-IsSaved t s v
  turn-IsSaved (stream_given n) s v = given-IsSaved (wait_at n s.waits) n s v
  turn-IsSaved (video_played n) s v = played-IsSaved (wait_at n s.waits) n s v
  turn-IsSaved (stream_refused n denied message) s v =
      refused-IsSaved (wait_at n s.waits) n denied message s v

-- From a page whose storage agrees on, whatever the listeners do, in whatever order the waits end
-- and whatever the configuration is at each event, `loadTools` would find the flags of the tools that
-- the page has in memory, none of them null, and a reload the search key. The value that is stored is
-- the one that `JSON.parse` reads.
pub turns-IsSaved :
    (s : Tooling) (es : List (Config × PanelEvent)) → IsSaved s → IsSaved (turns s es)
unfolding turns
turns-IsSaved s [] v = v
turns-IsSaved s ((c, e) ∷ es) v = turns-IsSaved (turn c s e) es (turn-IsSaved c e s v)
