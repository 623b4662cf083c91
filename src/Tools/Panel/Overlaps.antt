-- ===== src/Tools/Panel/Overlaps.antt =====
-- demo/main.js, the tools panel and the webcam: listeners that do not see each other's work.
use speech_to_speech_k8s.Base.{
  ℕ, ◌<◌, arith, [], ◌≡◌, refl, subst, sym, ap, ◌∙◌, true, false, Option, some, List, ◌∷◌, Text,
  text, is_nonempty, trim, Bool-cases, Option-cases, inl, inr,
}
use speech_to_speech_k8s.Js.Json.{bool, truthy}
use speech_to_speech_k8s.Connection.{Config}
use speech_to_speech_k8s.Tools.{Tool, web_search, search_available, active_tool_defs}
use speech_to_speech_k8s.Tools.Panel.{
  Tooling, Asker, remove, auto_start, opening, cam_changed, key_typed, stream_given, wait_at,
  save_tools, hint_cam, set_cam, check_cam, Wait, disable_camera, push_tools_to_session,
}
use speech_to_speech_k8s.Tools.Panel.Turn.{
  take_stream, end_wait, given, on_cam_changed, on_key_typed, turn,
}

-- The webcam is on, while its tool is off and its switch is not ticked.
pub record IsFilming (s : Tooling) : Type 0 where
  pub held : (i : ℕ) × (s.stream ≡ some i)
  pub off : s.switches.camera_snapshot ≡ bool false
  pub unticked : s.controls.cam_checked ≡ false

module _ (c : Config) where
  -- What switching the camera off leaves.
  record IsOff (s t : Tooling) : Type 0 where
    waits : t.waits ≡ s.waits
    off : t.switches.camera_snapshot ≡ bool false
    unticked : t.controls.cam_checked ≡ false

  push-IsOff : (s t : Tooling) → IsOff s t → IsOff s (push_tools_to_session c t)
  unfolding push_tools_to_session
  push-IsOff s t v = elim (Bool-cases t.live) [
    | inl e ↦ record { waits = rw e v.waits; off = rw e v.off; unticked = rw e v.unticked }
    | inr e ↦ record { waits = rw e v.waits; off = rw e v.off; unticked = rw e v.unticked }
  ]

  disable_camera-IsOff :
      (s : Tooling) (hint : Text)
      → IsOff s (save_tools (hint_cam hint (set_cam false (disable_camera (check_cam false s)))))
  unfolding save_tools disable_camera
  disable_camera-IsOff s hint = elim (Option-cases s.stream) [
    | inl e ↦ record { waits = rw e refl; off = refl; unticked = rw e refl }
    | inr h ↦ record { waits = rw (h.1) refl; off = refl; unticked = rw (h.1) refl }
  ]

  on_cam_changed-IsOff : (s : Tooling) → IsOff s (on_cam_changed c false s)
  unfolding on_cam_changed
  on_cam_changed-IsOff s =
      push-IsOff s
        (save_tools (
          hint_cam (text "Let the assistant see through your webcam.")
            (set_cam false (disable_camera (check_cam false s)))))
        (disable_camera-IsOff s (text "Let the assistant see through your webcam."))

  given-IsFilming :
      (s t : Tooling) (n : ℕ) (w : Option Wait)
      → IsOff s t
      → w ≡ some (opening auto_start)
      → IsFilming (given c w n t)
  given-IsFilming s t n w v e =
      rw e (record { held = (t.opened, refl); off = v.off; unticked = v.unticked })

  -- The camera that `autoStartCamera` has asked for, granted after the switch was turned off, is on
  -- although the tool is off. So it is for every state in which that request waits.
  pub late_grant-IsFilming :
      (s : Tooling) (n : ℕ)
      → wait_at n s.waits ≡ some (opening auto_start)
      → IsFilming (turn c (turn c s (cam_changed false)) (stream_given n))
  unfolding turn
  late_grant-IsFilming s n waits =
      let t = on_cam_changed c false s in
      let v = on_cam_changed-IsOff s in
      given-IsFilming s t n (wait_at n t.waits) v (ap (wait_at n) v.waits ∙ waits)

  -- A search key that is typed, the server having none: the search tool, its flag on, is offered
  -- from now on, but a live session is not told, and the tool's switch stays as it was.
  pub on_key_typed-pushed :
      (s : Tooling) (typed : Text)
      → c.server_search_key ≡ false
      → truthy s.switches.web_search ≡ true
      → is_nonempty (trim typed) ≡ true
      → let t = turn c s (key_typed typed) in
        ((rest : List Tool) × (active_tool_defs c t.switches ≡ web_search ∷ rest))
        × (t.pushed ≡ s.pushed)
        × (t.controls.web_checked ≡ s.controls.web_checked)
  unfolding turn on_key_typed active_tool_defs search_available
  on_key_typed-pushed s typed no_server on key =
      rw (no_server, key, on, key) ((_, refl), refl, refl)

  push-running : (t : Tooling) → (push_tools_to_session c t).running ≡ t.running
  unfolding push_tools_to_session
  push-running t = ground arith

  remove-older : (i j : ℕ) → i < j → remove j (j ∷ i ∷ []) ≡ i ∷ []
  remove-older i j older = ground arith

  cam_off-running :
      (t : Tooling) (j : ℕ)
      → t.stream ≡ some j
      → (on_cam_changed c false t).running ≡ remove j t.running
  unfolding on_cam_changed save_tools disable_camera
  cam_off-running t j e = rw (push-running, e) refl

  -- A stream for a request that was made before another one was granted takes the other's place;
  -- when the switch is then turned off, the other's tracks still run. Only that older one ran.
  pub second_grant-running :
      (s : Tooling) (n i : ℕ) (a : Asker)
      → s.stream ≡ some i
      → s.running ≡ i ∷ []
      → i < s.opened
      → wait_at n s.waits ≡ some (opening a)
      → let t = turn c s (stream_given n) in
        (t.stream ≡ some s.opened) × ((turn c t (cam_changed false)).running ≡ i ∷ [])
  unfolding turn on_cam_changed disable_camera save_tools push_tools_to_session
  second_grant-running s n i a held running older waits =
      let t = take_stream c a (end_wait c n s) in
      let after : turn c s (stream_given n) ≡ t = rw waits refl in
      subst (λ t. (t.stream ≡ some s.opened) × ((turn c t (cam_changed false)).running ≡ i ∷ []))
        (sym after)
        (refl, cam_off-running t s.opened refl ∙ rw running (remove-older i s.opened older))
