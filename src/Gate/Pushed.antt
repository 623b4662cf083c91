-- ===== src/Gate/Pushed.antt =====
-- demo/main.js, the noise gate's controls during a call: what the client is told.
use speech_to_speech_k8s.Base.{
  ◌≡◌, refl, ap, ◌⊎◌, inl, inr, Bool, true, false, List, [], ◌∷◌, ℤ, Num, Text, if◌then◌else◌,
}
use speech_to_speech_k8s.Settings.{GateParams, gate_params, clamp_db, read_gate_threshold}
use speech_to_speech_k8s.Gate.{
  Doubles, Gate, GateEvent, slid, pressed, moved, released, panel_shown, heard, live_changed,
  panel_changed, gate_pointer_to_db, render_gate_handle, sync_gate_ui, set_gate_threshold,
  paint_input_level, drag, on_gate, on_gates,
}

-- The call goes on.
abbrev pub StaysLive : List GateEvent → Type 0
StaysLive [] = true ≡ true
StaysLive (live_changed b ∷ es) = (b ≡ true) × StaysLive es
StaysLive (_ ∷ es) = StaysLive es

-- A call at the threshold n, with `before` sent: nothing has changed, or the threshold was sent last.
abbrev pub IsPushed : ℤ → List GateParams → Gate → Type 0
IsPushed n before g =
    ((g.settings.noise_gate ≡ n) × (g.sent ≡ before))
    ⊎ ((rest : List GateParams) × (g.sent ≡ gate_params g.settings.noise_gate ∷ rest))

abbrev IsTuned : ℤ → List GateParams → Gate → Type 0
IsTuned n before g = (g.live ≡ true) × IsPushed n before g

module _ (fl : Doubles) (number : Text → Num) (n : ℤ) (before : List GateParams) where
  set_gate_threshold-IsTuned :
      (db : ℤ) (g : Gate) → g.live ≡ true → IsTuned n before (set_gate_threshold fl db g)
  unfolding set_gate_threshold sync_gate_ui render_gate_handle
  set_gate_threshold-IsTuned db g e =
      (e, inr (g.sent, ap (λ b. if b then gate_params (clamp_db db) ∷ g.sent else g.sent) e))

  if-IsTuned :
      (b : Bool) (g h : Gate)
      → IsTuned n before g
      → IsTuned n before h
      → IsTuned n before (if b then g else h)
  if-IsTuned true g h v w = v
  if-IsTuned false g h v w = w

  on_gate-IsTuned :
      (g : Gate) (e : GateEvent) (es : List GateEvent)
      → StaysLive (e ∷ es)
      → IsTuned n before g
      → IsTuned n before (on_gate fl number g e) × StaysLive es
  unfolding on_gate sync_gate_ui render_gate_handle paint_input_level
  on_gate-IsTuned g (slid t) es l v = (
    set_gate_threshold-IsTuned (read_gate_threshold number t)
        (record g { ui = record (g.ui) { slider = t } }) v.0,
    l,
  )
  on_gate-IsTuned g (pressed a) es l v =
      (set_gate_threshold-IsTuned (gate_pointer_to_db fl a) (drag fl true g) v.0, l)
  on_gate-IsTuned g (moved a) es l v = (
    if-IsTuned g.ui.dragging (set_gate_threshold fl (gate_pointer_to_db fl a) g) g
        (set_gate_threshold-IsTuned (gate_pointer_to_db fl a) g v.0) v,
    l,
  )
  on_gate-IsTuned g released es l v = (if-IsTuned g.ui.dragging (drag fl false g) g v v, l)
  on_gate-IsTuned g panel_shown es l v = (v, l)
  on_gate-IsTuned g (heard db) es l v = (v, l)
  on_gate-IsTuned g (live_changed b) es l v = ((l.0, v.1), l.1)
  on_gate-IsTuned g (panel_changed b) es l v = (v, l)

  on_gates-IsTuned :
      (g : Gate) (es : List GateEvent)
      → StaysLive es
      → IsTuned n before g
      → IsTuned n before (on_gates fl number g es)
  unfolding on_gates
  on_gates-IsTuned g [] l v = v
  on_gates-IsTuned g (e ∷ es) l v =
      let (w, m) = on_gate-IsTuned g e es l v in on_gates-IsTuned (on_gate fl number g e) es m w

-- While a call goes on, whatever the slider, the pointer and the level of the microphone do: either
-- the threshold is the one that it was and nothing has been sent, or what the client was sent last is
-- the threshold that the page has.
pub on_gates-IsPushed :
    (fl : Doubles) (number : Text → Num) (g : Gate) (es : List GateEvent)
    → g.live ≡ true
    → StaysLive es
    → IsPushed g.settings.noise_gate g.sent (on_gates fl number g es)
on_gates-IsPushed fl number g es e l =
    (on_gates-IsTuned fl number g.settings.noise_gate g.sent g es l (e, inl (refl, refl))).1
