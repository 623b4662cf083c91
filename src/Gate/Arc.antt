-- ===== src/Gate/Arc.antt =====
-- demo/main.js, the drawing of the arc round the microphone button: `arcPoint`, `fullArcD`,
-- `initGateArc`, and where `renderGateHandle` and `paintInputLevel` draw on it.
use speech_to_speech_k8s.Base.{
  ℕ, Bool, List, [], ◌∷◌, ◌++◌, if◌then◌else◌, ℤ, pos, negate, of_ℤ, ltb, Text, text,
}
use speech_to_speech_k8s.Js.Number.{show_nat}
use speech_to_speech_k8s.Gate.{Doubles, db_to_fraction, is_off}

-- Math.cos, Math.sin and Math.PI, and `String` of a double.
pub record Trig : Type 0 where
  pub cos : ℤ → ℤ
  pub sin : ℤ → ℤ
  pub pi : ℤ
  pub show : ℤ → Text

-- ARC_R, ARC_SPAN_DEG and ARC_START_DEG.
abbrev pub arc_r : ℕ
arc_r = 40

abbrev pub arc_span_deg : ℕ
arc_span_deg = 200

abbrev pub arc_start_deg : ℕ
arc_start_deg = 80

-- The SVG attributes of the arc and of the bead.
pub record ArcView : Type 0 where
  pub track_d : Text
  pub fill_d : Text
  pub hit_d : Text
  pub path_length : Text
  pub dash_array : Text
  pub dash_offset : Text
  pub handle_x : Text
  pub handle_y : Text
  pub handle_off : Bool

abbrev template : List Text → Text
template [] = []
template (t ∷ ts) = t ++ template ts

module _ (fl : Doubles) where
  -- The angle at a fraction, in degrees.
  unfoldable pub arc_angle : ℤ → ℤ
  arc_angle f = fl.add (of_ℤ (pos arc_start_deg)) (fl.mul f (of_ℤ (pos arc_span_deg)))

  module _ (trig : Trig) where
    unfoldable pub arc_point : ℤ → ℤ → ℤ × ℤ
    unfolding arc_angle
    arc_point f r =
        let rad = fl.div (fl.mul (arc_angle f) trig.pi) (of_ℤ (pos 180)) in
        (
          fl.add (of_ℤ (pos 50)) (fl.mul r (trig.cos rad)),
          fl.add (of_ℤ (pos 50)) (fl.mul r (trig.sin rad)),
        )

    abbrev at_point : ℤ × ℤ → Text
    at_point (x, y) = trig.show x ++ (text " " ++ trig.show y)

    abbrev on_arc : ℤ → ℤ × ℤ
    on_arc f = arc_point f (of_ℤ (pos arc_r))

    unfoldable pub full_arc_d : Text
    unfolding arc_point
    full_arc_d =
        let radius = show_nat arc_r in
        let large_arc : ℕ = if ltb 180 arc_span_deg then 1 else 0 in
        template (
          text "M "
          ∷ at_point (on_arc (of_ℤ (pos 0)))
          ∷ text " A "
          ∷ radius
          ∷ text " "
          ∷ radius
          ∷ text " 0 "
          ∷ show_nat large_arc
          ∷ text " 1 "
          ∷ at_point (on_arc (of_ℤ (pos 1)))
          ∷ [])

    -- `renderGateHandle`, of the threshold in dB.
    unfoldable pub draw_handle : ℤ → ArcView → ArcView
    unfolding arc_point
    draw_handle db v =
        let p = on_arc (db_to_fraction fl (of_ℤ db)) in
        record v { handle_x = trig.show p.0; handle_y = trig.show p.1; handle_off = is_off db }

    -- `paintInputLevel`, the fill of the arc: the part that is not shown, in hundredths.
    unfoldable pub draw_level : ℤ → ArcView → ArcView
    draw_level f v = record v {
      dash_offset = trig.show (fl.mul (of_ℤ (pos 100)) (fl.add (of_ℤ (pos 1)) (negate f)));
    }

    unfoldable pub init_gate_arc : ℤ → ArcView → ArcView
    unfolding full_arc_d draw_handle
    init_gate_arc db v = draw_handle db (record v {
      track_d = full_arc_d;
      fill_d = full_arc_d;
      hit_d = full_arc_d;
      path_length = text "100";
      dash_array = text "100 100";
      dash_offset = text "100";
    })
