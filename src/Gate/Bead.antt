-- ===== src/Gate/Bead.antt =====
-- demo/main.js, the bead on the arc and the pointer: the two directions of the axis, through
-- `dbToFraction`, `arcPoint`, `gatePointerToDb` and `fractionToDb`.
use speech_to_speech_k8s.Base.{
  ℕ, ◌+◌, ◌-◌, ◌*◌, ◌^◌, ◌≤◌, ◌≡◌, sym, subst, arith, ℤ, pos, negsuc, ◌+ℤ◌, +ℤ_size, min_ℤ, max_ℤ,
  times, Near, Near-trans, Near-small, Near-add, round-Near, of_ℤ, unit,
}
use speech_to_speech_k8s.Settings.{gate_off_db}
use speech_to_speech_k8s.Settings.Roundtrip.{IsOnAxis}
use speech_to_speech_k8s.Gate.{
  Doubles, axis_width, db_to_fraction, fraction_to_db, full_circle, gate_pointer_to_db,
}
use speech_to_speech_k8s.Gate.Arc.{arc_angle}
use speech_to_speech_k8s.Gate.Accuracy.{
  IsSmall, tolerance, IsAccurate, reach, slack, axis_range, clamp_on_axis, clamp-Near,
  clamp-IsSmall, off_exact, scaled-IsSmall, back_exact, scaled_back, db_exact,
}

module _ (fl : Doubles) (accurate : IsAccurate fl) where
  fraction-Near :
      (m : ℕ)
      → 2 ≤ m
      → m ≤ 65
      → Near (times (db_to_fraction fl (of_ℤ (negsuc m))) 63) (of_ℤ (pos (65 - m))) (64 * tolerance)
  unfolding db_to_fraction of_ℤ unit
  fraction-Near m h k =
      let c = of_ℤ (negsuc m) in
      let x = fl.add c (of_ℤ (pos 66)) in
      let d = of_ℤ (pos (65 - m)) in
      let sum : Near x d tolerance =
        Near-trans x (c +ℤ of_ℤ (pos 66)) d tolerance 0 tolerance
          (accurate.add_near c (of_ℤ (pos 66)) (omega arith) (omega arith)) (off_exact m h k)
          (omega arith) in
      let small = Near-small x d tolerance (2 ^ 1084) sum (omega arith) in
      let quotient = accurate.div_near x 63 small (omega arith) (omega arith) in
      subst
        (λ y.
          Near (times (fl.div (fl.add y (of_ℤ (pos 66))) (of_ℤ axis_width)) 63) d (64 * tolerance))
        (sym (clamp_on_axis m h k))
        (Near-trans _ x d (63 * tolerance) tolerance (64 * tolerance) quotient sum (omega arith))

  module _ (f : ℤ) (d : ℕ) (below : d ≤ 63)
      (at : Near (times f 63) (of_ℤ (pos d)) (64 * tolerance)) where
    product-Near : Near (fl.mul f (of_ℤ (pos 200))) (times f 200) tolerance
    product-Near =
        let (small, scaled) = scaled-IsSmall f d below at in
        accurate.mul_near f 200 small (omega arith) (omega arith)

    angle-Near : Near (arc_angle fl f) (of_ℤ (pos 80) +ℤ times f 200) (2 * tolerance)
    unfolding arc_angle of_ℤ unit
    angle-Near =
        let t = times f 200 in
        let p = fl.mul f (of_ℤ (pos 200)) in
        let small =
          Near-small p t tolerance (2 ^ 1084) product-Near
            (omega (arith, (scaled-IsSmall f d below at).1)) in
        Near-trans _ (of_ℤ (pos 80) +ℤ p) _ tolerance tolerance (2 * tolerance)
          (accurate.add_near (of_ℤ (pos 80)) p (omega arith) small)
          (Near-add (of_ℤ (pos 80)) p t tolerance product-Near) (omega arith)

    -- A pointer within reach of the bead.
    module _ (x : ℤ) (near : Near x (arc_angle fl f) reach) where
      abbrev shifted : ℤ
      shifted = fl.add (of_ℤ (negsuc 79)) x

      turned : Near x (of_ℤ (pos 80) +ℤ times f 200) (reach + 2 * tolerance)
      turned = Near-trans x _ _ reach (2 * tolerance) _ near angle-Near (omega arith)

      turned-IsSmall : IsSmall x
      unfolding of_ℤ unit
      turned-IsSmall =
          let t = times f 200 in
          Near-small x (of_ℤ (pos 80) +ℤ t) (reach + 2 * tolerance) (2 ^ 1084) turned
            (omega (arith, +ℤ_size (of_ℤ (pos 80)) t, (scaled-IsSmall f d below at).1))

      shifted-Near : Near shifted (times f 200) (reach + 3 * tolerance)
      unfolding of_ℤ unit
      shifted-Near =
          let t = times f 200 in
          let back = of_ℤ (negsuc 79) in
          Near-trans shifted (back +ℤ x) t tolerance (reach + 2 * tolerance) _
            (accurate.add_near back x (omega arith) turned-IsSmall)
            (Near-trans (back +ℤ x) (back +ℤ (of_ℤ (pos 80) +ℤ t)) t (reach + 2 * tolerance) 0 _
              (Near-add back x _ (reach + 2 * tolerance) turned) (back_exact t) (omega arith))
            (omega arith)

      abbrev fraction : ℤ
      fraction = fl.div shifted (of_ℤ (pos 200))

      fraction_back : Near (times fraction 63) (of_ℤ (pos d)) slack
      fraction_back =
          let (small, scaled) = scaled-IsSmall f d below at in
          let shifted_small =
            Near-small shifted (times f 200) (reach + 3 * tolerance) (2 ^ 1084) shifted-Near
              (omega arith) in
          scaled_back fraction f d
            (Near-trans (times fraction 200) shifted (times f 200) (200 * tolerance)
              (reach + 3 * tolerance) _
              (accurate.div_near shifted 200 shifted_small (omega arith) (omega arith)) shifted-Near
              (omega arith))
            at

  -- The threshold at a fraction that is not far from d / 63.
  fraction_to_db-Near :
      (z : ℤ) (m : ℕ)
      → 2 ≤ m
      → m ≤ 65
      → Near (times z 63) (of_ℤ (pos (65 - m))) slack
      → fraction_to_db fl z ≡ negsuc m
  unfolding fraction_to_db of_ℤ unit
  fraction_to_db-Near z m h k near =
      let c = min_ℤ (of_ℤ (pos 1)) (max_ℤ (of_ℤ (pos 0)) z) in
      let d = of_ℤ (pos (65 - m)) in
      let off = of_ℤ gate_off_db in
      let clamped : Near (times c 63) d slack = clamp-Near z (65 - m) slack (omega arith) near in
      let scaled = Near-small (times c 63) d slack (2 ^ 1083) clamped (omega arith) in
      let w = fl.mul c (of_ℤ axis_width) in
      let product : Near w d (tolerance + slack) =
        Near-trans w (times c 63) d tolerance slack (tolerance + slack)
          (accurate.mul_near c 63 (clamp-IsSmall z) (omega arith) (omega arith)) clamped
          (omega arith) in
      let small = Near-small w d (tolerance + slack) (2 ^ 1084) product (omega arith) in
      let sum = accurate.add_near off w (omega arith) small in
      let exact =
        Near-trans (off +ℤ w) (off +ℤ d) (of_ℤ (negsuc m)) (tolerance + slack) 0 (tolerance + slack)
          (Near-add off w d (tolerance + slack) product) (db_exact m h k) (omega arith) in
      round-Near (fl.add off w) (negsuc m) (2 * tolerance + slack)
        (Near-trans (fl.add off w) (off +ℤ w) (of_ℤ (negsuc m)) tolerance (tolerance + slack)
          (2 * tolerance + slack) sum exact (omega arith))
        (omega arith)

  -- A pointer within a degree and a half of the bead sets the threshold at which the bead stands: a
  -- tap on the bead changes nothing. The threshold is on the axis; an angle below 0 is read as a full
  -- circle further on. On numbers up to 1024 the browser's arithmetic is exact up to 2 ^ -40.
  pub gate_pointer_to_db-arc_angle :
      (db angle : ℤ)
      → IsOnAxis db
      → Near (full_circle fl angle) (arc_angle fl (db_to_fraction fl (of_ℤ db))) reach
      → gate_pointer_to_db fl angle ≡ db
  unfolding gate_pointer_to_db
  gate_pointer_to_db-arc_angle (pos n) angle on near = absurd (omega arith)
  gate_pointer_to_db-arc_angle (negsuc m) angle on near =
      let (h, k) = axis_range m on in
      let f = db_to_fraction fl (of_ℤ (negsuc m)) in
      fraction_to_db-Near _ m h k
        (fraction_back f (65 - m) (omega arith) (fraction-Near m h k) (full_circle fl angle) near)
