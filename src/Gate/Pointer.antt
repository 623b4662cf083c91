-- ===== src/Gate/Pointer.antt =====
-- demo/main.js, the pointer on the arc round the microphone button: the threshold at an angle.
use speech_to_speech_k8s.Base.{
  ◌≡◌, refl, subst, ap, ◌∙◌, true, false, arith, ℤ, pos, negsuc, ◌≤ℤ◌, ◌+ℤ◌, ltb_ℤ, of_ℤ,
}
use speech_to_speech_k8s.Settings.{gate_off_db, gate_max_db}
use speech_to_speech_k8s.Gate.{Doubles, fraction_to_db, gate_pointer_to_db}
use speech_to_speech_k8s.Gate.Axis.{IsIeee, ≤ℤ_antisymm, fraction_to_db_bounds}

not_below : (a : ℤ) → of_ℤ (pos 0) ≤ℤ a → ltb_ℤ a (of_ℤ (pos 0)) ≡ false
not_below a h = ground arith

zero-le-end : of_ℤ (pos 0) ≤ℤ of_ℤ (pos 280)
unfolding of_ℤ
zero-le-end = omega arith

module _ (fl : Doubles) (ieee : IsIeee fl) where
  -- The fraction of the arc at an angle from 0 on.
  abbrev fraction_at : ℤ → ℤ
  fraction_at deg = fl.div (fl.add (of_ℤ (negsuc 79)) deg) (of_ℤ (pos 200))

  fraction_at_mono : (a b : ℤ) → a ≤ℤ b → fraction_at a ≤ℤ fraction_at b
  fraction_at_mono a b h =
      ieee.div_mono _ _ 200 (omega arith) (ieee.add_mono (of_ℤ (negsuc 79)) a b h)

  fraction_at-start : fraction_at (of_ℤ (pos 80)) ≡ of_ℤ (pos 0)
  unfolding ◌+ℤ◌
  fraction_at-start =
      ap (λ x. fl.div x (of_ℤ (pos 200)))
        (ieee.add_integers (negsuc 79) (pos 80) (omega arith) (omega arith) (omega arith))
      ∙ ieee.div_zero 200 (omega arith) (omega arith)

  fraction_at-end : fraction_at (of_ℤ (pos 280)) ≡ of_ℤ (pos 1)
  unfolding ◌+ℤ◌
  fraction_at-end =
      ap (λ x. fl.div x (of_ℤ (pos 200)))
        (ieee.add_integers (negsuc 79) (pos 280) (omega arith) (omega arith) (omega arith))
      ∙ ieee.div_self 200 (omega arith) (omega arith)

  low_fraction : (f : ℤ) → f ≤ℤ of_ℤ (pos 0) → fraction_to_db fl f ≡ gate_off_db
  low_fraction f h =
      let (on, grows, zero, one) = fraction_to_db_bounds fl ieee f (of_ℤ (pos 0)) h in
      ≤ℤ_antisymm _ _ (subst (λ d. fraction_to_db fl f ≤ℤ d) zero grows) on.0

  high_fraction : (f : ℤ) → of_ℤ (pos 1) ≤ℤ f → fraction_to_db fl f ≡ gate_max_db
  high_fraction f h =
      let (on, grows, zero, one) = fraction_to_db_bounds fl ieee (of_ℤ (pos 1)) f h in
      ≤ℤ_antisymm _ _ (fraction_to_db_bounds fl ieee f f (omega arith)).0.1
        (subst (λ d. d ≤ℤ fraction_to_db fl f) one grows)

  -- An angle from 0 on is taken as it is, one below 0 is a full turn further on.
  at_angle :
      (a : ℤ) → of_ℤ (pos 0) ≤ℤ a → gate_pointer_to_db fl a ≡ fraction_to_db fl (fraction_at a)
  unfolding gate_pointer_to_db
  at_angle a h = rw (not_below a h) refl

  below_zero :
      (a : ℤ)
      → ltb_ℤ a (of_ℤ (pos 0)) ≡ true
      → gate_pointer_to_db fl a ≡ fraction_to_db fl (fraction_at (fl.add (of_ℤ (pos 360)) a))
  unfolding gate_pointer_to_db
  below_zero a h = rw h refl

  past_start : (a : ℤ) → a ≤ℤ of_ℤ (pos 80) → fraction_to_db fl (fraction_at a) ≡ gate_off_db
  past_start a h =
      low_fraction (fraction_at a)
        (subst (λ x. fraction_at a ≤ℤ x) fraction_at-start (fraction_at_mono a _ h))

  past_end : (a : ℤ) → of_ℤ (pos 280) ≤ℤ a → fraction_to_db fl (fraction_at a) ≡ gate_max_db
  past_end a h =
      high_fraction (fraction_at a)
        (subst (λ x. x ≤ℤ fraction_at a) fraction_at-end (fraction_at_mono _ a h))

  full_turn : fl.add (of_ℤ (pos 360)) (of_ℤ (negsuc 79)) ≡ of_ℤ (pos 280)
  unfolding ◌+ℤ◌
  full_turn = ieee.add_integers (pos 360) (negsuc 79) (omega arith) (omega arith) (omega arith)

  -- The gap of the arc, between 80 degrees below and 80 degrees above the right: an angle `low` in its
  -- lower half switches the gate off, one in its upper half, written as `below` 0 or as `high` as 280
  -- at least, sets the most; from 0 on the threshold grows with the angle. The browser's arithmetic
  -- keeps the order and is exact on small integers.
  pub gate_pointer_to_db_bounds :
      (low high below a b : ℤ)
      → of_ℤ (pos 0) ≤ℤ low
      → low ≤ℤ of_ℤ (pos 80)
      → of_ℤ (pos 280) ≤ℤ high
      → of_ℤ (negsuc 79) ≤ℤ below
      → ltb_ℤ below (of_ℤ (pos 0)) ≡ true
      → of_ℤ (pos 0) ≤ℤ a
      → a ≤ℤ b
      → (gate_pointer_to_db fl low ≡ gate_off_db)
        × (gate_pointer_to_db fl high ≡ gate_max_db)
        × (gate_pointer_to_db fl below ≡ gate_max_db)
        × (gate_pointer_to_db fl a ≤ℤ gate_pointer_to_db fl b)
  gate_pointer_to_db_bounds low high below a b l0 l h n0 n p q = (
    at_angle low l0 ∙ past_start low l,
    at_angle high (omega (arith, zero-le-end)) ∙ past_end high h,
    below_zero below n
        ∙ past_end (fl.add (of_ℤ (pos 360)) below) (
            subst (λ x. x ≤ℤ fl.add (of_ℤ (pos 360)) below) full_turn
              (ieee.add_mono (of_ℤ (pos 360)) _ below n0)),
    rw (at_angle a p, at_angle b (omega arith))
        (fraction_to_db_bounds fl ieee _ _ (fraction_at_mono a b q)).1,
  )
