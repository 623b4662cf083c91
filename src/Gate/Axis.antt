-- ===== src/Gate/Axis.antt =====
-- demo/main.js, the axis of the noise gate: what the pointer on the arc can set.
use speech_to_speech_k8s.Base.{
  ℕ, ◌+◌, ◌^◌, ◌<◌, ◌≤◌, pos_part, neg_part, ◌≡◌, subst, ap, ◌∙◌, arith, ℤ, pos, ◌≤ℤ◌, ◌+ℤ◌, min_ℤ,
  max_ℤ, of_ℤ, round, round_mono, round-of_ℤ,
}
use speech_to_speech_k8s.Settings.{gate_off_db, gate_max_db}
use speech_to_speech_k8s.Settings.Roundtrip.{IsOnAxis}
use speech_to_speech_k8s.Gate.{Doubles, axis_width, fraction_to_db}

-- An integer up to 2 ^ 53.
abbrev pub IsExact : ℤ → Type 0
IsExact a = pos_part a + neg_part a ≤ 2 ^ 53

-- What is relied on of the browser's arithmetic: it keeps the order, 0 and 1 are exact factors, a
-- quotient is exact that is 0 or 1, and so are the sums of integers up to 2 ^ 53.
pub record IsIeee (fl : Doubles) : Type 0 where
  pub add_mono : (a b c : ℤ) → b ≤ℤ c → fl.add a b ≤ℤ fl.add a c
  pub add_integers :
      (a b : ℤ)
      → IsExact a
      → IsExact b
      → IsExact (a +ℤ b)
      → fl.add (of_ℤ a) (of_ℤ b) ≡ of_ℤ (a +ℤ b)
  pub mul_mono : (a b : ℤ) (n : ℕ) → a ≤ℤ b → fl.mul a (of_ℤ (pos n)) ≤ℤ fl.mul b (of_ℤ (pos n))
  pub mul_zero : (n : ℕ) → IsExact (pos n) → fl.mul (of_ℤ (pos 0)) (of_ℤ (pos n)) ≡ of_ℤ (pos 0)
  pub mul_one : (n : ℕ) → IsExact (pos n) → fl.mul (of_ℤ (pos 1)) (of_ℤ (pos n)) ≡ of_ℤ (pos n)
  pub div_mono :
      (a b : ℤ) (n : ℕ) → 0 < n → a ≤ℤ b → fl.div a (of_ℤ (pos n)) ≤ℤ fl.div b (of_ℤ (pos n))
  pub div_zero :
      (n : ℕ) → 0 < n → IsExact (pos n) → fl.div (of_ℤ (pos 0)) (of_ℤ (pos n)) ≡ of_ℤ (pos 0)
  pub div_self :
      (n : ℕ) → 0 < n → IsExact (pos n) → fl.div (of_ℤ (pos n)) (of_ℤ (pos n)) ≡ of_ℤ (pos 1)

abbrev clamp_fraction : ℤ → ℤ
clamp_fraction f = min_ℤ (of_ℤ (pos 1)) (max_ℤ (of_ℤ (pos 0)) f)

pub ≤ℤ_antisymm : (a b : ℤ) → a ≤ℤ b → b ≤ℤ a → a ≡ b
≤ℤ_antisymm a b h k = ground arith

zero-le-one : of_ℤ (pos 0) ≤ℤ of_ℤ (pos 1)
unfolding of_ℤ
zero-le-one = omega arith

module _ (lo hi : ℤ) (ordered : lo ≤ℤ hi) where
  clamp_mono : (f g : ℤ) → f ≤ℤ g → min_ℤ hi (max_ℤ lo f) ≤ℤ min_ℤ hi (max_ℤ lo g)
  clamp_mono f g h = ground arith

  clamp_bounds : (f : ℤ) → (lo ≤ℤ min_ℤ hi (max_ℤ lo f)) × (min_ℤ hi (max_ℤ lo f) ≤ℤ hi)
  clamp_bounds f = ground arith

  clamp-low : min_ℤ hi (max_ℤ lo lo) ≡ lo
  clamp-low = ≤ℤ_antisymm _ lo (ground arith) (clamp_bounds lo).0

  clamp-high : min_ℤ hi (max_ℤ lo hi) ≡ hi
  clamp-high = ≤ℤ_antisymm _ hi (clamp_bounds hi).1 (ground arith)

module _ (fl : Doubles) (ieee : IsIeee fl) where
  -- The value at a fraction that has been clamped.
  abbrev at_fraction : ℤ → ℤ
  at_fraction c = round (fl.add (of_ℤ gate_off_db) (fl.mul c (of_ℤ axis_width)))

  at_fraction_mono : (c d : ℤ) → c ≤ℤ d → at_fraction c ≤ℤ at_fraction d
  at_fraction_mono c d h =
      round_mono _ _ (ieee.add_mono (of_ℤ gate_off_db) _ _ (ieee.mul_mono c d 63 h))

  at_fraction-zero : at_fraction (of_ℤ (pos 0)) ≡ gate_off_db
  unfolding ◌+ℤ◌
  at_fraction-zero =
      rw
        (
          ieee.mul_zero 63 (omega arith),
          ieee.add_integers gate_off_db (pos 0) (omega arith) (omega arith) (omega arith),
        )
        (round-of_ℤ gate_off_db)

  at_fraction-one : at_fraction (of_ℤ (pos 1)) ≡ gate_max_db
  unfolding ◌+ℤ◌
  at_fraction-one =
      rw
        (
          ieee.mul_one 63 (omega arith),
          ieee.add_integers gate_off_db axis_width (omega arith) (omega arith) (omega arith),
        )
        (round-of_ℤ gate_max_db)

  -- Wherever the pointer is, the arc gives a threshold of the slider's range, which grows with the
  -- pointer's fraction; the ends of the arc give the ends of the range. The browser's arithmetic
  -- keeps the order and is exact on small integers.
  pub fraction_to_db_bounds :
      (f g : ℤ)
      → f ≤ℤ g
      → IsOnAxis (fraction_to_db fl f)
        × (fraction_to_db fl f ≤ℤ fraction_to_db fl g)
        × (fraction_to_db fl (of_ℤ (pos 0)) ≡ gate_off_db)
        × (fraction_to_db fl (of_ℤ (pos 1)) ≡ gate_max_db)
  unfolding fraction_to_db
  fraction_to_db_bounds f g h =
      let zero = of_ℤ (pos 0) in
      let one = of_ℤ (pos 1) in
      let (low, high) = clamp_bounds zero one zero-le-one f in
      (
        (
          subst (λ d. d ≤ℤ at_fraction (clamp_fraction f)) at_fraction-zero
              (at_fraction_mono _ _ low),
          subst (λ d. at_fraction (clamp_fraction f) ≤ℤ d) at_fraction-one
              (at_fraction_mono _ _ high),
        ),
        at_fraction_mono _ _ (clamp_mono zero one zero-le-one f g h),
        ap at_fraction (clamp-low zero one zero-le-one) ∙ at_fraction-zero,
        ap at_fraction (clamp-high zero one zero-le-one) ∙ at_fraction-one,
      )
