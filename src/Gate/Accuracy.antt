-- ===== src/Gate/Accuracy.antt =====
-- demo/main.js, the axis of the noise gate in double arithmetic: what is relied on of it, and the
-- exact sums and products that it comes near to.
use speech_to_speech_k8s.Base.{
  ℕ, ◌+◌, ◌-◌, ◌*◌, ◌^◌, ◌<◌, ◌≤◌, ◌≡◌, arith, ℤ, pos, negsuc, pos_part, neg_part, ◌+ℤ◌, +ℤ_parts,
  min_ℤ, max_ℤ, times, times_parts, Near, of_ℤ, unit,
}
use speech_to_speech_k8s.Settings.{gate_off_db, gate_max_db}
use speech_to_speech_k8s.Settings.Roundtrip.{IsOnAxis}
use speech_to_speech_k8s.Gate.{Doubles}

-- 1024, and 2 ^ -40, in units of 2 ^ -1074.
abbrev pub IsSmall : ℤ → Type 0
IsSmall a = pos_part a + neg_part a ≤ 2 ^ 1084

abbrev pub tolerance : ℕ
tolerance = 2 ^ 1034

-- The precision of double arithmetic that is relied on: on numbers up to 1024, a result is at most
-- 2 ^ -40 away from the exact one.
pub record IsAccurate (fl : Doubles) : Type 0 where
  pub add_near : (a b : ℤ) → IsSmall a → IsSmall b → Near (fl.add a b) (a +ℤ b) tolerance
  pub mul_near :
      (a : ℤ) (n : ℕ)
      → IsSmall a
      → n ≤ 1024
      → IsSmall (times a n)
      → Near (fl.mul a (of_ℤ (pos n))) (times a n) tolerance
  pub div_near :
      (a : ℤ) (n : ℕ)
      → IsSmall a
      → 0 < n
      → n ≤ 1024
      → Near (times (fl.div a (of_ℤ (pos n))) n) a (n * tolerance)

-- A degree and a half.
abbrev pub reach : ℕ
reach = 3 * 2 ^ 1073

pub axis_range : (m : ℕ) → IsOnAxis (negsuc m) → (2 ≤ m) × (m ≤ 65)
axis_range m h = omega arith

pub clamp_on_axis :
    (m : ℕ)
    → 2 ≤ m
    → m ≤ 65
    → min_ℤ (of_ℤ gate_max_db) (max_ℤ (of_ℤ gate_off_db) (of_ℤ (negsuc m))) ≡ of_ℤ (negsuc m)
unfolding of_ℤ unit
clamp_on_axis m h k = ground arith

-- A fraction that is not far from d / 63 stays so when it is clamped.
pub clamp-Near :
    (z : ℤ) (d e : ℕ)
    → d ≤ 63
    → Near (times z 63) (of_ℤ (pos d)) e
    → Near (times (min_ℤ (of_ℤ (pos 1)) (max_ℤ (of_ℤ (pos 0)) z)) 63) (of_ℤ (pos d)) e
unfolding of_ℤ unit times
clamp-Near (pos z) d e h k = ground arith
clamp-Near (negsuc z) d e h k = ground arith

pub clamp-IsSmall : (z : ℤ) → IsSmall (min_ℤ (of_ℤ (pos 1)) (max_ℤ (of_ℤ (pos 0)) z))
unfolding of_ℤ unit
clamp-IsSmall z = ground arith

-- The sums and products of the axis, exactly.
pub off_exact :
    (m : ℕ) → 2 ≤ m → m ≤ 65 → Near (of_ℤ (negsuc m) +ℤ of_ℤ (pos 66)) (of_ℤ (pos (65 - m))) 0
unfolding of_ℤ unit
off_exact m h k = omega (arith, +ℤ_parts (of_ℤ (negsuc m)) (of_ℤ (pos 66)))

pub scaled-IsSmall :
    (f : ℤ) (d : ℕ)
    → d ≤ 63
    → Near (times f 63) (of_ℤ (pos d)) (64 * tolerance)
    → IsSmall f × (pos_part (times f 200) + neg_part (times f 200) ≤ 2 ^ 1083)
unfolding of_ℤ unit times
scaled-IsSmall (pos f) d h v = omega arith
scaled-IsSmall (negsuc f) d h v = ground arith

pub back_exact : (t : ℤ) → Near (of_ℤ (negsuc 79) +ℤ (of_ℤ (pos 80) +ℤ t)) t 0
unfolding of_ℤ unit
back_exact t =
    omega (arith, +ℤ_parts (of_ℤ (negsuc 79)) (of_ℤ (pos 80) +ℤ t), +ℤ_parts (of_ℤ (pos 80)) t)

-- What is left of half a step of the axis.
abbrev pub slack : ℕ
slack = 2 ^ 1073 - 2 ^ 1040

-- From 200 parts back to 63.
pub scaled_back :
    (z f : ℤ) (d : ℕ)
    → Near (times z 200) (times f 200) (reach + 203 * tolerance)
    → Near (times f 63) (of_ℤ (pos d)) (64 * tolerance)
    → Near (times z 63) (of_ℤ (pos d)) slack
scaled_back z f d h k =
    omega (arith, times_parts z 200, times_parts f 200, times_parts z 63, times_parts f 63)

pub db_exact :
    (m : ℕ) → 2 ≤ m → m ≤ 65 → Near (of_ℤ gate_off_db +ℤ of_ℤ (pos (65 - m))) (of_ℤ (negsuc m)) 0
unfolding of_ℤ unit
db_exact m h k = omega (arith, +ℤ_parts (of_ℤ gate_off_db) (of_ℤ (pos (65 - m))))
