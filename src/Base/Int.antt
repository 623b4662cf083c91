-- ===== src/Base/Int.antt =====
-- Signed integers over the native numbers, under the library's names, and the rounding of a
-- JavaScript number. A finite double is an integer number of units of 2 ^ -1074, exactly.
use Prim.Native.Nat.{ℕ, zero, suc, ◌+◌, ◌-◌, ◌*◌, ◌/◌, ◌^◌, ◌≤◌, ◌<◌}
use mathlib.Core.Path.{◌≡◌}
use mathlib.Core.Bool.{Bool}
use native.Mathlib.Omega.{arith}
use native.Mathlib.Nat.{le-div_iff_mul-le, div-mul-le_self}
use speech_to_speech_k8s.Base.Tests.{ltb, leb, if◌then◌else◌}

-- `negsuc n` is -(n + 1).
pub data ℤ : Type 0 where
  pos : ℕ → ℤ
  negsuc : ℕ → ℤ

abbrev pub pos_part : ℤ → ℕ
pos_part (pos n) = n
pos_part (negsuc n) = 0

abbrev pub neg_part : ℤ → ℕ
neg_part (pos n) = 0
neg_part (negsuc n) = suc n

-- a - b, as an integer.
abbrev pub sub_ℕ : ℕ → ℕ → ℤ
sub_ℕ a b = if leb b a then pos (a - b) else negsuc (b - a - 1)

infixl 65 ◌+ℤ◌
infix 50 ◌≤ℤ◌
unfoldable pub ◌+ℤ◌ : ℤ → ℤ → ℤ
a +ℤ b = sub_ℕ (pos_part a + pos_part b) (neg_part a + neg_part b)

abbrev pub ◌≤ℤ◌ : ℤ → ℤ → Type 0
a ≤ℤ b = pos_part a + neg_part b ≤ pos_part b + neg_part a

abbrev pub ltb_ℤ : ℤ → ℤ → Bool
ltb_ℤ a b = ltb (pos_part a + neg_part b) (pos_part b + neg_part a)

abbrev pub leb_ℤ : ℤ → ℤ → Bool
leb_ℤ a b = leb (pos_part a + neg_part b) (pos_part b + neg_part a)

-- Math.min and Math.max on integers.
abbrev pub min_ℤ : ℤ → ℤ → ℤ
min_ℤ a b = if leb_ℤ a b then a else b

abbrev pub max_ℤ : ℤ → ℤ → ℤ
max_ℤ a b = if leb_ℤ a b then b else a

-- A value of type `number`; a finite one is given in units of 2 ^ -1074.
pub data Num : Type 0 where
  nan : Num
  infinite : Num
  finite : ℤ → Num

-- How many units make 1.
unfoldable pub unit : ℕ
unit = 2 ^ 1074

-- The greatest integer that is at most m / d.
unfoldable pub floor_div : ℤ → ℕ → ℤ
floor_div (pos n) d = pos (n / d)
floor_div (negsuc n) d = negsuc (n / d)

-- Math.round: the integer nearest to the value, a tie going up.
unfoldable pub round : ℤ → ℤ
unfolding floor_div ◌+ℤ◌ unit
round m = floor_div (m +ℤ pos (unit / 2)) unit

-- The double of an integer.
unfoldable pub of_ℤ : ℤ → ℤ
unfolding unit
of_ℤ (pos n) = pos (n * unit)
of_ℤ (negsuc n) = negsuc (suc n * unit - 1)

-- An integer is its own nearest integer.
pub round-of_ℤ : (n : ℤ) → round (of_ℤ n) ≡ n
unfolding round of_ℤ
round-of_ℤ (pos n) = ground arith
round-of_ℤ (negsuc n) = ground arith

div_mono : (n m d : ℕ) → 0 < d → n ≤ m → n / d ≤ m / d
div_mono n m d positive h = (le-div_iff_mul-le positive).1 (omega (arith, div-mul-le_self n d))

pub floor_div_mono : (a b : ℤ) (d : ℕ) → 0 < d → a ≤ℤ b → floor_div a d ≤ℤ floor_div b d
unfolding floor_div
floor_div_mono (pos n) (pos m) d p h = omega (arith, div_mono n m d p (omega arith))
floor_div_mono (pos n) (negsuc m) d p h = absurd (omega arith)
floor_div_mono (negsuc n) (pos m) d p h = omega arith
floor_div_mono (negsuc n) (negsuc m) d p h = omega (arith, div_mono m n d p (omega arith))

pub +ℤ_parts :
    (a b : ℤ)
    → pos_part (a +ℤ b) + neg_part a + neg_part b ≡ neg_part (a +ℤ b) + pos_part a + pos_part b
unfolding ◌+ℤ◌
+ℤ_parts a b = ground arith

pub unit_pos : 0 < unit
unfolding unit
unit_pos = omega arith

-- Rounding keeps the order.
pub round_mono : (a b : ℤ) → a ≤ℤ b → round a ≤ℤ round b
unfolding round
round_mono a b h =
    floor_div_mono (a +ℤ pos (unit / 2)) (b +ℤ pos (unit / 2)) unit unit_pos
      (omega (arith, +ℤ_parts a (pos (unit / 2)), +ℤ_parts b (pos (unit / 2))))

abbrev pub negate : ℤ → ℤ
negate (pos zero) = pos 0
negate (pos (suc n)) = negsuc n
negate (negsuc n) = pos (suc n)

-- a * n, as an integer.
unfoldable pub times : ℤ → ℕ → ℤ
times (pos a) n = pos (a * n)
times (negsuc a) n = sub_ℕ 0 (suc a * n)

pub times_parts :
    (a : ℤ) (n : ℕ) → pos_part (times a n) + neg_part a * n ≡ neg_part (times a n) + pos_part a * n
unfolding times
times_parts (pos a) n = ground arith
times_parts (negsuc a) n = ground arith

-- The two differ by e at most.
abbrev pub Near : ℤ → ℤ → ℕ → Type 0
Near x y e =
    (pos_part x + neg_part y ≤ pos_part y + neg_part x + e)
    × (pos_part y + neg_part x ≤ pos_part x + neg_part y + e)

-- A double that is nearer to an integer than half a unit rounds to it.
pub round-Near : (x n : ℤ) (e : ℕ) → Near x (of_ℤ n) e → e * 2 < unit → round x ≡ n
unfolding round floor_div ◌+ℤ◌ unit of_ℤ
round-Near x (pos n) e h k = ground arith
round-Near x (negsuc n) e h k = ground arith

pub Near-trans : (x y z : ℤ) (a b c : ℕ) → Near x y a → Near y z b → a + b ≤ c → Near x z c
Near-trans x y z a b c h k l = omega arith

-- What is near to something small is small.
pub Near-small :
    (x y : ℤ) (e b : ℕ) → Near x y e → pos_part y + neg_part y + e ≤ b → pos_part x + neg_part x ≤ b
Near-small (pos n) y e b h k = omega arith
Near-small (negsuc n) y e b h k = omega arith

pub Near-add : (c x y : ℤ) (e : ℕ) → Near x y e → Near (c +ℤ x) (c +ℤ y) e
Near-add c x y e h = omega (arith, +ℤ_parts c x, +ℤ_parts c y)

pub +ℤ_size :
    (a b : ℤ)
    → pos_part (a +ℤ b) + neg_part (a +ℤ b) ≤ pos_part a + neg_part a + (pos_part b + neg_part b)
unfolding ◌+ℤ◌
+ℤ_size a b = ground arith
