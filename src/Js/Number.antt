-- ===== src/Js/Number.antt =====
-- String(n) for an integer n.
use speech_to_speech_k8s.Base.{
  ℕ, zero, suc, ◌+◌, ◌/◌, ◌%◌, ◌∷◌, [], ltb, if◌then◌else◌, ℤ, pos, negsuc, Text,
}

-- The decimal digits, the last one first found.
digits_from : ℕ → ℕ → Text → Text
digits_from zero n acc = acc
digits_from (suc f) n acc =
    let rest = digits_from f (n / 10) ((48 + n % 10) ∷ acc) in
    if ltb n 10 then (48 + n) ∷ acc else rest

-- A number has fewer digits than its value plus one.
unfoldable pub show_nat : ℕ → Text
unfolding digits_from
show_nat n = digits_from (suc n) n []

unfoldable pub show_int : ℤ → Text
unfolding show_nat
show_int (pos n) = show_nat n
show_int (negsuc n) = b'-' ∷ show_nat (suc n)
