-- ===== src/Js/Trim.antt =====
-- The laws of `trim`.
use speech_to_speech_k8s.Base.{
  ℕ, ◌≡◌, refl, sym, ap, ◌∙◌, ◌⊎◌, inl, inr, false, [], ◌∷◌, arith, Bool-cases, Text, is_space,
  trim_start, trim_end, trim, keep_unit,
}

-- What is left begins with no space.
trim_start_cases :
    (s : Text)
    → (trim_start s ≡ []) ⊎ ((c : ℕ) × (t : Text) × (trim_start s ≡ c ∷ t) × (is_space c ≡ false))
unfolding trim_start
trim_start_cases [] = inl refl
trim_start_cases (c ∷ s) = elim (Bool-cases (is_space c)) [
  | inl e ↦ rw e (trim_start_cases s)
  | inr e ↦ rw e (inr (c, s, refl, e))
]

keep_unit_solid : (c : ℕ) (t : Text) → is_space c ≡ false → keep_unit c t ≡ c ∷ t
keep_unit_solid c [] h = rw h
keep_unit_solid c (d ∷ t) h = refl

trim_end-keep_unit : (c : ℕ) (t : Text) → trim_end t ≡ t → trim_end (keep_unit c t) ≡ keep_unit c t
unfolding trim_end
trim_end-keep_unit c [] h = ground arith
trim_end-keep_unit c (d ∷ t) h = rw h

trim_end_idem : (s : Text) → trim_end (trim_end s) ≡ trim_end s
unfolding trim_end
trim_end_idem [] = refl
trim_end_idem (c ∷ s) = trim_end-keep_unit c (trim_end s) (trim_end_idem s)

trim_start_solid : (c : ℕ) (t : Text) → is_space c ≡ false → trim_start (c ∷ t) ≡ c ∷ t
unfolding trim_start
trim_start_solid c t h = rw h

trim_end_solid : (c : ℕ) (t : Text) → is_space c ≡ false → trim_end (c ∷ t) ≡ c ∷ trim_end t
unfolding trim_end
trim_end_solid c t h = keep_unit_solid c (trim_end t) h

pub trim-nil : trim [] ≡ []
unfolding trim
trim-nil = refl

-- Trimmed text is empty, or begins with no space and is its own trimmed end.
trim_cases :
    (s : Text)
    → (trim s ≡ []) ⊎ ((c : ℕ) × (t : Text) × (trim s ≡ c ∷ trim_end t) × (is_space c ≡ false))
unfolding trim
trim_cases s = elim (trim_start_cases s) [
  | inl e ↦ inl (rw e)
  | inr (c, t, e, solid) ↦ inr (c, t, ap trim_end e ∙ trim_end_solid c t solid, solid)
]

trim_solid : (c : ℕ) (t : Text) → is_space c ≡ false → trim (c ∷ trim_end t) ≡ c ∷ trim_end t
unfolding trim
trim_solid c t h =
    ap trim_end (trim_start_solid c (trim_end t) h)
    ∙ trim_end_solid c (trim_end t) h
    ∙ ap (c ∷◌) (trim_end_idem t)

pub trim_idem : (s : Text) → trim (trim s) ≡ trim s
trim_idem s = elim (trim_cases s) [
  | inl e ↦ ap trim e ∙ trim-nil ∙ sym e
  | inr (c, t, e, solid) ↦ ap trim e ∙ trim_solid c t solid ∙ sym e
]
