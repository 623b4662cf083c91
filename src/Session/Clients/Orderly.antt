-- ===== src/Session/Clients/Orderly.antt =====
-- Which clients of demo/main.js are closed while conversations follow one another.
use mathlib.Core.Option.{some-injective}
use speech_to_speech_k8s.Base.{
  ap, ◌∙◌, ℕ, suc, ◌<◌, ◌≤◌, ◌≡◌, ◌⊎◌, sym, subst, inl, inr, Bool, Option, some, List, ◌∷◌, ◌==◌,
  if◌then◌else◌, arith, Bool-cases,
}
use speech_to_speech_k8s.Session.{Effect, set_muted, join, close}
use speech_to_speech_k8s.Session.Clients.{Clients, Asks, joins, closes, IsSteady, IsUndialled}
use speech_to_speech_k8s.Session.Clients.Lost.{closings}

-- The first n clients have been closed.
abbrev pub AreClosed : ℕ → List Effect → Type 0
AreClosed n log = (k : ℕ) → k < n → 0 < closings k log

abbrev pub IsSpent : Clients → Type 0
IsSpent (n, _, log, _, _) = AreClosed n log

-- All but the last one are, which the page holds while no start or teardown waits.
abbrev pub IsCalling : Clients → Type 0
IsCalling (n, o, log, _, j) = (c : ℕ) × (n ≡ suc c) × (o ≡ some c) × AreClosed c log × (j ≡ 0)

-- No client is lost.
abbrev pub IsOrderly : Clients → Type 0
IsOrderly x = IsSpent x ⊎ IsCalling x

closings_grow : (k : ℕ) (e : Effect) (log : List Effect) → closings k log ≤ closings k (e ∷ log)
closings_grow k (close c) log = omega arith
closings_grow k _ log = omega arith

pub grow-AreClosed :
    (n : ℕ) (e : Effect) (log : List Effect) → AreClosed n log → AreClosed n (e ∷ log)
grow-AreClosed n e log v = λ k lt. let h = v k lt in let g = closings_grow k e log in omega arith

pub IsSpent-IsUndialled : IsUndialled IsSpent
IsSpent-IsUndialled = record {
  steady = record {
    other = λ e q v. grow-AreClosed _ e _ v;
    told = λ {e = e} a q v. grow-AreClosed _ e _ v;
    muted = λ {c = c} {log = log} now q v. grow-AreClosed _ (set_muted c now) log v;
    unheld = λ now q v. v;
    fewer = λ i l v. v;
  };
  gone = λ now v. v;
  asked = λ v. v;
}

close-AreClosed : (c : ℕ) (log : List Effect) → AreClosed c log → AreClosed (suc c) (close c ∷ log)
close-AreClosed c log v = λ k lt. elim (Bool-cases (c == k)) [
  | inl e ↦ ground arith
  | inr e ↦ let h = v k (grind arith) in ground arith
]

told-IsOrderly :
    (n j : ℕ) (o : Option ℕ) (log : List Effect) (m : Bool) {c : ℕ} {w : Bool} {e : Effect}
    → Asks e c w
    → o ≡ some c
    → IsOrderly (n, o, log, m, j)
    → IsOrderly (n, o, e ∷ log, m, (if w then suc j else j))
told-IsOrderly n j o log m {e = e} a q (inl v) = inl (grow-AreClosed n e log v)
told-IsOrderly n j o log m (joins c) q (inr (k, e, h, v, z)) =
    inr (k, e, h, grow-AreClosed k (join c) log v, z)
told-IsOrderly n j o log m (closes c) q (inr (k, e, h, v, z)) =
    let same : k ≡ c = some-injective k c (sym h ∙ q) in
    inl (
      subst (λ i. AreClosed i (close c ∷ log)) (sym (e ∙ ap suc same))
        (close-AreClosed c log (subst (λ i. AreClosed i log) same v)))

pub IsOrderly-IsSteady : IsSteady IsOrderly
IsOrderly-IsSteady = record {
  other = λ {log = log} e q v. elim v [
    | inl h ↦ inl (grow-AreClosed _ e log h)
    | inr (k, p, h, w, z) ↦ inr (k, p, h, grow-AreClosed k e log w, z)
  ];
  told = λ {m = m} a q v. told-IsOrderly _ _ _ _ m a q v;
  muted = λ {c = c} {log = log} now q v. elim v [
    | inl h ↦ inl (grow-AreClosed _ (set_muted c now) log h)
    | inr (k, p, h, w, z) ↦ inr (k, p, h, grow-AreClosed k (set_muted c now) log w, z)
  ];
  unheld = λ now q v. v;
  fewer = λ i l v. elim v [ inl h ↦ inl h | inr (k, p, h, w, z) ↦ inr (k, p, h, w, omega arith) ];
}
