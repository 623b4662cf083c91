-- ===== src/Session/Countdown.antt =====
-- demo/main.js, the countdown of a held place: how many rounds it runs.
use speech_to_speech_k8s.Base.{
  ℕ, zero, suc, ◌-◌, ◌≤◌, ◌<◌, ◌≡◌, refl, sym, subst, ◌⊎◌, inl, inr, List, [], ◌∷◌, arith, Num,
  Text,
}
use speech_to_speech_k8s.Connection.Url.{UrlApi}
use speech_to_speech_k8s.View.{join_label_of}
use speech_to_speech_k8s.Session.{Session}
use speech_to_speech_k8s.Session.Timers.{
  clear, stop_countdown, start_countdown, set_left, tick_countdown,
}
use speech_to_speech_k8s.Session.Events.{Event, second_over, on_second}
use speech_to_speech_k8s.Session.Step.{step, run}
use speech_to_speech_k8s.Session.Invariant.{
  OwnsTimers, stop_countdown-OwnsTimers, stop_countdown-zero, countdown_none,
}

-- One countdown runs, under the id that the variable holds, and the button shows what is left.
pub record IsCounting (left : ℕ) (s : Session) : Type 0 where
  pub running : s.countdowns ≡ (s.countdown_timer, left) ∷ []
  pub given : 0 < s.countdown_timer
  pub label : s.view.join_label ≡ join_label_of left

-- None runs, and the button shows no seconds.
pub record IsOver (s : Session) : Type 0 where
  pub running : s.countdowns ≡ []
  pub cleared : s.countdown_timer ≡ 0
  pub label : s.view.join_label ≡ join_label_of 0

abbrev pub seconds : ℕ → List Event
seconds zero = []
seconds (suc n) = second_over ∷ seconds n

-- A countdown of no seconds still takes one round to find that it is over.
abbrev pub rounds : ℕ → ℕ
rounds zero = 1
rounds (suc n) = suc n

tick_more :
    (id left : ℕ) (s : Session)
    → 1 < left
    → s.countdown_timer ≡ id
    → 0 < id
    → s.countdowns ≡ (id, left) ∷ []
    → IsCounting (left - 1) (tick_countdown id left s)
unfolding tick_countdown set_left
tick_more id left s more e pos run = ground arith

tick_last :
    (id left : ℕ) (s : Session)
    → left ≤ 1
    → s.countdown_timer ≡ id
    → 0 < id
    → s.countdowns ≡ (id, left) ∷ []
    → IsOver (tick_countdown id left s)
unfolding tick_countdown set_left stop_countdown clear
tick_last id left s last e pos run = ground arith

-- One second.
second-IsCounting :
    (k : ℕ) (s : Session)
    → IsCounting (suc (suc k)) s
    → IsCounting (suc k) (on_second s.countdowns s)
unfolding on_second
second-IsCounting k s v =
    let t = tick_more s.countdown_timer (suc (suc k)) s (omega arith) refl v.given v.running in
    subst (λ is. IsCounting (suc k) (on_second is s)) (sym v.running)
      (subst (λ m. IsCounting m (tick_countdown s.countdown_timer (suc (suc k)) s)) (omega arith) t)

second-IsOver :
    (left : ℕ) (s : Session) → left ≤ 1 → IsCounting left s → IsOver (on_second s.countdowns s)
unfolding on_second
second-IsOver left s last v =
    subst (λ is. IsOver (on_second is s)) (sym v.running)
      (tick_last s.countdown_timer left s last refl v.given v.running)

-- A second with no countdown changes nothing.
second_idle : (s : Session) → IsOver s → on_second s.countdowns s ≡ s
unfolding on_second
second_idle s v = subst (λ is. on_second is s ≡ s) (sym v.running) refl

start_countdown-IsCounting :
    (sec : ℕ) (s : Session) → OwnsTimers s → IsCounting sec (start_countdown sec s)
unfolding start_countdown
start_countdown-IsCounting sec s v =
    let none_runs = countdown_none (stop_countdown-OwnsTimers s v) (stop_countdown-zero s) in
    record { running = rw none_runs refl; given = omega arith; label = refl }

module _ (api : UrlApi) (number : Text → Num) (truncate : Text → Text) where
  seconds-IsOver : (n : ℕ) (s : Session) → IsOver s → IsOver (run api number truncate s (seconds n))
  unfolding run step
  seconds-IsOver zero s v = v
  seconds-IsOver (suc n) s v =
      subst (λ t. IsOver (run api number truncate t (seconds n))) (sym (second_idle s v))
        (seconds-IsOver n s v)

  -- After n seconds of a countdown from `left`.
  abbrev pub After : ℕ → ℕ → Session → Type 0
  After left n s = ((n < rounds left) × IsCounting (left - n) s) ⊎ ((rounds left ≤ n) × IsOver s)

  later-After : (k n : ℕ) (t : Session) → After (suc k) n t → After (suc (suc k)) (suc n) t
  later-After k n t (inl (p, c)) = inl (omega arith, subst (λ m. IsCounting m t) (omega arith) c)
  later-After k n t (inr (p, c)) = inr (omega arith, c)

  counting-After :
      (n left : ℕ) (s : Session)
      → IsCounting left s
      → After left n (run api number truncate s (seconds n))
  unfolding run step
  counting-After zero zero s v = inl (omega arith, v)
  counting-After zero (suc k) s v = inl (omega arith, subst (λ m. IsCounting m s) (omega arith) v)
  counting-After (suc n) zero s v =
      inr (omega arith, seconds-IsOver n _ (second-IsOver 0 s (omega arith) v))
  counting-After (suc n) (suc zero) s v =
      inr (omega arith, seconds-IsOver n _ (second-IsOver 1 s (omega arith) v))
  counting-After (suc n) (suc (suc k)) s v =
      later-After k n _ (counting-After n (suc k) _ (second-IsCounting k s v))

  -- A countdown of `sec` seconds runs for exactly `sec` rounds, and one of 0 seconds for one: before
  -- that it is the one countdown that runs and the button shows the seconds left; from then on none
  -- runs and the button shows none. The timers are in order, and nothing else happens meanwhile.
  pub start_countdown-After :
      (sec n : ℕ) (s : Session)
      → OwnsTimers s
      → After sec n (run api number truncate (start_countdown sec s) (seconds n))
  start_countdown-After sec n s v =
      counting-After n sec (start_countdown sec s) (start_countdown-IsCounting sec s v)
