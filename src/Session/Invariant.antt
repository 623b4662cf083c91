-- ===== src/Session/Invariant.antt =====
-- What holds of a conversation between two turns of the event loop: the timers and the view.
pub mod Teardown
pub mod Turns
pub mod Runs
use speech_to_speech_k8s.Base.{
  ℕ, zero, suc, ◌≤◌, ◌<◌, ◌≡◌, refl, sym, ◌∙◌, ◌≢◌, inl, inr, Bool, true, false, not, ◌||◌, [], ◌∷◌,
  List, arith, if◌then◌else◌, ◌==◌, Bool-cases, ==_iff, ℤ, pos, negsuc,
}
use speech_to_speech_k8s.View.{
  View, AppState, is_disabled, is_live, is_your_turn, is_queued, is_connecting, show_state,
}
use speech_to_speech_k8s.Session.{Session, Interval}
use speech_to_speech_k8s.Session.Timers.{
  clear, stop_heartbeat, stop_countdown, start_heartbeat, start_countdown, set_left, tick_countdown,
}
use speech_to_speech_k8s.Session.Teardown.{set_state}

-- The variable holds the id of the one interval that runs, or 0 where none does.
abbrev pub IsOwned : ℕ → List Interval → Type 0
IsOwned t [] = t ≡ 0
IsOwned t ((i, x) ∷ []) = (0 < t) × (i ≡ t)
IsOwned t (_ ∷ _ ∷ _) = ⊥

-- No interval is lost or runs twice.
pub record Owned (hb cd last : ℕ) (bs cs : List Interval) : Type 0 where
  pub heartbeat : IsOwned hb bs
  pub countdown : IsOwned cd cs
  pub heartbeat_given : hb ≤ last
  pub countdown_given : cd ≤ last
  pub apart : hb ≡ cd → hb ≡ 0

-- The controls show the state.
pub record IsShown (st : AppState) (v : View) : Type 0 where
  pub circle : v.circle_disabled ≡ is_disabled st
  pub orb : v.orb_live ≡ is_live st
  pub call_buttons : v.call_buttons_hidden ≡ not (is_live st)
  pub queue : v.queue_hidden ≡ not (is_queued st || is_your_turn st)
  pub join : v.join_hidden ≡ not (is_your_turn st)
  pub leave : v.leave_hidden ≡ not (is_queued st || is_your_turn st)
  pub note : v.subcaption_hidden ≡ not (is_queued st)
  pub restart : v.restart_disabled ≡ (is_connecting st || is_queued st || is_your_turn st)

abbrev pub OwnsTimers : Session → Type 0
OwnsTimers s = Owned s.heartbeat_timer s.countdown_timer s.last_timer s.beats s.countdowns

abbrev pub Inv : Session → Type 0
Inv s = OwnsTimers s × IsShown s.state s.view

clear_own : (t : ℕ) (is : List Interval) → IsOwned t is → clear t is ≡ []
unfolding clear
clear_own t [] h = refl
clear_own t ((i, x) ∷ []) h = ground arith
clear_own t (_ ∷ _ ∷ _) h = absurd h

clear_other : (id t : ℕ) (is : List Interval) → id ≢ t → IsOwned t is → clear id is ≡ is
unfolding clear
clear_other id t [] n h = refl
clear_other id t ((i, x) ∷ []) n h = ground arith
clear_other id t (_ ∷ _ ∷ _) n h = absurd h

module _ {hb cd last : ℕ} {bs cs : List Interval} (v : Owned hb cd last bs cs) where
  heartbeat_stopped : hb ≢ 0 → Owned 0 cd last (clear hb bs) (clear hb cs)
  heartbeat_stopped n =
      let apart : hb ≢ cd = λ e. n (v.apart e) in
      rw (clear_own hb bs v.heartbeat, clear_other hb cd cs apart v.countdown)
        (record {
          heartbeat = refl;
          countdown = v.countdown;
          heartbeat_given = omega arith;
          countdown_given = v.countdown_given;
          apart = λ e. refl;
        })

  countdown_stopped : cd ≢ 0 → Owned hb 0 last (clear cd bs) (clear cd cs)
  countdown_stopped n =
      let apart : cd ≢ hb = λ e. n (e ∙ v.apart (sym e)) in
      rw (clear_own cd cs v.countdown, clear_other cd hb bs apart v.heartbeat)
        (record {
          heartbeat = v.heartbeat;
          countdown = refl;
          heartbeat_given = v.heartbeat_given;
          countdown_given = omega arith;
          apart = λ e. e;
        })

  pub heartbeat_none : hb ≡ 0 → bs ≡ []
  heartbeat_none e = go bs v.heartbeat
    where
      go : (is : List Interval) → IsOwned hb is → is ≡ []
      go [] h = refl
      go ((i, x) ∷ []) h = absurd (omega arith)
      go (_ ∷ _ ∷ _) h = absurd h

  pub countdown_none : cd ≡ 0 → cs ≡ []
  countdown_none e = go cs v.countdown
    where
      go : (is : List Interval) → IsOwned cd is → is ≡ []
      go [] h = refl
      go ((i, x) ∷ []) h = absurd (omega arith)
      go (_ ∷ _ ∷ _) h = absurd h

  heartbeat_started : (x : ℕ) → hb ≡ 0 → Owned (suc last) cd (suc last) ((suc last, x) ∷ bs) cs
  heartbeat_started x e = rw (heartbeat_none e) (record {
    heartbeat = (omega arith, refl);
    countdown = v.countdown;
    heartbeat_given = omega arith;
    countdown_given = omega (arith, v.countdown_given);
    apart = λ q. absurd (omega (arith, v.countdown_given));
  })

  countdown_started : (x : ℕ) → cd ≡ 0 → Owned hb (suc last) (suc last) bs ((suc last, x) ∷ cs)
  countdown_started x e = rw (countdown_none e) (record {
    heartbeat = v.heartbeat;
    countdown = (omega arith, refl);
    heartbeat_given = omega (arith, v.heartbeat_given);
    countdown_given = omega arith;
    apart = λ q. absurd (omega (arith, v.heartbeat_given));
  })

pub stop_heartbeat-OwnsTimers : (s : Session) → OwnsTimers s → OwnsTimers (stop_heartbeat s)
unfolding stop_heartbeat
stop_heartbeat-OwnsTimers s v = elim (Bool-cases (s.heartbeat_timer == 0)) [
  | inl e ↦ rw e v
  | inr e ↦ rw e (heartbeat_stopped v (λ q. ground arith))
]

pub stop_countdown-OwnsTimers : (s : Session) → OwnsTimers s → OwnsTimers (stop_countdown s)
unfolding stop_countdown
stop_countdown-OwnsTimers s v = elim (Bool-cases (s.countdown_timer == 0)) [
  | inl e ↦ rw e v
  | inr e ↦ rw e (countdown_stopped v (λ q. ground arith))
]

pub stop_heartbeat-zero : (s : Session) → (stop_heartbeat s).heartbeat_timer ≡ 0
unfolding stop_heartbeat
stop_heartbeat-zero s = ground arith

pub stop_countdown-zero : (s : Session) → (stop_countdown s).countdown_timer ≡ 0
unfolding stop_countdown
stop_countdown-zero s = ground arith

pub start_heartbeat-OwnsTimers :
    (sec : ℕ) (s : Session) → OwnsTimers s → OwnsTimers (start_heartbeat sec s)
unfolding start_heartbeat
start_heartbeat-OwnsTimers sec s v =
    heartbeat_started (stop_heartbeat-OwnsTimers s v) _ (stop_heartbeat-zero s)

pub start_countdown-OwnsTimers :
    (sec : ℕ) (s : Session) → OwnsTimers s → OwnsTimers (start_countdown sec s)
unfolding start_countdown
start_countdown-OwnsTimers sec s v =
    countdown_started (stop_countdown-OwnsTimers s v) sec (stop_countdown-zero s)
