-- ===== src/Session/Clients/InTurn.antt =====
-- demo/main.js: conversations that start and end one after the other, in every run.
use mathlib.Core.Option.{some-injective}
use speech_to_speech_k8s.Base.{
  ap, ◌∙◌, ℕ, zero, suc, ◌≤◌, ◌≡◌, refl, sym, subst, inl, inr, Bool, true, false, not, ◌&&◌, Option,
  none, some, List, [], ◌∷◌, leb, arith, Bool-cases, Num, Text,
}
use speech_to_speech_k8s.Settings.{Settings, Storage, Transport}
use speech_to_speech_k8s.Connection.{Config, Target}
use speech_to_speech_k8s.Connection.Url.{UrlApi}
use speech_to_speech_k8s.Tools.{Switches}
use speech_to_speech_k8s.View.{View, idle}
use speech_to_speech_k8s.Session.{Session, Task, priming, connecting_client}
use speech_to_speech_k8s.Session.Start.{dial}
use speech_to_speech_k8s.Session.Events.{Event, tap, restart, resume, Answer, prime_answer}
use speech_to_speech_k8s.Session.Step.{
  task_at, without, can_start, save_form, restart_with, on_tap, step, run,
}
use speech_to_speech_k8s.Session.Boot.{loaded, boot}
use speech_to_speech_k8s.Session.Clients.Ends.{set_state-Holds}
use speech_to_speech_k8s.Session.Clients.{clients, is_job, jobs, jobs-append, Holds}
use speech_to_speech_k8s.Session.Clients.Runs.{
  dials, waits_for_job, listen-Holds, continue_other-Holds, restart_held-Holds, resume-Holds,
  on_restart-Holds, on_tap-Holds, restart_with-Holds, continue_undialled-Holds,
}
use speech_to_speech_k8s.Session.Clients.Lost.{primed_dials}
use speech_to_speech_k8s.Session.Clients.Orderly.{
  IsSpent, IsOrderly, IsSpent-IsUndialled, IsOrderly-IsSteady,
}

job_left :
    (n : ℕ) (ts : List Task) (t : Task)
    → task_at n ts ≡ some t
    → is_job t ≡ true
    → suc (jobs (without n ts)) ≡ jobs ts
unfolding task_at without
job_left n [] t e h = absurd (ground arith)
job_left zero (u ∷ ts) t e h = rw (ap is_job (some-injective u t e) ∙ h) (omega arith)
job_left (suc n) (u ∷ ts) t e h = let rest = job_left n ts t e h in omega arith

no_job : (n : ℕ) (ts : List Task) → jobs ts ≡ 0 → waits_for_job (task_at n ts) ≡ false
unfolding task_at
no_job n [] z = refl
no_job zero (t ∷ ts) z = ground arith
no_job (suc n) (t ∷ ts) z = no_job n ts (omega arith)

dials_parts :
    (t : Option Task) (a : Answer)
    → dials t a ≡ true
    → (g : Option Target) × (k : Transport) × (b : Bool) × (t ≡ some (priming g k b))
      × (a ≡ prime_answer none)
dials_parts (some (priming g k b)) (prime_answer none) h = (g, k, b, refl, refl)
dials_parts t a h = absurd (ground arith)

abbrev pub is_tap : Event → Bool
is_tap (tap _) = true
is_tap _ = false

abbrev pub has_client : Option ℕ → Bool
has_client none = false
has_client (some c) = true

-- No more than one start or teardown waits, and a tap that may start a call finds no client.
abbrev pub in_turn : Session → Event → Bool
in_turn s e = leb (jobs s.pending) 1 && not (is_tap e && can_start s.state && has_client s.client)

and_parts : (a b : Bool) → a && b ≡ true → (a ≡ true) × (b ≡ true)
and_parts a b h = ground arith

few : (s : Session) (e : Event) → in_turn s e ≡ true → jobs s.pending ≤ 1
few s e h = let (h, tapped) = and_parts (leb (jobs s.pending) 1) _ h in ground arith

module _ (api : UrlApi) (number : Text → Num) (truncate : Text → Text) where
  abbrev next : Session → Event → Session
  next s e = step api number truncate s e

  -- A new client, while no other start or teardown waits.
  dialled-IsOrderly :
      (s : Session) (n : ℕ) (g : Option Target) (k : Transport) (b : Bool)
      → jobs s.pending ≤ 1
      → task_at n s.pending ≡ some (priming g k b)
      → Holds IsSpent s
      → Holds IsOrderly (dial g k b (record s { pending = without n s.pending }))
  dialled-IsOrderly s n g k b few at v =
      let left = job_left n s.pending (priming g k b) at refl in
      inr (
        s.made,
        refl,
        refl,
        v,
        jobs-append (without n s.pending) (connecting_client s.made b) ∙ omega arith,
      )

  -- From a page whose clients are all closed.
  spent-IsOrderly :
      (e : Event) (s : Session) → jobs s.pending ≤ 1 → Holds IsSpent s → Holds IsOrderly (next s e)
  unfolding step
  spent-IsOrderly (tap audio) s few v =
      inl (on_tap-Holds api number truncate IsSpent-IsUndialled audio s v)
  spent-IsOrderly (restart audio f) s few v =
      let saved = save_form api number truncate f s in
      inl (
        on_restart-Holds api number truncate IsSpent-IsUndialled.steady audio f s
          (λ w.
            restart_with-Holds api number truncate IsSpent-IsUndialled s.client audio saved refl w)
          v)
  spent-IsOrderly (resume n a) s few v = elim (Bool-cases (dials (task_at n s.pending) a)) [
    | inl h ↦
        (let (g, k, b, p, q) = dials_parts (task_at n s.pending) a h in
          subst (λ x. Holds IsOrderly (next s (resume n x))) (sym q)
            (subst (λ x. Holds IsOrderly x) (sym (primed_dials api number truncate s n g k b p))
              (dialled-IsOrderly s n g k b few p v)))
    | inr h ↦ inl (
        resume-Holds api number truncate IsSpent-IsUndialled.steady n a s
          (λ w.
            continue_undialled-Holds api number truncate IsSpent-IsUndialled (task_at n s.pending) a
              _ h w)
          v)
  ]
  spent-IsOrderly e s few v =
      inl (listen-Holds api number truncate IsSpent-IsUndialled.steady e s refl v)

  restart_held :
      (o : Option ℕ) (c : ℕ) (audio : Bool) (s : Session)
      → o ≡ some c
      → s.client ≡ some c
      → Holds IsOrderly s
      → Holds IsOrderly (restart_with api number truncate o audio s)
  restart_held none c audio s q held v = absurd cc
  restart_held (some k) c audio s q held v =
      restart_held-Holds api number truncate IsOrderly-IsSteady k audio s (held ∙ sym q) v

  -- From a page with a client, while no start or teardown waits.
  calling-IsOrderly :
      (e : Event) (s : Session) (c : ℕ)
      → in_turn s e ≡ true
      → s.client ≡ some c
      → jobs s.pending ≡ 0
      → Holds IsOrderly s
      → Holds IsOrderly (next s e)
  unfolding step on_tap
  calling-IsOrderly (tap audio) s c turn held z v = elim (Bool-cases (can_start s.state)) [
    | inl h ↦ absurd (let turned = rw (h, held) at turn in ground arith)
    | inr h ↦ rw h v
  ]
  calling-IsOrderly (restart audio f) s c turn held z v =
      on_restart-Holds api number truncate IsOrderly-IsSteady audio f s
        (λ w. restart_held s.client c audio (save_form api number truncate f s) held held w) v
  calling-IsOrderly (resume n a) s c turn held z v =
      resume-Holds api number truncate IsOrderly-IsSteady n a s
        (λ w.
          continue_other-Holds api number truncate IsOrderly-IsSteady (task_at n s.pending) a _
            (no_job n s.pending z) w)
        v
  calling-IsOrderly e s c turn held z v =
      listen-Holds api number truncate IsOrderly-IsSteady e s refl v

  step-IsOrderly :
      (e : Event) (s : Session)
      → in_turn s e ≡ true
      → Holds IsOrderly s
      → Holds IsOrderly (next s e)
  step-IsOrderly e s turn (inl v) = spent-IsOrderly e s (few s e turn) v
  step-IsOrderly e s turn (inr (c, n, held, v, z)) =
      calling-IsOrderly e s c turn held z (inr (c, n, held, v, z))

  -- Each event of the run is in turn.
  abbrev pub all_in_turn : Session → List Event → Bool
  all_in_turn s [] = true
  all_in_turn s (e ∷ es) = in_turn s e && all_in_turn (next s e) es

  run_from-IsOrderly :
      (es : List Event) (s : Session)
      → all_in_turn s es ≡ true
      → Holds IsOrderly s
      → Holds IsOrderly (run api number truncate s es)
  unfolding run
  run_from-IsOrderly [] s h v = v
  run_from-IsOrderly (e ∷ es) s h v =
      let (turn, rest) = and_parts (in_turn s e) (all_in_turn (next s e) es) h in
      run_from-IsOrderly es (next s e) rest (step-IsOrderly e s turn v)

  -- From the page's load on, in whatever order the waits end, no client is lost while conversations
  -- follow one another: whenever an event occurs, no more than one start or teardown waits, and a tap
  -- that may start a call finds no client. Then every client that was made has been closed, or all
  -- but the last one have, which the page holds while no start or teardown waits.
  pub run-IsOrderly :
      (c : Config) (v : Settings) (st : Storage) (t : Switches) (w : View) (es : List Event)
      → all_in_turn (boot c v st t w) es ≡ true
      → IsOrderly (clients (run api number truncate (boot c v st t w) es))
  unfolding boot
  run-IsOrderly c v st t w es h = run_from-IsOrderly es (boot c v st t w) h (
      set_state-Holds IsOrderly-IsSteady idle (loaded c v st t w)
        (inl (λ k lt. absurd (omega arith))))
