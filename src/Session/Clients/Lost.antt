-- ===== src/Session/Clients/Lost.antt =====
-- demo/main.js, `doStart`: two starts that wait for the microphone at the same time.
use speech_to_speech_k8s.Base.{
  ℕ, ◌+◌, ◌<◌, ◌≤◌, ◌≡◌, ◌≢◌, refl, sym, subst, ap, ◌∙◌, Option, none, some, Bool, List, [], ◌∷◌,
  ◌==◌, if◌then◌else◌, arith, Num, Text,
}
use speech_to_speech_k8s.Settings.{Settings, Storage, Transport}
use speech_to_speech_k8s.Connection.{Config, Target}
use speech_to_speech_k8s.Connection.Url.{UrlApi}
use speech_to_speech_k8s.Tools.{Switches}
use speech_to_speech_k8s.View.{View}
use speech_to_speech_k8s.Session.{
  Session, Task, priming, connecting_client, Effect, new_client, set_muted, connect, join, close,
}
use speech_to_speech_k8s.Session.Start.{dial, primed}
use speech_to_speech_k8s.Session.Events.{Event, resume, prime_answer}
use speech_to_speech_k8s.Session.Step.{task_at, without, continue, step, run}
use speech_to_speech_k8s.Session.Boot.{boot}
use speech_to_speech_k8s.Session.Restarts.{task_at-append_left}
use speech_to_speech_k8s.Session.Clients.{
  Clients, clients, about, Asks, joins, closes, IsClosed, Holds,
}
use speech_to_speech_k8s.Session.Clients.Runs.{run_from-Holds}
use speech_to_speech_k8s.Session.Clients.Made.{AreMade, AreKnown, run-AreKnown}

-- How often the client k has been closed, and connected.
abbrev pub closings : ℕ → List Effect → ℕ
closings k [] = 0
closings k (close c ∷ es) = (if c == k then 1 else 0) + closings k es
closings k (_ ∷ es) = closings k es

abbrev pub dials : ℕ → List Effect → ℕ
dials k [] = 0
dials k (connect c ∷ es) = (if c == k then 1 else 0) + dials k es
dials k (_ ∷ es) = dials k es

-- The client k has been connected and never closed, and the page does not hold it.
abbrev pub IsLost : ℕ → Clients → Type 0
IsLost k (n, o, log, _, _) = (k < n) × (o ≢ some k) × (closings k log ≡ 0) × (0 < dials k log)

other_lost :
    (k : ℕ) (log : List Effect) (e : Effect)
    → about e ≡ none
    → (closings k log ≡ 0) × (0 < dials k log)
    → (closings k (e ∷ log) ≡ 0) × (0 < dials k (e ∷ log))
other_lost k log (connect c) q v = absurd cc
other_lost k log (close c) q v = absurd cc
other_lost k log _ q v = v

some-ne : (c k : ℕ) (o : Option ℕ) → o ≡ some c → o ≢ some k → c ≢ k
some-ne c k o q v = λ e. v (q ∙ ap some e)

told-IsLost :
    (k n : ℕ) (o : Option ℕ) (log : List Effect) (m : Bool) (i j : ℕ) {c : ℕ} {w : Bool}
    {e : Effect}
    → Asks e c w
    → o ≡ some c
    → IsLost k (n, o, log, m, i)
    → IsLost k (n, o, e ∷ log, m, j)
told-IsLost k n o log m i j (joins c) q v = v
told-IsLost k n o log m i j (closes c) q (lt, h, z, d) =
    (lt, h, (let other = some-ne c k o q h in ground arith), d)

new-ne : (n k : ℕ) → k < n → some n ≢ some k
new-ne n k m = λ e. grind arith

IsLost-IsClosed : (k : ℕ) → IsClosed (IsLost k)
IsLost-IsClosed k = record {
  undialled = record {
    steady = record {
      other = λ e q (m, h, z, d). let kept = other_lost k _ e q (z, d) in (m, h, kept.0, kept.1);
      told = λ {j = j} {m = m} a q v. told-IsLost k _ _ _ m j j a q v;
      muted = λ now q v. v;
      unheld = λ now q v. v;
      fewer = λ i l v. v;
    };
    gone = λ now (m, h, z, d). (m, (λ e. cc), z, d);
    asked = λ v. v;
  };
  dialled = λ x (m, h, z, d). (omega arith, new-ne _ k m, z, ground arith);
}

-- A client that has not been made has not been closed.
unmade_unclosed : (n k : ℕ) (log : List Effect) → n ≤ k → AreMade n log → closings k log ≡ 0
unmade_unclosed n k [] h v = refl
unmade_unclosed n k (new_client c x ∷ es) h v = unmade_unclosed c k es (omega arith) v.1
unmade_unclosed n k (close c ∷ es) h v =
    let (made, before) = v in let rest = unmade_unclosed n k es h before in ground arith
unmade_unclosed n k (set_muted c m ∷ es) h v = unmade_unclosed n k es h v.1
unmade_unclosed n k (connect c ∷ es) h v = unmade_unclosed n k es h v.1
unmade_unclosed n k (join c ∷ es) h v = unmade_unclosed n k es h v.1
unmade_unclosed n k (_ ∷ es) h v = unmade_unclosed n k es h v

-- The microphone's permission is there: a client is made and connected, whichever the page holds.
pub primed_dials :
    (api : UrlApi) (number : Text → Num) (truncate : Text → Text) (w : Session) (n : ℕ)
    (g : Option Target) (t : Transport) (a : Bool)
    → task_at n w.pending ≡ some (priming g t a)
    → step api number truncate w (resume n (prime_answer none))
      ≡ dial g t a (record w { pending = without n w.pending })
unfolding step continue primed
primed_dials api number truncate w n g t a e = rw e refl

dialled_twice-IsLost :
    (w : Session) (g h : Option Target) (t u : Transport) (a b : Bool) (ts : List Task)
    → Holds AreKnown w
    → IsLost w.made (clients (dial h u b (record (dial g t a w) { pending = ts })))
dialled_twice-IsLost w g h t u a b ts v =
    let before = unmade_unclosed w.made w.made w.log (omega arith) v.1 in
    (omega arith, new-ne _ w.made (omega arith), before, ground arith)

module _ (api : UrlApi) (number : Text → Num) (truncate : Text → Text) where
  both_primed-IsLost :
      (s : Session) (m n : ℕ) (g h : Option Target) (t u : Transport) (a b : Bool)
      → Holds AreKnown s
      → task_at m s.pending ≡ some (priming g t a)
      → task_at n (without m s.pending) ≡ some (priming h u b)
      → let s1 = step api number truncate s (resume m (prime_answer none)) in
        IsLost s.made (clients (step api number truncate s1 (resume n (prime_answer none))))
  both_primed-IsLost s m n g h t u a b v e f =
      let w = record s { pending = without m s.pending } in
      let d = dial g t a w in
      let later = task_at-append_left n w.pending (connecting_client w.made a ∷ []) _ f in
      let second = primed_dials api number truncate d n h u b later in
      let lost = dialled_twice-IsLost w g h t u a b (without n d.pending) v in
      subst
        (λ x. IsLost s.made (clients (step api number truncate x (resume n (prime_answer none)))))
        (sym (primed_dials api number truncate s m g t a e))
        (subst (λ x. IsLost s.made (clients x)) (sym second) lost)

  -- Two starts that wait for the microphone at the same time, reached from the page's load in
  -- whatever way, and both allowed to go on: the client of the first is connected, and whatever
  -- happens afterwards, it is never closed and the page does not hold it.
  pub overlapping_starts-IsLost :
      (c : Config) (v : Settings) (st : Storage) (t : Switches) (w : View) (es later : List Event)
      (m n : ℕ) {g h : Option Target} {k l : Transport} {a b : Bool}
      → let s = run api number truncate (boot c v st t w) es in
        task_at m s.pending ≡ some (priming g k a)
        → task_at n (without m s.pending) ≡ some (priming h l b)
        → IsLost s.made (
            clients (
              run api number truncate s
                (resume m (prime_answer none) ∷ resume n (prime_answer none) ∷ later)))
  unfolding run
  overlapping_starts-IsLost c v st t w es later m n {g} {h} {k} {l} {a} {b} e f =
      let s = run api number truncate (boot c v st t w) es in
      run_from-Holds api number truncate (IsLost-IsClosed s.made) later _
        (both_primed-IsLost s m n g h k l a b (run-AreKnown api number truncate c v st t w es) e f)
