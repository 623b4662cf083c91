-- ===== src/Session/Failures.antt =====
-- demo/main.js, `handleStartError`: how a start that fails ends.
use speech_to_speech_k8s.Base.{
  ℕ, ◌≡◌, ◌≢◌, refl, sym, ap, subst, ◌∙◌, Bool, true, false, List, ◌∷◌, Option, none, some, Num,
  Text, length,
}
use speech_to_speech_k8s.Js.Result.{Failure, aborted}
use speech_to_speech_k8s.Settings.{Transport}
use speech_to_speech_k8s.Connection.{Target}
use speech_to_speech_k8s.Connection.Url.{UrlApi}
use speech_to_speech_k8s.Session.{
  Session, Ending, Task, close, priming, connecting_client, closing, ends, Effect,
}
use speech_to_speech_k8s.Session.Teardown.{release_claims, release_devices, finish}
use speech_to_speech_k8s.Session.Start.{drop_audio, primed, connected}
use speech_to_speech_k8s.Session.Events.{resume, prime_answer, connect_answer, close_answer}
use speech_to_speech_k8s.Session.Step.{task_at, without, continue, step}
use speech_to_speech_k8s.Session.Invariant.{OwnsTimers}
use speech_to_speech_k8s.Session.Given.{
  claims_given, devices_given, audio_given, drop_audio_given, log-release_claims,
  devices_given-release_claims,
}
use speech_to_speech_k8s.Session.Reports.{state_after, ending, IsReported}
use speech_to_speech_k8s.Session.Release.{
  IsUnclaimed, release_claims-IsUnclaimed, release_claims_kept, task_at-append, waiting,
  teardown_waits, waiting-IsUnclaimed,
}
use speech_to_speech_k8s.Session.Settled.{IsSettled, by_code, over_at_once, ended}

module _ (truncate : Text → Text) where
  drop_audio_kept :
      (audio : Bool) (s : Session)
      → let t = drop_audio audio s in
        (OwnsTimers s → OwnsTimers t) × (t.client ≡ s.client) × (t.pending ≡ s.pending)
  drop_audio_kept true s = (λ v. v, refl, refl)
  drop_audio_kept false s = (λ v. v, refl, refl)

-- What a failed start gives up at once.
claims_told :
    (audio : Bool) (s : Session)
    → (release_claims (drop_audio audio s)).log ≡ claims_given s (audio_given audio s.log)
claims_told audio s =
    let a = drop_audio audio s in
    let (claims, _, log) = drop_audio_given audio s in
    log-release_claims a ∙ claims a.log ∙ ap (claims_given s) log

-- And in the end, behind what `ahead` adds.
given :
    (audio : Bool) (s : Session) (ahead : List Effect → List Effect)
    → let r = release_claims (drop_audio audio s) in
      devices_given r (ahead r.log)
      ≡ devices_given s (ahead (claims_given s (audio_given audio s.log)))
given audio s ahead =
    let a = drop_audio audio s in
    let (_, devices, _) = drop_audio_given audio s in
    devices_given-release_claims a (ahead (release_claims a).log)
    ∙ devices (ahead (release_claims a).log)
    ∙ ap (λ l. devices_given s (ahead l)) (claims_told audio s)

module _ (api : UrlApi) (number : Text → Num) (truncate : Text → Text) where
  -- A start that fails while it asks for the microphone, there being no client yet: at once the
  -- audio context is closed, the server is told of each claim that is held, the microphone's tracks
  -- are stopped, and the page is settled; the user is told of the failure, by a dialog of the account,
  -- by the caption or by both, and nobody of anything else. The timers are in order, and the error is
  -- no abort.
  pub failed_priming-IsSettled :
      (s : Session) (n : ℕ) (target : Option Target) (t : Transport) (audio : Bool) (e : Failure)
      → OwnsTimers s
      → s.client ≡ none
      → e.code ≢ aborted
      → task_at n s.pending ≡ some (priming target t audio)
      → let s1 = step api number truncate s (resume n (prime_answer (some e))) in
        IsSettled (state_after e.code) s1
        × IsReported truncate e (devices_given s (claims_given s (audio_given audio s.log))) s1
  unfolding step continue primed
  failed_priming-IsSettled s n target t audio e v gone live waits =
      let s' = record s { pending = without n s.pending } in
      let a = drop_audio audio s' in
      let r = release_claims a in
      let (owns, same, _) = drop_audio_kept truncate audio s' in
      let told = given audio s' (λ l. l) in
      let (settled, reported) = ended truncate e r live (release_claims-IsUnclaimed a (owns v)) in
      rw (waits, over_at_once truncate e a (same ∙ gone) live)
        (
          settled,
          subst
              (λ l. IsReported truncate e l (finish truncate (ending e.code e) (release_devices r)))
              told reported,
        )

  -- What stands behind the wait for the client's close.
  closed_after :
      (k : Ending) (c : ℕ) (r : Session)
      → let over = waiting k c r in
        let left = record over { pending = without (length r.pending) over.pending } in
        step api number truncate over (resume (length r.pending) close_answer)
        ≡ finish truncate k (release_devices left)
  unfolding step continue
  closed_after k c r = rw (task_at-append r.pending (closing (ends k))) refl

  closed_ends :
      (e : Failure) (c : ℕ) (r : Session) (told : List Effect)
      → e.code ≢ aborted
      → IsUnclaimed r
      → devices_given r (close c ∷ r.log) ≡ told
      → let s2 =
          step api number truncate
            (waiting (ending e.code e) c r)
            (resume (length r.pending) close_answer) in
        IsSettled (state_after e.code) s2 × IsReported truncate e told s2
  closed_ends e c r told n u given_back =
      let k = ending e.code e in
      let over = waiting k c r in
      let left = record over { pending = without (length r.pending) over.pending } in
      let (settled, reported) = ended truncate e left n (record {
        heartbeat = u.heartbeat;
        countdown = u.countdown;
        session = u.session;
        ticket = u.ticket;
      }) in
      rw (closed_after k c r) (
        settled,
        subst (λ l. IsReported truncate e l (finish truncate k (release_devices left))) given_back
            reported,
      )

  -- A start that fails while its client connects. At once the audio context is closed, the server is
  -- told of each claim that is held, none is held any more, and the client is asked to close. When it
  -- has closed, with nothing in between, the microphone's tracks are stopped, and the page is settled:
  -- idle behind a dialog for a spent budget and a full queue, with an error in the caption otherwise,
  -- behind the dialog to sign in where that is required. The timers are in order, and the error is no
  -- abort.
  pub failed_connect-IsSettled :
      (s : Session) (n c made : ℕ) (audio : Bool) (e : Failure)
      → OwnsTimers s
      → s.client ≡ some c
      → e.code ≢ aborted
      → task_at n s.pending ≡ some (connecting_client made audio)
      → let s1 = step api number truncate s (resume n (connect_answer (some e))) in
        let s2 = step api number truncate s1 (resume (length (without n s.pending)) close_answer) in
        let told = close c ∷ claims_given s (audio_given audio s.log) in
        IsUnclaimed s1
        × (s1.log ≡ told)
        × IsSettled (state_after e.code) s2
        × IsReported truncate e (devices_given s told) s2
  unfolding step continue connected
  failed_connect-IsSettled s n c made audio e v up live waits =
      let s' = record s { pending = without n s.pending } in
      let a = drop_audio audio s' in
      let r = release_claims a in
      let (owns, same, left) = drop_audio_kept truncate audio s' in
      let u = release_claims-IsUnclaimed a (owns v) in
      let closes =
        by_code truncate e e.code a refl live
        ∙ teardown_waits truncate (ending e.code e) a c (same ∙ up) in
      let count = (release_claims_kept a).1 ∙ left in
      let (settled, reported) = closed_ends e c r _ live u (given audio s' (λ l. close c ∷ l)) in
      rw (waits, closes, ap (length {A = Task}) (sym count))
        (
          waiting-IsUnclaimed (ending e.code e) c r u,
          ap (λ l. close c ∷ l) (claims_told audio s'),
          settled,
          reported,
        )
