-- ===== src/Session/Races.antt =====
-- Two waits that overlap: what an answer does that comes after the call it belongs to.
use speech_to_speech_k8s.Base.{
  ℕ, ◌≡◌, ◌≢◌, refl, sym, subst, ◌∙◌, true, some, List, ◌∷◌, arith, Num, Text,
}
use speech_to_speech_k8s.Connection.Url.{UrlApi}
use speech_to_speech_k8s.Session.{Session, show_limit, beating, Effect, close}
use speech_to_speech_k8s.Session.Timers.{stop_heartbeat}
use speech_to_speech_k8s.Session.Teardown.{release_claims, await_close, teardown, on_limit_reached}
use speech_to_speech_k8s.Session.Events.{resume, beat_answer}
use speech_to_speech_k8s.Session.Step.{task_at, without, continue, step}
use speech_to_speech_k8s.Session.Invariant.{OwnsTimers, stop_heartbeat-OwnsTimers}
use speech_to_speech_k8s.Session.Release.{IsUnclaimed, release_claims-IsUnclaimed}

stop_heartbeat-client : (s : Session) → (stop_heartbeat s).client ≡ s.client
unfolding stop_heartbeat
stop_heartbeat-client s = ground arith

-- The client is being closed, and the page tracks no session any more.
pub record IsClosing (c : ℕ) (s : Session) : Type 0 where
  pub closed : (rest : List Effect) × (s.log ≡ close c ∷ rest)
  pub unclaimed : IsUnclaimed s

limit_reached-IsClosing :
    (truncate : Text → Text) (s : Session) (c : ℕ)
    → OwnsTimers s
    → s.client ≡ some c
    → IsClosing c (on_limit_reached truncate s)
unfolding on_limit_reached teardown
limit_reached-IsClosing truncate s c v e =
    let s1 = stop_heartbeat s in
    let u = release_claims-IsUnclaimed s1 (stop_heartbeat-OwnsTimers s v) in
    let at : s1.client ≡ some c = stop_heartbeat-client s ∙ e in
    subst
      (λ o. IsClosing c (await_close truncate (show_limit s.tracked_tier) o (release_claims s1)))
      (sym at)
      (record {
        closed = ((release_claims s1).log, refl);
        unclaimed = record {
          heartbeat = u.heartbeat;
          countdown = u.countdown;
          session = u.session;
          ticket = u.ticket;
        };
      })

-- A heartbeat that was sent for one session closes the client of another: an answer "expired" is
-- not held against the session that is tracked when it arrives. So it is for every state in which
-- that heartbeat still waits and another session has a client; the timers are in order.
pub stale_heartbeat-IsClosing :
    (api : UrlApi) (number : Text → Num) (truncate : Text → Text) (s : Session) (n : ℕ) {id : Text}
    {c : ℕ}
    → OwnsTimers s
    → task_at n s.pending ≡ some (beating id)
    → id ≢ s.tracked_session
    → s.client ≡ some c
    → IsClosing c (step api number truncate s (resume n (beat_answer (some true))))
unfolding step continue
stale_heartbeat-IsClosing api number truncate s n {c} v waits other e =
    rw waits (limit_reached-IsClosing truncate (record s { pending = without n s.pending }) c v e)
