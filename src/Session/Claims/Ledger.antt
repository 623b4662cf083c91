-- ===== src/Session/Claims/Ledger.antt =====
-- The returns of the claims, counted: nothing is given back more often than it was given.
use speech_to_speech_k8s.Base.{
  ℕ, ◌+◌, ◌≤◌, ◌≡◌, subst, inl, inr, Bool, true, false, ◌&&◌, none, some, List, [], ◌∷◌, arith, Num,
  Text, text_eq, is_nonempty,
}
use speech_to_speech_k8s.Settings.{Settings, Storage}
use speech_to_speech_k8s.Connection.{Config}
use speech_to_speech_k8s.Connection.Url.{UrlApi}
use speech_to_speech_k8s.Tools.{Switches}
use speech_to_speech_k8s.View.{View, idle}
use speech_to_speech_k8s.Session.Events.{
  Event, tap, restart, mute, stop, leave, join_now, pagehide, replay, queue_moved, ready_to_join,
  status, client_failed, session_granted, mic_acquired, beat_due, second_over, resume,
  config_fetched,
}
use speech_to_speech_k8s.Session.Step.{run}
use speech_to_speech_k8s.Session.Claims.{
  Return, ended, left, Claims, claims, returns, give_up, MayGiveUp, Allowed, Runs, none_left,
  then_runs,
}
use speech_to_speech_k8s.Session.Boot.{loaded, boot}
use speech_to_speech_k8s.Session.Claims.Effects.{claims-set_state}
use speech_to_speech_k8s.Session.Claims.Refine.{run-Runs}

abbrev one_if : Bool → ℕ
one_if true = 1
one_if false = 0

-- An id that is given or held: the empty one is none.
abbrev is_id : Text → Text → Bool
is_id id x = is_nonempty x && text_eq x id

abbrev nothing_held : Claims
nothing_held = record { session = []; ticket = []; returned = [] }

claims-boot :
    (c : Config) (s : Settings) (st : Storage) (t : Switches) (v : View)
    → claims (boot c s st t v) ≡ nothing_held
unfolding boot
claims-boot c s st t v = claims-set_state idle (loaded c s st t v)

module _ (id : Text) where
  -- How often the session `id` was ended.
  abbrev pub endings : List Return → ℕ
  endings [] = 0
  endings (ended x ∷ rs) = one_if (is_id id x) + endings rs
  endings (left x ∷ rs) = endings rs

  -- How often the place of the ticket `id` was given up.
  abbrev pub leavings : List Return → ℕ
  leavings [] = 0
  leavings (ended x ∷ rs) = leavings rs
  leavings (left x ∷ rs) = one_if (is_id id x) + leavings rs

  -- How often the server has granted the session `id` for metering, or held it for a join.
  abbrev session_given : Event → ℕ
  session_given (session_granted i) = one_if (i.limited && is_id id i.session_id)
  session_given (ready_to_join (some i) sec) = one_if (is_id id i.session_id)
  session_given _ = 0

  abbrev pub grants : List Event → ℕ
  grants [] = 0
  grants (e ∷ es) = session_given e + grants es

  -- How often the server has named the ticket `id`.
  abbrev ticket_given : Event → ℕ
  ticket_given (queue_moved n ticket) = one_if (is_id id ticket)
  ticket_given _ = 0

  abbrev pub tickets : List Event → ℕ
  tickets [] = 0
  tickets (e ∷ es) = ticket_given e + tickets es

  -- What is ended or could be.
  abbrev session_weight : Claims → ℕ
  session_weight c = endings c.returned + one_if (is_id id c.session)

  abbrev ticket_weight : Claims → ℕ
  ticket_weight c = leavings c.returned + one_if (is_id id c.ticket)

  session_weight-give_up : (c : Claims) → session_weight (give_up c) ≡ session_weight c
  session_weight-give_up c = ground arith

  ticket_weight-give_up : (c : Claims) → ticket_weight (give_up c) ≡ ticket_weight c
  ticket_weight-give_up c = ground arith

  session_weight_may : (c d : Claims) → MayGiveUp c d → session_weight d ≤ session_weight c
  session_weight_may c d (inl e) = rw e (omega arith)
  session_weight_may c d (inr e) = rw e (omega (arith, session_weight-give_up c))

  Allowed-session_weight :
      (e : Event) (c d : Claims)
      → Allowed e c d
      → session_weight d ≤ session_weight c + session_given e
  Allowed-session_weight stop c d h = rw h (omega (arith, session_weight-give_up c))
  Allowed-session_weight leave c d h = rw h (omega (arith, session_weight-give_up c))
  Allowed-session_weight pagehide c d h = rw h (omega (arith, session_weight-give_up c))
  Allowed-session_weight (client_failed m) c d h = rw h (omega (arith, session_weight-give_up c))
  Allowed-session_weight (tap a) c d h = omega (arith, session_weight_may c d h)
  Allowed-session_weight (restart a f) c d h = omega (arith, session_weight_may c d h)
  Allowed-session_weight (resume n a) c d h = omega (arith, session_weight_may c d h)
  Allowed-session_weight (queue_moved n t) c d h = rw h (ground arith)
  Allowed-session_weight (ready_to_join none sec) c d h = rw h (ground arith)
  Allowed-session_weight (ready_to_join (some i) sec) c d h = rw h (ground arith)
  Allowed-session_weight (session_granted i) c d h = rw h (ground arith)
  Allowed-session_weight mute c d h = rw h (omega arith)
  Allowed-session_weight join_now c d h = rw h (omega arith)
  Allowed-session_weight (replay p) c d h = rw h (omega arith)
  Allowed-session_weight (config_fetched f) c d h = rw h (omega arith)
  Allowed-session_weight (status st) c d h = rw h (omega arith)
  Allowed-session_weight (mic_acquired ts) c d h = rw h (omega arith)
  Allowed-session_weight beat_due c d h = rw h (omega arith)
  Allowed-session_weight second_over c d h = rw h (omega arith)

  Runs-session_weight :
      (es : List Event) (c d : Claims)
      → Runs es c d
      → session_weight d ≤ session_weight c + grants es
  Runs-session_weight [] c d none_left = omega arith
  Runs-session_weight (e ∷ es) c d (then_runs {d = m} h r) =
      omega (arith, Allowed-session_weight e c m h, Runs-session_weight es m d r)

  ticket_weight_may : (c d : Claims) → MayGiveUp c d → ticket_weight d ≤ ticket_weight c
  ticket_weight_may c d (inl e) = rw e (omega arith)
  ticket_weight_may c d (inr e) = rw e (omega (arith, ticket_weight-give_up c))

  Allowed-ticket_weight :
      (e : Event) (c d : Claims)
      → Allowed e c d
      → ticket_weight d ≤ ticket_weight c + ticket_given e
  Allowed-ticket_weight stop c d h = rw h (omega (arith, ticket_weight-give_up c))
  Allowed-ticket_weight leave c d h = rw h (omega (arith, ticket_weight-give_up c))
  Allowed-ticket_weight pagehide c d h = rw h (omega (arith, ticket_weight-give_up c))
  Allowed-ticket_weight (client_failed m) c d h = rw h (omega (arith, ticket_weight-give_up c))
  Allowed-ticket_weight (tap a) c d h = omega (arith, ticket_weight_may c d h)
  Allowed-ticket_weight (restart a f) c d h = omega (arith, ticket_weight_may c d h)
  Allowed-ticket_weight (resume n a) c d h = omega (arith, ticket_weight_may c d h)
  Allowed-ticket_weight (queue_moved n t) c d h = rw h (ground arith)
  Allowed-ticket_weight (ready_to_join none sec) c d h = rw h (ground arith)
  Allowed-ticket_weight (ready_to_join (some i) sec) c d h = rw h (ground arith)
  Allowed-ticket_weight (session_granted i) c d h = rw h (ground arith)
  Allowed-ticket_weight mute c d h = rw h (omega arith)
  Allowed-ticket_weight join_now c d h = rw h (omega arith)
  Allowed-ticket_weight (replay p) c d h = rw h (omega arith)
  Allowed-ticket_weight (config_fetched f) c d h = rw h (omega arith)
  Allowed-ticket_weight (status st) c d h = rw h (omega arith)
  Allowed-ticket_weight (mic_acquired ts) c d h = rw h (omega arith)
  Allowed-ticket_weight beat_due c d h = rw h (omega arith)
  Allowed-ticket_weight second_over c d h = rw h (omega arith)

  Runs-ticket_weight :
      (es : List Event) (c d : Claims)
      → Runs es c d
      → ticket_weight d ≤ ticket_weight c + tickets es
  Runs-ticket_weight [] c d none_left = omega arith
  Runs-ticket_weight (e ∷ es) c d (then_runs {d = m} h r) =
      omega (arith, Allowed-ticket_weight e c m h, Runs-ticket_weight es m d r)

  -- From the page's load on, whatever happens and in whatever order the waits end: a session is ended
  -- at most as often as the server has granted it or held it for a join, and a place in the queue is
  -- given up at most as often as the server has named its ticket.
  pub returns-le-grants :
      (api : UrlApi) (number : Text → Num) (truncate : Text → Text) (c : Config) (s : Settings)
      (st : Storage) (t : Switches) (v : View) (es : List Event)
      → let log = (run api number truncate (boot c s st t v) es).log in
        (endings (returns log) ≤ grants es) × (leavings (returns log) ≤ tickets es)
  returns-le-grants api number truncate c s st t v es =
      let start = boot c s st t v in
      let r =
        subst (λ a. Runs es a (claims (run api number truncate start es))) (claims-boot c s st t v)
          (run-Runs api number truncate es start) in
      (
        omega (arith, Runs-session_weight es nothing_held _ r),
        omega (arith, Runs-ticket_weight es nothing_held _ r),
      )
