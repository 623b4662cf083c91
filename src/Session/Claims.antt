-- ===== src/Session/Claims.antt =====
-- What the page owes the server, told without timers, view or waits: the session that it meters, its
-- place in the queue, and what it has given back. `Allowed` says what an event of demo/main.js may
-- do to them.
pub mod Effects
pub mod Listeners
pub mod Refine
pub mod Ledger
use speech_to_speech_k8s.Base.{
  ◌≡◌, ◌⊎◌, Bool, true, false, ◌&&◌, Option, none, some, List, [], ◌∷◌, if◌then◌else◌, Text,
  is_nonempty,
}
use speech_to_speech_k8s.Session.{Session, Effect, end_session, leave_queue}
use speech_to_speech_k8s.Session.Events.{
  SessionInfo, Event, tap, restart, stop, leave, pagehide, queue_moved, ready_to_join,
  client_failed, session_granted, resume,
}

-- What is told to the server: a session is over, or a place in the queue is free.
pub data Return : Type 0 where
  ended left : Text → Return

-- An empty id: there is none. The latest return comes first.
pub record Claims : Type 0 where
  pub session : Text
  pub ticket : Text
  pub returned : List Return

abbrev pub returns : List Effect → List Return
returns [] = []
returns (end_session id ∷ es) = ended id ∷ returns es
returns (leave_queue ticket ∷ es) = left ticket ∷ returns es
returns (_ ∷ es) = returns es

abbrev pub claims : Session → Claims
claims s = record {
  session = s.tracked_session;
  ticket = s.queued_ticket;
  returned = returns s.log;
}

abbrev pub end_session_of : Claims → Claims
end_session_of c =
    if is_nonempty c.session
    then record c { session = []; returned = ended c.session ∷ c.returned }
    else c

abbrev pub leave_queue_of : Claims → Claims
leave_queue_of c =
    if is_nonempty c.ticket
    then record c { ticket = []; returned = left c.ticket ∷ c.returned }
    else c

-- Both claims are given back, each once.
abbrev pub give_up : Claims → Claims
give_up c = leave_queue_of (end_session_of c)

abbrev pub hold : Bool → Text → Claims → Claims
hold met id c = if met then record c { session = id } else c

abbrev pub wait_in_line : Text → Claims → Claims
wait_in_line ticket c = if is_nonempty ticket then record c { ticket = ticket } else c

abbrev pub called_up : Option SessionInfo → Claims → Claims
called_up none c = record c { ticket = [] }
called_up (some i) c = hold (is_nonempty i.session_id) i.session_id (record c { ticket = [] })

abbrev pub granted : SessionInfo → Claims → Claims
granted i c = hold (i.limited && is_nonempty i.session_id) i.session_id (record c { ticket = [] })

abbrev pub MayGiveUp : Claims → Claims → Type 0
MayGiveUp c d = (d ≡ c) ⊎ (d ≡ give_up c)

-- What each event may do. A click on Stop or Leave, a fatal error and the closing of the page give
-- both claims up; a start, and the end of a wait, may do so, where they fail; the three events of the
-- server set the claims; nothing else touches them.
abbrev pub Allowed : Event → Claims → Claims → Type 0
Allowed stop c d = d ≡ give_up c
Allowed leave c d = d ≡ give_up c
Allowed pagehide c d = d ≡ give_up c
Allowed (client_failed _) c d = d ≡ give_up c
Allowed (tap _) c d = MayGiveUp c d
Allowed (restart _ _) c d = MayGiveUp c d
Allowed (resume _ _) c d = MayGiveUp c d
Allowed (queue_moved _ ticket) c d = d ≡ wait_in_line ticket c
Allowed (ready_to_join i _) c d = d ≡ called_up i c
Allowed (session_granted i) c d = d ≡ granted i c
Allowed _ c d = d ≡ c

-- A sequence of events.
pub data Runs : List Event → Claims → Claims → Type 0 where
  none_left : {c : Claims} → Runs [] c c
  then_runs :
      {e : Event} {es : List Event} {c d f : Claims}
      → Allowed e c d
      → Runs es d f
      → Runs (e ∷ es) c f
