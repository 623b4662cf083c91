-- ===== src/Session/Release.antt =====
-- What a teardown gives back: the session, the place in the queue, the timers, the client, the mic.
use speech_to_speech_k8s.Base.{
  ℕ, ◌≡◌, refl, ap, sym, ◌∙◌, Bool, true, false, none, some, List, [], ◌∷◌, ◌++◌, arith,
  if◌then◌else◌, Num, Text, is_nonempty, length,
}
use speech_to_speech_k8s.Connection.Url.{UrlApi}
use speech_to_speech_k8s.View.{AppState, idle}
use speech_to_speech_k8s.Session.{
  Session, Ending, nothing, ends, Task, closing, close, refresh_account,
}
use speech_to_speech_k8s.Session.Timers.{clear, stop_heartbeat, stop_countdown}
use speech_to_speech_k8s.Session.Teardown.{
  emit, set_state, end_tracked_session, end_queue_ticket, release_claims, release_devices, stop_mic,
  unmute, finish, await_close, teardown,
}
use speech_to_speech_k8s.Session.Given.{
  claims_given, devices_given, log-release_claims, log-release_devices,
  devices_given-release_claims,
}
use speech_to_speech_k8s.Session.Events.{stop, resume, close_answer}
use speech_to_speech_k8s.Session.Step.{task_at, continue, step}
use speech_to_speech_k8s.Session.Invariant.{
  OwnsTimers, stop_heartbeat-OwnsTimers, stop_countdown-OwnsTimers, stop_heartbeat-zero,
  stop_countdown-zero, heartbeat_none, countdown_none,
}

-- Nothing runs, nothing is claimed from the server.
pub record IsUnclaimed (s : Session) : Type 0 where
  pub heartbeat : s.beats ≡ []
  pub countdown : s.countdowns ≡ []
  pub session : s.tracked_session ≡ []
  pub ticket : s.queued_ticket ≡ []

-- The timers' part of a session, which the beacons leave alone.
end_claims_timers :
    (s : Session)
    → ((end_queue_ticket (end_tracked_session s)).beats ≡ s.beats)
      × ((end_queue_ticket (end_tracked_session s)).countdowns ≡ s.countdowns)
unfolding end_queue_ticket end_tracked_session
end_claims_timers s = ground arith

is_nonempty-false : (t : Text) → is_nonempty t ≡ false → t ≡ []
is_nonempty-false [] h = refl
is_nonempty-false (c ∷ t) h = cc

pub end_claims_done :
    (s : Session)
    → ((end_queue_ticket (end_tracked_session s)).tracked_session ≡ [])
      × ((end_queue_ticket (end_tracked_session s)).queued_ticket ≡ [])
unfolding end_queue_ticket end_tracked_session
end_claims_done s =
    ground (arith, is_nonempty-false s.tracked_session, is_nonempty-false s.queued_ticket)

-- Stopping the countdown does not start the heartbeat.
heartbeat_stays : (s : Session) → (stop_countdown s).heartbeat_timer ≡ s.heartbeat_timer
unfolding stop_countdown
heartbeat_stays s = ground arith

pub release_claims-IsUnclaimed : (s : Session) → OwnsTimers s → IsUnclaimed (release_claims s)
unfolding release_claims
release_claims-IsUnclaimed s v =
    let s1 = stop_heartbeat s in
    let s2 = stop_countdown s1 in
    let w = stop_countdown-OwnsTimers s1 (stop_heartbeat-OwnsTimers s v) in
    let (same_beats, same_countdowns) = end_claims_timers s2 in
    let (session_ended, ticket_ended) = end_claims_done s2 in
    record {
      heartbeat = same_beats ∙ heartbeat_none w (heartbeat_stays s1 ∙ stop_heartbeat-zero s);
      countdown = same_countdowns ∙ countdown_none w (stop_countdown-zero s1);
      session = session_ended;
      ticket = ticket_ended;
    }

-- `setState` sets the state, and leaves what is not shown.
pub set_state_kept :
    (st : AppState) (s : Session)
    → let s' = set_state st s in
      (s'.state ≡ st)
      × (s'.client ≡ s.client)
      × (s'.mic_stream ≡ s.mic_stream)
      × (s'.mic_muted ≡ s.mic_muted)
      × (s'.tracked_session ≡ s.tracked_session)
      × (s'.queued_ticket ≡ s.queued_ticket)
      × (s'.pending ≡ s.pending)
      × (s'.log ≡ s.log)
unfolding set_state stop_countdown
set_state_kept st s = ground arith

pub set_state_timers :
    (st : AppState) (s : Session)
    → s.beats ≡ []
    → s.countdowns ≡ []
    → ((set_state st s).beats ≡ []) × ((set_state st s).countdowns ≡ [])
unfolding set_state stop_countdown clear
set_state_timers st s b c = ground arith

-- All that a conversation holds has been given back.
pub record IsReleased (s : Session) : Type 0 where
  pub unclaimed : IsUnclaimed s
  pub client : s.client ≡ none
  pub mic : s.mic_stream ≡ none
  pub unmuted : s.mic_muted ≡ false
  pub state : s.state ≡ idle

refreshed :
    (b : Bool) (s : Session) → IsReleased s → IsReleased (if b then emit refresh_account s else s)
refreshed true s r = record {
  unclaimed = record {
    heartbeat = r.unclaimed.heartbeat;
    countdown = r.unclaimed.countdown;
    session = r.unclaimed.session;
    ticket = r.unclaimed.ticket;
  };
  client = r.client;
  mic = r.mic;
  unmuted = r.unmuted;
  state = r.state;
}
refreshed false s r = r

stop_mic_kept :
    (s : Session)
    → let t = stop_mic s in
      (t.mic_stream ≡ none)
      × (t.beats ≡ s.beats)
      × (t.countdowns ≡ s.countdowns)
      × (t.tracked_session ≡ s.tracked_session)
      × (t.queued_ticket ≡ s.queued_ticket)
stop_mic_kept s = ground arith

pub release_devices-IsReleased : (s : Session) → IsUnclaimed s → IsReleased (release_devices s)
unfolding release_devices
release_devices-IsReleased s u =
    let t = unmute (stop_mic s) in
    let (mic, beats, countdowns, session, ticket) = stop_mic_kept s in
    let (at, no_client, no_mic, unmuted, no_session, no_ticket, _, _) = set_state_kept idle t in
    let (no_beats, no_countdowns) =
      set_state_timers idle t (beats ∙ u.heartbeat) (countdowns ∙ u.countdown) in
    refreshed (set_state idle t).config.limiter_on (set_state idle t) (record {
      unclaimed = record {
        heartbeat = no_beats;
        countdown = no_countdowns;
        session = no_session ∙ (session ∙ u.session);
        ticket = no_ticket ∙ (ticket ∙ u.ticket);
      };
      client = no_client;
      mic = no_mic ∙ mic;
      unmuted = unmuted;
      state = at;
    })

pub task_at-append : (ts : List Task) (t : Task) → task_at (length ts) (ts ++ t ∷ []) ≡ some t
unfolding task_at
task_at-append [] t = refl
task_at-append (u ∷ ts) t = task_at-append ts t

pub release_claims_kept :
    (s : Session)
    → ((release_claims s).client ≡ s.client) × ((release_claims s).pending ≡ s.pending)
unfolding release_claims end_queue_ticket end_tracked_session stop_countdown stop_heartbeat
release_claims_kept s = ground arith

-- A client that is being closed.
abbrev pub waiting : Ending → ℕ → Session → Session
waiting k c r = record r { log = close c ∷ r.log; pending = r.pending ++ closing (ends k) ∷ [] }

pub teardown_waits :
    (truncate : Text → Text) (k : Ending) (s : Session) (c : ℕ)
    → s.client ≡ some c
    → teardown truncate k s ≡ waiting k c (release_claims s)
unfolding teardown
teardown_waits truncate k s c e = ap (λ o. await_close truncate k o (release_claims s)) e

pub waiting-IsUnclaimed :
    (k : Ending) (c : ℕ) (r : Session) → IsUnclaimed r → IsUnclaimed (waiting k c r)
waiting-IsUnclaimed k c r u = record {
  heartbeat = u.heartbeat;
  countdown = u.countdown;
  session = u.session;
  ticket = u.ticket;
}

module _ (api : UrlApi) (number : Text → Num) (truncate : Text → Text) where
  closed_IsReleased :
      (c : ℕ) (r : Session)
      → IsUnclaimed r
      → IsReleased
          (step api number truncate (waiting nothing c r) (resume (length r.pending) close_answer))
  unfolding step continue finish
  closed_IsReleased c r u = rw (task_at-append r.pending (closing (ends nothing))) (
      release_devices-IsReleased _ (record {
        heartbeat = u.heartbeat;
        countdown = u.countdown;
        session = u.session;
        ticket = u.ticket;
      }))

  closed_log :
      (c : ℕ) (r : Session)
      → (step api number truncate
          (waiting nothing c r)
          (resume (length r.pending) close_answer)).log
        ≡ devices_given r (close c ∷ r.log)
  unfolding step continue finish
  closed_log c r = rw (task_at-append r.pending (closing (ends nothing))) (log-release_devices _)

  -- A tap on Stop, at once: both timers stop, the server is told, once each, that the tracked session
  -- is over and that the queued ticket is given up, as far as there are any, neither is held any more,
  -- the chat is reset and the client asked to close. When it has closed, with nothing in between: the
  -- tracks of the microphone are stopped, if there is one, the account is asked for its budget, if
  -- there is one, the page holds no client and no microphone, the mute is off and the state is idle.
  -- Nobody is told anything else. It takes a client, and that the timers are in order, as they are in
  -- every reachable state.
  pub stop_releases :
      (s : Session) {c : ℕ}
      → OwnsTimers s
      → s.client ≡ some c
      → let s1 = step api number truncate s stop in
        let s2 = step api number truncate s1 (resume (length s.pending) close_answer) in
        IsUnclaimed s1
        × (s1.log ≡ close c ∷ claims_given s s.log)
        × IsReleased s2
        × (s2.log ≡ devices_given s (close c ∷ claims_given s s.log))
  unfolding step
  stop_releases s {c} v e =
      let r = release_claims s in
      let (_, same) = release_claims_kept s in
      let told = log-release_claims s in
      rw (teardown_waits truncate nothing s c e, ap (length {A = Task}) (sym same))
        (
          waiting-IsUnclaimed nothing c r (release_claims-IsUnclaimed s v),
          ap (λ l. close c ∷ l) told,
          closed_IsReleased c r (release_claims-IsUnclaimed s v),
          closed_log c r
              ∙ ap (λ l. devices_given r (close c ∷ l)) told
              ∙ devices_given-release_claims s (close c ∷ claims_given s s.log),
        )
