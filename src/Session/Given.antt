-- ===== src/Session/Given.antt =====
-- demo/main.js, a teardown: what it tells the server, the client, the microphone and the account.
use speech_to_speech_k8s.Base.{
  ◌≡◌, refl, ap, ◌∙◌, Bool, true, false, Option, none, some, List, [], ◌∷◌, arith, Text,
}
use speech_to_speech_k8s.View.{AppState, idle}
use speech_to_speech_k8s.Session.{
  Session, Effect, end_session, leave_queue, reset_chat, stop_tracks, refresh_account, close_audio,
}
use speech_to_speech_k8s.Session.Timers.{stop_heartbeat, stop_countdown}
use speech_to_speech_k8s.Session.Teardown.{
  set_state, end_tracked_session, end_queue_ticket, release_claims, release_devices, stop_mic,
  unmute, refresh,
}
use speech_to_speech_k8s.Session.Start.{drop_audio}

-- What is told once of an id, if there is one, on top of what was told before.
abbrev pub told_of : (Text → Effect) → Text → List Effect → List Effect
told_of tell [] before = before
told_of tell (c ∷ id) before = tell (c ∷ id) ∷ before

-- The server is told that the session is over and the place in the queue is free; the chat is reset.
abbrev pub claims_given : Session → List Effect → List Effect
claims_given s before =
    reset_chat true
    ∷ told_of leave_queue s.queued_ticket (told_of end_session s.tracked_session before)

-- The tracks of the microphone are stopped.
abbrev pub mic_given : Option (List Bool) → List Effect → List Effect
mic_given none before = before
mic_given (some tracks) before = stop_tracks ∷ before

-- The account is asked for what is left of the budget, where there is one.
abbrev pub account_asked : Bool → List Effect → List Effect
account_asked true before = refresh_account ∷ before
account_asked false before = before

-- The audio context is closed, where one could be made.
abbrev pub audio_given : Bool → List Effect → List Effect
audio_given true before = close_audio ∷ before
audio_given false before = before

-- After the client has closed.
abbrev pub devices_given : Session → List Effect → List Effect
devices_given s before = account_asked s.config.limiter_on (mic_given s.mic_stream before)

tracked_told :
    (s : Session) (t : Text)
    → s.tracked_session ≡ t
    → (end_tracked_session s).log ≡ told_of end_session t s.log
unfolding end_tracked_session
tracked_told s [] e = rw e refl
tracked_told s (c ∷ t) e = rw e refl

ticket_told :
    (s : Session) (t : Text)
    → s.queued_ticket ≡ t
    → (end_queue_ticket s).log ≡ told_of leave_queue t s.log
unfolding end_queue_ticket
ticket_told s [] e = rw e refl
ticket_told s (c ∷ t) e = rw e refl

ticket_left : (s : Session) → (end_tracked_session s).queued_ticket ≡ s.queued_ticket
unfolding end_tracked_session
ticket_left s = ground arith

-- Stopping the timers tells nobody.
timers_silent :
    (s : Session)
    → let t = stop_countdown (stop_heartbeat s) in
      (t.log ≡ s.log)
      × (t.tracked_session ≡ s.tracked_session)
      × (t.queued_ticket ≡ s.queued_ticket)
unfolding stop_countdown stop_heartbeat
timers_silent s = ground arith

pub log-release_claims : (s : Session) → (release_claims s).log ≡ claims_given s s.log
unfolding release_claims
log-release_claims s =
    let t = stop_countdown (stop_heartbeat s) in
    let (log, session, ticket) = timers_silent s in
    ap (λ l. reset_chat true ∷ l)
      (ticket_told (end_tracked_session t) s.queued_ticket (ticket_left t ∙ ticket)
        ∙ ap (told_of leave_queue s.queued_ticket) (
            tracked_told t s.tracked_session session
            ∙ ap (told_of end_session s.tracked_session) log))

-- The claims' release leaves what the devices' release reads.
release_claims_devices :
    (s : Session)
    → let r = release_claims s in (r.mic_stream ≡ s.mic_stream) × (r.config ≡ s.config)
unfolding release_claims end_queue_ticket end_tracked_session stop_countdown stop_heartbeat
release_claims_devices s = ground arith

pub devices_given-release_claims :
    (s : Session) (before : List Effect)
    → devices_given (release_claims s) before ≡ devices_given s before
devices_given-release_claims s before =
    let (mic, config) = release_claims_devices s in rw (mic, config) refl

set_state_silent :
    (st : AppState) (s : Session)
    → ((set_state st s).log ≡ s.log) × ((set_state st s).config ≡ s.config)
unfolding set_state stop_countdown
set_state_silent st s = ground arith

stopped :
    (s : Session) (m : Option (List Bool))
    → s.mic_stream ≡ m
    → ((stop_mic s).log ≡ mic_given m s.log) × ((stop_mic s).config ≡ s.config)
stopped s none e = rw e (refl, refl)
stopped s (some tracks) e = rw e (refl, refl)

refreshed :
    (b : Bool) (s : Session) → s.config.limiter_on ≡ b → (refresh s).log ≡ account_asked b s.log
refreshed true s e = rw e refl
refreshed false s e = rw e refl

pub log-release_devices : (s : Session) → (release_devices s).log ≡ devices_given s s.log
unfolding release_devices
log-release_devices s =
    let (mic, kept) = stopped s s.mic_stream refl in
    let t = unmute (stop_mic s) in
    let (silent, config) = set_state_silent idle t in
    refreshed s.config.limiter_on (set_state idle t) (ap (λ c. c.limiter_on) (config ∙ kept))
    ∙ ap (account_asked s.config.limiter_on) (silent ∙ mic)

pub drop_audio_given :
    (audio : Bool) (s : Session)
    → let t = drop_audio audio s in
      ((before : List Effect) → claims_given t before ≡ claims_given s before)
      × ((before : List Effect) → devices_given t before ≡ devices_given s before)
      × (t.log ≡ audio_given audio s.log)
drop_audio_given true s = (λ b. refl, λ b. refl, refl)
drop_audio_given false s = (λ b. refl, λ b. refl, refl)
