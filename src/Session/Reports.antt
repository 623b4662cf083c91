-- ===== src/Session/Reports.antt =====
-- demo/main.js, `handleStartError` and `onFatalError`: what the user is told of a start that fails.
use speech_to_speech_k8s.Base.{
  Bool, if◌then◌else◌, ◌≡◌, ◌≢◌, refl, ap, ◌∙◌, true, false, List, [], ◌∷◌, arith, Text, text, trim,
  trim_start, trim_end, is_space,
}
use speech_to_speech_k8s.Js.Result.{
  Failure, Code, login_required, limit, aborted, queue_full, queue_expired, join_expired, other,
}
use speech_to_speech_k8s.View.{
  View, AppState, idle, error, Kind, plain, failure, show_state, show_restart, set_caption,
  caption_of,
}
use speech_to_speech_k8s.Session.{
  Session, Ending, nothing, show_login_required, show_limit, show_busy, show_expired, show_fatal,
  Effect, refresh_account, open_limit, open_busy, open_login,
}
use speech_to_speech_k8s.Session.Timers.{stop_countdown}
use speech_to_speech_k8s.Session.Teardown.{
  set_state, release_devices, finish, expired_caption, emit, stop_mic, unmute,
}
use speech_to_speech_k8s.Session.Release.{set_state_kept}

-- Where an error leaves the page.
abbrev pub state_after : Code → AppState
state_after limit = idle
state_after queue_full = idle
state_after _ = error

-- The account's dialog that is opened last, if one is.
abbrev pub dialog_of : Code → Failure → List Effect → List Effect
dialog_of login_required e before = open_login e.login_url ∷ before
dialog_of limit e before = open_limit e.tier ∷ before
dialog_of queue_full e before = open_busy ∷ before
dialog_of _ e before = before

-- The caption under the orb, and its kind.
unfoldable pub shown_of : (Text → Text) → Code → Failure → Text × Kind
shown_of truncate login_required e = (text "Sign in again to continue.", failure)
shown_of truncate limit e = (text "Tap to start", plain)
shown_of truncate aborted e = ([], plain)
shown_of truncate queue_full e = (text "Tap to start", plain)
shown_of truncate queue_expired e = (text "That took a while. Tap to rejoin.", failure)
shown_of truncate join_expired e = (text "Your spot expired. Tap to rejoin.", failure)
shown_of truncate other e = (trim (truncate e.message), failure)

abbrev pub caption_shown : View → Text × Kind
caption_shown v = (v.caption, v.caption_kind)

abbrev pub captions : Session → Text × Kind
captions s = caption_shown s.view

-- The user is told of the failure, and nobody of anything else.
pub record IsReported (truncate : Text → Text) (e : Failure) (before : List Effect) (s : Session)
    : Type 0 where
  pub opened : s.log ≡ dialog_of e.code e before
  pub shown : captions s ≡ shown_of truncate e.code e

abbrev pub ending : Code → Failure → Ending
ending login_required e = show_login_required e.login_url
ending limit e = show_limit e.tier
ending aborted e = nothing
ending queue_full e = show_busy
ending queue_expired e = show_expired false
ending join_expired e = show_expired true
ending other e = show_fatal e.message

stop_countdown_shown : (s : Session) → (stop_countdown s).view ≡ s.view
unfolding stop_countdown
stop_countdown_shown s = ground arith

idle_caption : (v : View) → caption_shown (show_state idle v) ≡ (text "Tap to start", plain)
unfolding show_state show_restart set_caption caption_of trim trim_start trim_end is_space text
idle_caption v = refl

idle_shown : (s : Session) → captions (set_state idle s) ≡ (text "Tap to start", plain)
unfolding set_state
idle_shown s =
    let t = record s { state = idle; view = show_state idle s.view } in
    ap caption_shown (stop_countdown_shown t) ∙ idle_caption s.view

refreshed_shown :
    (b : Bool) (s : Session)
    → captions s ≡ (text "Tap to start", plain)
    → captions (if b then emit refresh_account s else s) ≡ (text "Tap to start", plain)
refreshed_shown true s h = h
refreshed_shown false s h = h

released_shown : (s : Session) → captions (release_devices s) ≡ (text "Tap to start", plain)
unfolding release_devices
released_shown s =
    let t = set_state idle (unmute (stop_mic s)) in
    refreshed_shown t.config.limiter_on t (idle_shown (unmute (stop_mic s)))

log-set_state : (st : AppState) (s : Session) → (set_state st s).log ≡ s.log
log-set_state st s = let (_, _, _, _, _, _, _, log) = set_state_kept st s in log

module _ (truncate : Text → Text) where
  finish_reports :
      (code : Code) (e : Failure) (s : Session)
      → code ≢ aborted
      → captions s ≡ (text "Tap to start", plain)
      → let t = finish truncate (ending code e) s in
        (t.log ≡ dialog_of code e s.log) × (captions t ≡ shown_of truncate code e)
  unfolding finish expired_caption set_caption shown_of trim trim_start trim_end is_space text
  finish_reports login_required e s n h =
      (ap (λ l. open_login e.login_url ∷ l) (log-set_state error s), refl)
  finish_reports limit e s n h = (refl, h)
  finish_reports aborted e s n h = absurd (n refl)
  finish_reports queue_full e s n h = (refl, h)
  finish_reports queue_expired e s n h = (log-set_state error s, refl)
  finish_reports join_expired e s n h = (log-set_state error s, refl)
  finish_reports other e s n h = (log-set_state error s, refl)

  -- The end of a teardown after a failure.
  pub finish-IsReported :
      (e : Failure) (s : Session)
      → e.code ≢ aborted
      → IsReported truncate e
          (release_devices s).log
          (finish truncate (ending e.code e) (release_devices s))
  finish-IsReported e s n =
      let (opened, shown) = finish_reports e.code e (release_devices s) n (released_shown s) in
      record { opened = opened; shown = shown }
