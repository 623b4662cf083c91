-- ===== src/Session/Claims/Listeners.antt =====
-- What the listeners of demo/main.js do to the claims: three set them, the others leave them.
use speech_to_speech_k8s.Base.{
  ℕ, ◌-◌, ◌≡◌, refl, ◌∙◌, inl, inr, Bool, ◌&&◌, Option, none, some, List, [], ◌∷◌, arith, leb, Text,
  is_nonempty, Bool-cases,
}
use speech_to_speech_k8s.Session.{Session, Interval}
use speech_to_speech_k8s.Session.Timers.{start_heartbeat, start_countdown, set_left, tick_countdown}
use speech_to_speech_k8s.Session.Start.{sync_client, sync_mic_mute_state}
use speech_to_speech_k8s.Session.Events.{
  Status, closed, unknown, SessionInfo, on_client_status, on_queue, track_held, on_ready_to_join,
  on_session, toggle_mute, tell_join, on_beat, on_second,
}
use speech_to_speech_k8s.Session.Claims.{claims, wait_in_line, called_up, granted}
use speech_to_speech_k8s.Session.Claims.Effects.{
  claims-stop_heartbeat, claims-stop_countdown, claims-set_state,
}

-- The claims do not change.
pub claims-sync_client :
    (m : Bool) (c : Option ℕ) (s : Session) → claims (sync_client m c s) ≡ claims s
claims-sync_client m none s = refl
claims-sync_client m (some c) s = refl

pub claims-sync_mic_mute_state : (s : Session) → claims (sync_mic_mute_state s) ≡ claims s
unfolding sync_mic_mute_state
claims-sync_mic_mute_state s = claims-sync_client _ s.client _

pub claims-toggle_mute :
    (m : Option (List Bool)) (c : Option ℕ) (s : Session) → claims (toggle_mute m c s) ≡ claims s
claims-toggle_mute (some tracks) (some c) s = claims-sync_mic_mute_state _
claims-toggle_mute (some tracks) none s = refl
claims-toggle_mute none c s = refl

pub claims-tell_join : (c : Option ℕ) (s : Session) → claims (tell_join c s) ≡ claims s
claims-tell_join none s = refl
claims-tell_join (some c) s = refl

pub claims-on_client_status :
    (st : Status) (s : Session) → claims (on_client_status st s) ≡ claims s
unfolding on_client_status
claims-on_client_status closed s = refl
claims-on_client_status unknown s = refl
claims-on_client_status _ s = claims-set_state _ s

pub claims-on_beat : (is : List Interval) (s : Session) → claims (on_beat is s) ≡ claims s
unfolding on_beat
claims-on_beat [] s = refl
claims-on_beat (i ∷ is) s = ground arith

pub claims-tick_countdown :
    (id left : ℕ) (s : Session) → claims (tick_countdown id left s) ≡ claims s
unfolding tick_countdown
claims-tick_countdown id left s = elim (Bool-cases (leb left 1)) [
  | inl e ↦
      rw e (claims-stop_countdown (record s { countdowns = set_left id (left - 1) s.countdowns }))
  | inr e ↦ rw e refl
]

pub claims-on_second : (is : List Interval) (s : Session) → claims (on_second is s) ≡ claims s
unfolding on_second
claims-on_second [] s = refl
claims-on_second ((id, left) ∷ is) s = claims-tick_countdown id left s

-- The three events of the server.
pub claims-on_queue :
    (n : ℕ) (ticket : Text) (s : Session)
    → claims (on_queue n ticket s) ≡ wait_in_line ticket (claims s)
unfolding on_queue
claims-on_queue n ticket s = ground arith

pub claims-track_held :
    (i : Option SessionInfo) (s : Session)
    → claims (track_held i (record s { queued_ticket = [] })) ≡ called_up i (claims s)
claims-track_held none s = refl
claims-track_held (some i) s = ground arith

pub claims-start_countdown : (sec : ℕ) (s : Session) → claims (start_countdown sec s) ≡ claims s
unfolding start_countdown
claims-start_countdown sec s = claims-stop_countdown s

pub claims-on_ready_to_join :
    (i : Option SessionInfo) (sec : ℕ) (s : Session)
    → claims (on_ready_to_join i sec s) ≡ called_up i (claims s)
unfolding on_ready_to_join
claims-on_ready_to_join i sec s = claims-start_countdown sec _ ∙ claims-track_held i s

pub claims-start_heartbeat : (sec : ℕ) (s : Session) → claims (start_heartbeat sec s) ≡ claims s
unfolding start_heartbeat
claims-start_heartbeat sec s = claims-stop_heartbeat s

pub claims-on_session :
    (i : SessionInfo) (s : Session) → claims (on_session i s) ≡ granted i (claims s)
unfolding on_session
claims-on_session i s = elim (Bool-cases (i.limited && is_nonempty i.session_id)) [
  | inl e ↦ rw e (claims-start_heartbeat _ _)
  | inr e ↦ rw e refl
]
