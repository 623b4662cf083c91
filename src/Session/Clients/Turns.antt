-- ===== src/Session/Clients/Turns.antt =====
-- A start and the listeners of demo/main.js: what they ask of the client objects.
use speech_to_speech_k8s.Base.{
  ℕ, ◌-◌, ◌≡◌, refl, inl, inr, Bool, true, false, Option, none, some, List, [], ◌∷◌, leb, Text,
  Bool-cases, ◌&&◌, ◌||◌, not, ◌||◌, is_nonempty,
}
use speech_to_speech_k8s.Js.Result.{Failure, Result, ok, throw}
use speech_to_speech_k8s.Settings.{Transport}
use speech_to_speech_k8s.Connection.{Target, effective_transport}
use speech_to_speech_k8s.Connection.Url.{UrlApi}
use speech_to_speech_k8s.View.{AppState, connecting}
use speech_to_speech_k8s.Session.{
  Session, priming, connecting_client, beating, reset_chat, assistant_activity, heartbeat,
  close_audio, clear_chat, Interval,
}
use speech_to_speech_k8s.Session.Timers.{start_heartbeat, start_countdown, set_left, tick_countdown}
use speech_to_speech_k8s.Session.Start.{
  client_options, sync_client, sync_tracks, sync_mic_mute_state, resolve, prepare, ask_mic,
  drop_audio, do_start, primed, connected,
}
use speech_to_speech_k8s.Session.Teardown.{set_state}
use speech_to_speech_k8s.Session.Events.{
  Status, ai_speaking, closed, unknown, SessionInfo, on_client_status, on_queue, track, track_held,
  on_ready_to_join, on_session, toggle_mute, tell_join, on_beat, on_second,
}
use speech_to_speech_k8s.Session.Clients.Ends.{
  stop_heartbeat-Holds, stop_countdown-Holds, set_state-Holds, handle_start_error-Holds,
}
use speech_to_speech_k8s.Session.Clients.{
  Clients, joins, jobs, jobs-append, IsSteady, IsUndialled, IsClosed, Holds,
}

drop_audio-Holds :
    {P : Clients → Type 0}
    → IsSteady P
    → (audio : Bool) (s : Session) → Holds P s
    → Holds P (drop_audio audio s)
drop_audio-Holds kept true s v = kept.other close_audio refl v
drop_audio-Holds kept false s v = v

-- A start, which may make a client.
module _ {P : Clients → Type 0} (api : UrlApi) (truncate : Text → Text) where
  ask_mic-Holds :
      IsUndialled P
      → (target : Option Target) (t : Transport) (audio : Bool) (s : Session) → Holds P s
      → Holds P (ask_mic target t audio s)
  ask_mic-Holds kept target t audio s v =
      let asking = set_state connecting (prepare t s) in
      let told = kept.steady.other (reset_chat false) refl (kept.steady.other clear_chat refl v) in
      rw (jobs-append asking.pending (priming target t audio))
        (kept.asked (set_state-Holds kept.steady connecting (prepare t s) told))

  resolved-Holds :
      IsUndialled P
      → (r : Result (Option Target)) (audio : Bool) (s : Session)
      → resolve api s (effective_transport s.config s.settings) ≡ r
      → Holds P s
      → Holds P (do_start api truncate audio s)
  unfolding do_start
  resolved-Holds kept (ok target) audio s e v =
      rw (e, do_start)
        (ask_mic-Holds kept target (effective_transport s.config s.settings) audio s v)
  resolved-Holds kept (throw f) audio s e v =
      rw (e, do_start) (handle_start_error-Holds kept.steady truncate f s v)

  pub do_start-Holds :
      IsUndialled P
      → (audio : Bool) (s : Session) → Holds P s
      → Holds P (do_start api truncate audio s)
  do_start-Holds kept audio s v = resolved-Holds kept _ audio s refl v

  pub refused-Holds :
      IsSteady P
      → (e : Failure) (target : Option Target) (t : Transport) (audio : Bool) (s : Session)
      → Holds P s
      → Holds P (primed api truncate (some e) target t audio s)
  unfolding primed
  refused-Holds kept e target t audio s v =
      handle_start_error-Holds kept truncate e (drop_audio audio s)
        (drop_audio-Holds kept audio s v)

  pub primed-Holds :
      IsClosed P
      → (e : Option Failure) (target : Option Target) (t : Transport) (audio : Bool) (s : Session)
      → Holds P s
      → Holds P (primed api truncate e target t audio s)
  unfolding primed
  primed-Holds kept none target t audio s v =
      rw (jobs-append s.pending (connecting_client s.made audio))
        (kept.dialled (client_options s target t audio) v)
  primed-Holds kept (some e) target t audio s v =
      refused-Holds kept.undialled.steady e target t audio s v

  pub connected-Holds :
      IsSteady P
      → (e : Option Failure) (audio : Bool) (s : Session) → Holds P s
      → Holds P (connected api truncate e audio s)
  unfolding connected
  connected-Holds kept none audio s v = v
  connected-Holds kept (some e) audio s v =
      handle_start_error-Holds kept truncate e (drop_audio audio s)
        (drop_audio-Holds kept audio s v)

module _ {P : Clients → Type 0} (kept : IsSteady P) where
  -- The listeners.
  sync_client-Holds :
      (m old : Bool) (c : Option ℕ) (s : Session)
      → s.client ≡ c
      → s.mic_muted || s.replaying ≡ m
      → P (s.made, s.client, s.log, old, jobs s.pending)
      → Holds P (sync_client m c s)
  sync_client-Holds m old none s e q v = kept.unheld _ e v
  sync_client-Holds m old (some c) s e q v = rw q (kept.muted m e v)

  -- The flags may just have changed.
  pub sync_mic_mute_state-Holds :
      (s : Session) (old : Bool)
      → P (s.made, s.client, s.log, old, jobs s.pending)
      → Holds P (sync_mic_mute_state s)
  unfolding sync_mic_mute_state
  sync_mic_mute_state-Holds s old v =
      let m = s.mic_muted || s.replaying in
      sync_client-Holds m old s.client (record s { mic_stream = sync_tracks m s.mic_stream }) refl
        refl v

  pub toggle_mute-Holds :
      (t : Option (List Bool)) (c : Option ℕ) (s : Session)
      → Holds P s
      → Holds P (toggle_mute t c s)
  toggle_mute-Holds (some tracks) (some c) s v =
      sync_mic_mute_state-Holds (record s { mic_muted = not s.mic_muted }) _ v
  toggle_mute-Holds (some tracks) none s v = v
  toggle_mute-Holds none c s v = v

  pub tell_join-Holds :
      (c : Option ℕ) (s : Session) → s.client ≡ c → Holds P s → Holds P (tell_join c s)
  tell_join-Holds none s i v = v
  tell_join-Holds (some c) s i v = kept.told (joins c) i v

  pub on_client_status-Holds :
      (st : Status) (s : Session) → Holds P s → Holds P (on_client_status st s)
  unfolding on_client_status
  on_client_status-Holds closed s v = v
  on_client_status-Holds unknown s v = v
  on_client_status-Holds ai_speaking s v =
      kept.other assistant_activity refl (set_state-Holds kept AppState.ai_speaking s v)
  on_client_status-Holds _ s v = set_state-Holds kept _ s v

  pub on_beat-Holds : (is : List Interval) (s : Session) → Holds P s → Holds P (on_beat is s)
  unfolding on_beat
  on_beat-Holds [] s v = v
  on_beat-Holds (i ∷ is) s v = elim (Bool-cases (is_nonempty s.tracked_session)) [
    | inl e ↦ rw e (
        rw (jobs-append s.pending (beating s.tracked_session))
          (kept.other (heartbeat s.tracked_session) refl v))
    | inr e ↦ rw e v
  ]

  pub on_second-Holds : (is : List Interval) (s : Session) → Holds P s → Holds P (on_second is s)
  unfolding on_second tick_countdown
  on_second-Holds [] s v = v
  on_second-Holds ((id, left) ∷ is) s v = elim (Bool-cases (leb left 1)) [
    | inl e ↦ rw e (
        stop_countdown-Holds kept (record s { countdowns = set_left id (left - 1) s.countdowns }) v)
    | inr e ↦ rw e v
  ]

  pub on_queue-Holds :
      (n : ℕ) (ticket : Text) (s : Session) → Holds P s → Holds P (on_queue n ticket s)
  unfolding on_queue
  on_queue-Holds n ticket s v = elim (Bool-cases (is_nonempty ticket)) [
    | inl e ↦ rw e v
    | inr e ↦ rw e v
  ]

  track_held-Holds : (i : Option SessionInfo) (s : Session) → Holds P s → Holds P (track_held i s)
  track_held-Holds none s v = v
  track_held-Holds (some i) s v = elim (Bool-cases (is_nonempty i.session_id)) [
    | inl e ↦ rw e v
    | inr e ↦ rw e v
  ]

  pub on_ready_to_join-Holds :
      (i : Option SessionInfo) (sec : ℕ) (s : Session)
      → Holds P s
      → Holds P (on_ready_to_join i sec s)
  unfolding on_ready_to_join start_countdown
  on_ready_to_join-Holds i sec s v =
      stop_countdown-Holds kept _ (track_held-Holds i (record s { queued_ticket = [] }) v)

  pub on_session-Holds : (i : SessionInfo) (s : Session) → Holds P s → Holds P (on_session i s)
  unfolding on_session start_heartbeat
  on_session-Holds i s v = elim (Bool-cases (i.limited && is_nonempty i.session_id)) [
    | inl e ↦ rw e (stop_heartbeat-Holds kept (track i (record s { queued_ticket = [] })) v)
    | inr e ↦ rw e v
  ]
