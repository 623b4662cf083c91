-- ===== src/Session/Clients.antt =====
-- demo/main.js, the client objects: which have been made, and what is asked of them. What a
-- teardown does to them.
pub mod Ends
pub mod Turns
pub mod Runs
pub mod Made
pub mod Lost
pub mod Orderly
pub mod InTurn
pub mod Muted
use speech_to_speech_k8s.Base.{
  ℕ, zero, suc, ◌+◌, ◌-◌, ◌<◌, ◌≤◌, ◌++◌, if◌then◌else◌, ◌≡◌, refl, sym, ap, subst, ◌∙◌, inl, inr,
  Bool, true, false, Option, none, some, List, [], ◌∷◌, arith, leb, Text, Bool-cases, Option-cases,
  ◌&&◌, ◌||◌, not, is_nonempty,
}
use speech_to_speech_k8s.Js.Result.{
  Failure, Code, login_required, limit, aborted, queue_full, queue_expired, join_expired, other,
  Result, ok, throw,
}
use speech_to_speech_k8s.Settings.{Transport}
use speech_to_speech_k8s.Connection.{Target, effective_transport}
use speech_to_speech_k8s.Connection.Url.{UrlApi}
use speech_to_speech_k8s.View.{AppState, idle, error, connecting, is_your_turn}
use speech_to_speech_k8s.Session.{
  Session, Ending, nothing, show_login_required, show_limit, show_busy, show_expired, show_fatal,
  Effect, ClientOptions, Task, priming, closing, ends, new_client, end_session, leave_queue,
  reset_chat, stop_tracks, refresh_account, open_login, open_limit, open_busy, assistant_activity,
  heartbeat, close_audio, clear_chat, prompt_url, set_muted, connect, join, close, Interval,
}
use speech_to_speech_k8s.Session.Step.{without}
use speech_to_speech_k8s.Session.Timers.{
  stop_heartbeat, stop_countdown, start_heartbeat, start_countdown, set_left, tick_countdown,
}
use speech_to_speech_k8s.Session.Teardown.{
  set_state, end_tracked_session, end_queue_ticket, release_claims, release_devices, stop_mic,
  unmute, refresh, finish, await_close, teardown, on_limit_reached, on_fatal_error,
  handle_start_error,
}
use speech_to_speech_k8s.Session.Start.{
  sync_client, sync_mic_mute_state, resolve, prepare, ask_mic, drop_audio, do_start, primed,
  connected,
}
use speech_to_speech_k8s.Session.Events.{
  Status, ai_speaking, closed, unknown, SessionInfo, on_client_status, on_queue, track, track_held,
  on_ready_to_join, on_session, toggle_mute, tell_join, on_beat, on_second,
}

-- A start that waits for the microphone, or a wait for a client to close.
abbrev pub is_job : Task → Bool
is_job (priming _ _ _) = true
is_job (closing _) = true
is_job _ = false

abbrev pub jobs : List Task → ℕ
jobs [] = 0
jobs (t ∷ ts) = (if is_job t then 1 else 0) + jobs ts

pub jobs-append :
    (ts : List Task) (t : Task)
    → jobs (ts ++ t ∷ []) ≡ (if is_job t then suc (jobs ts) else jobs ts)
jobs-append [] t = ground arith
jobs-append (u ∷ ts) t = rw (jobs-append ts t) (ground arith)

pub jobs-without : (n : ℕ) (ts : List Task) → jobs (without n ts) ≤ jobs ts
unfolding without
jobs-without n [] = omega arith
jobs-without zero (t ∷ ts) = omega arith
jobs-without (suc n) (t ∷ ts) = omega (arith, jobs-without n ts)

-- What the client objects are seen through: how many were made, which one the page holds, the log,
-- whether the microphone is to be muted, and how many starts and teardowns wait.
abbrev pub Clients : Type 0
Clients = ℕ × Option ℕ × List Effect × Bool × ℕ

abbrev pub clients : Session → Clients
clients s = (s.made, s.client, s.log, s.mic_muted || s.replaying, jobs s.pending)

-- The client that an effect is about.
abbrev pub about : Effect → Option ℕ
about (new_client c _) = some c
about (set_muted c _) = some c
about (connect c) = some c
about (join c) = some c
about (close c) = some c
about _ = none

-- What is asked of a client that the page holds, besides to mute, and whether it is waited for.
pub data Asks : Effect → ℕ → Bool → Type 0 where
  joins : (c : ℕ) → Asks (join c) c false
  closes : (c : ℕ) → Asks (close c) c true

-- A property that survives what the page does to the client that it holds, if any: another effect, a
-- request to that client, a new state of the microphone, which it is told, and the end of a wait.
pub record IsSteady (P : Clients → Type 0) : Type 0 where
  pub other :
      {n j : ℕ} {o : Option ℕ} {log : List Effect} {m : Bool} (e : Effect)
      → about e ≡ none
      → P (n, o, log, m, j)
      → P (n, o, e ∷ log, m, j)
  pub told :
      {n c j : ℕ} {o : Option ℕ} {log : List Effect} {m w : Bool} {e : Effect}
      → Asks e c w
      → o ≡ some c
      → P (n, o, log, m, j)
      → P (n, o, e ∷ log, m, (if w then suc j else j))
  pub muted :
      {n c j : ℕ} {o : Option ℕ} {log : List Effect} {m : Bool} (now : Bool)
      → o ≡ some c
      → P (n, o, log, m, j)
      → P (n, o, set_muted c now ∷ log, now, j)
  pub unheld :
      {n j : ℕ} {o : Option ℕ} {log : List Effect} {m : Bool} (now : Bool)
      → o ≡ none
      → P (n, o, log, m, j)
      → P (n, o, log, now, j)
  pub fewer :
      {n j : ℕ} {o : Option ℕ} {log : List Effect} {m : Bool} (i : ℕ)
      → i ≤ j
      → P (n, o, log, m, j)
      → P (n, o, log, m, i)

-- It survives the loss of the client, too, and a start that waits for the microphone.
pub record IsUndialled (P : Clients → Type 0) : Type 0 where
  pub steady : IsSteady P
  pub gone :
      {n j : ℕ} {o : Option ℕ} {log : List Effect} {m : Bool} (now : Bool)
      → P (n, o, log, m, j)
      → P (n, none, log, now, j)
  pub asked :
      {n j : ℕ} {o : Option ℕ} {log : List Effect} {m : Bool}
      → P (n, o, log, m, j)
      → P (n, o, log, m, suc j)

-- And a new client, which is told the state of the microphone and connected: all that the page does
-- to clients.
pub record IsClosed (P : Clients → Type 0) : Type 0 where
  pub undialled : IsUndialled P
  pub dialled :
      {n j : ℕ} {o : Option ℕ} {log : List Effect} {m : Bool} (x : ClientOptions)
      → P (n, o, log, m, j)
      → P (suc n, some n, connect n ∷ set_muted n m ∷ new_client n x ∷ log, m, j)

abbrev pub Holds : (Clients → Type 0) → Session → Type 0
Holds P s = P (clients s)
