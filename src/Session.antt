-- ===== src/Session.antt =====
-- demo/main.js, the life of a conversation: the module's variables, the timers, and what the code
-- does to the outside. A function that awaits is cut where it waits; what is to follow is a task.

pub mod Timers
pub mod Teardown
pub mod Start
pub mod Events
pub mod Step
pub mod Boot
pub mod Invariant
pub mod Starts
pub mod Given
pub mod Reports
pub mod Release
pub mod Settled
pub mod Races
pub mod Claims
pub mod Clients
pub mod Countdown
pub mod Restarts
pub mod Failures
use speech_to_speech_k8s.Base.{ℕ, Bool, Option, List, Text}
use speech_to_speech_k8s.Js.Json.{Json}
use speech_to_speech_k8s.Settings.{Settings, Storage, Transport, GateParams}
use speech_to_speech_k8s.Connection.{Config, Target}
use speech_to_speech_k8s.Tools.{Tool, Switches}
use speech_to_speech_k8s.View.{View, AppState}

-- What a client is created with.
pub record ClientOptions : Type 0 where
  pub transport : Transport
  -- None over WebRTC, where the offer goes to "api/calls".
  pub target : Option Target
  -- Over WebSocket only.
  pub noise_gate : Option GateParams
  pub ice_servers : List Json
  pub voice : Text
  pub instructions : Text
  pub startup_greeting : Text
  pub tools : List Tool
  pub audio_output_id : Text
  pub has_audio : Bool

-- What follows a teardown.
pub data Ending : Type 0 where
  nothing : Ending
  show_login_required : Text → Ending
  show_limit : Text → Ending
  show_busy : Ending
  show_expired : Bool → Ending
  show_fatal : Text → Ending

pub data After : Type 0 where
  ends : Ending → After
  -- The restart, with or without an audio context.
  starts : Bool → After

-- A waiting function.
pub data Task : Type 0 where
  priming : Option Target → Transport → Bool → Task
  connecting_client : ℕ → Bool → Task
  closing : After → Task
  beating : Text → Task

-- Calls of the client, the server, the account panel, the chat and the browser, latest first.
pub data Effect : Type 0 where
  new_client : ℕ → ClientOptions → Effect
  set_muted : ℕ → Bool → Effect
  connect : ℕ → Effect
  join : ℕ → Effect
  close : ℕ → Effect
  close_audio : Effect
  stop_tracks : Effect
  end_session : Text → Effect
  leave_queue : Text → Effect
  heartbeat : Text → Effect
  refresh_account : Effect
  open_login : Text → Effect
  open_limit : Text → Effect
  open_busy : Effect
  clear_chat : Effect
  reset_chat : Bool → Effect
  assistant_activity : Effect
  prompt_url : Effect

-- A running interval: its id and what its callback holds (the period in ms, or the seconds left).
abbrev pub Interval : Type 0
Interval = ℕ × ℕ

pub record Session : Type 0 where
  pub config : Config
  pub settings : Settings
  pub storage : Storage
  pub switches : Switches
  pub state : AppState
  pub view : View
  pub active_transport : Transport
  -- The client object and the number of those made so far.
  pub client : Option ℕ
  pub made : ℕ
  -- The tracks of the capture stream, each enabled or not.
  pub mic_stream : Option (List Bool)
  pub mic_muted : Bool
  pub replaying : Bool
  pub heartbeat_timer : ℕ
  pub countdown_timer : ℕ
  -- The intervals that run, by their callback, and the last id given out.
  pub beats : List Interval
  pub countdowns : List Interval
  pub last_timer : ℕ
  pub tracked_session : Text
  pub tracked_tier : Text
  pub queued_ticket : Text
  pub log : List Effect
  pub pending : List Task
