-- ===== src/Session/Start.antt =====
-- demo/main.js, the start of a conversation: `doStart`, cut at its two waits, `syncMicMuteState`
-- and `acquireMicStream`.
use speech_to_speech_k8s.Base.{
  ℕ, suc, Bool, true, false, not, ◌||◌, Option, none, some, List, [], ◌∷◌, ◌++◌, map, if◌then◌else◌,
  Text, text,
}
use speech_to_speech_k8s.Js.Result.{Result, Failure, ok, throw}
use speech_to_speech_k8s.Settings.{Transport, ws, webrtc, gate_params, GateParams}
use speech_to_speech_k8s.Connection.{Target, connection_target, effective_transport}
use speech_to_speech_k8s.Connection.Url.{UrlApi}
use speech_to_speech_k8s.Tools.{active_tool_defs}
use speech_to_speech_k8s.View.{connecting, muted}
use speech_to_speech_k8s.Session.{
  Session, ClientOptions, priming, connecting_client, new_client, set_muted, connect, close_audio,
  clear_chat, reset_chat,
}
use speech_to_speech_k8s.Session.Teardown.{emit, caption, set_state, handle_start_error}

abbrev pub is_rtc : Transport → Bool
is_rtc webrtc = true
is_rtc ws = false

-- `syncMicMuteState`: the tracks of the stream and the client, as far as there are any.
abbrev pub sync_tracks : Bool → Option (List Bool) → Option (List Bool)
sync_tracks m none = none
sync_tracks m (some tracks) = some (map (λ t. not m) tracks)

abbrev pub sync_client : Bool → Option ℕ → Session → Session
sync_client m none s = s
sync_client m (some c) s = emit (set_muted c m) s

unfoldable pub sync_mic_mute_state : Session → Session
sync_mic_mute_state s =
    let m = s.mic_muted || s.replaying in
    sync_client m s.client (record s { mic_stream = sync_tracks m s.mic_stream })

-- `acquireMicStream`, called by the client: the new stream's tracks are enabled.
unfoldable pub acquire_mic_stream : List Bool → Session → Session
acquire_mic_stream tracks s = record s { mic_stream = some (map (λ t. true) tracks) }

-- Over WebRTC nothing is dialled by the browser itself.
abbrev pub resolve : UrlApi → Session → Transport → Result (Option Target)
resolve api s webrtc = ok none
resolve api s ws = elim (connection_target api s.config s.settings) [
  | ok t ↦ ok (some t)
  | throw e ↦ throw e
]

abbrev pub prepare : Transport → Session → Session
prepare t s = record s {
  active_transport = t;
  view = record (s.view) { rtc_live = is_rtc t };
  log = reset_chat false ∷ clear_chat ∷ s.log;
}

abbrev pub ask_mic : Option Target → Transport → Bool → Session → Session
ask_mic target t audio s =
    let s' = caption (text "Asking for mic…") muted (set_state connecting (prepare t s)) in
    record s' { pending = s'.pending ++ priming target t audio ∷ [] }

abbrev pub gate_of_transport : Session → Transport → Option GateParams
gate_of_transport s ws = some (gate_params s.settings.noise_gate)
gate_of_transport s webrtc = none

unfoldable pub client_options : Session → Option Target → Transport → Bool → ClientOptions
client_options s target t audio = record {
  transport = t;
  target = target;
  noise_gate = gate_of_transport s t;
  ice_servers = if is_rtc t then s.config.ice_servers else [];
  voice = s.settings.voice;
  instructions = s.settings.instructions;
  startup_greeting = s.config.startup_greeting;
  tools = active_tool_defs s.config s.switches;
  audio_output_id = s.settings.audio_output_id;
  has_audio = audio;
}

-- `new S2sRealtimeClient(…)`, `c.setMuted` and `c.connect()`, which is waited for.
abbrev pub dial : Option Target → Transport → Bool → Session → Session
dial target t audio s = record s {
  client = some s.made;
  made = suc s.made;
  log =
      connect s.made
      ∷ set_muted s.made (s.mic_muted || s.replaying)
      ∷ new_client s.made (client_options s target t audio)
      ∷ s.log;
  pending = s.pending ++ connecting_client s.made audio ∷ [];
}

abbrev pub drop_audio : Bool → Session → Session
drop_audio audio s = if audio then emit close_audio s else s

module _ (api : UrlApi) (truncate : Text → Text) where
  -- `doStart` up to the wait for the microphone's permission. `audio`: an AudioContext was made.
  unfoldable pub do_start : Bool → Session → Session
  do_start audio s =
      let t = effective_transport s.config s.settings in
      elim (resolve api s t) [
        | ok target ↦ ask_mic target t audio s
        | throw e ↦ handle_start_error truncate e s
      ]

  -- Behind `primeMicPermission()`, which resolves or throws.
  unfoldable pub primed : Option Failure → Option Target → Transport → Bool → Session → Session
  primed none target t audio s = dial target t audio s
  primed (some e) target t audio s = handle_start_error truncate e (drop_audio audio s)

  -- Behind `c.connect()`.
  unfoldable pub connected : Option Failure → Bool → Session → Session
  connected none audio s = s
  connected (some e) audio s = handle_start_error truncate e (drop_audio audio s)
