-- ===== src/Session/Starts.antt =====
-- A tap on the orb starts a conversation, or asks for the address that is missing.
use speech_to_speech_k8s.Base.{
  ◌≡◌, refl, ap, Bool, true, false, Option, none, some, [], ◌∷◌, ◌++◌, Num, Text,
}
use speech_to_speech_k8s.Js.Result.{ok}
use speech_to_speech_k8s.Settings.{Transport, ws, webrtc}
use speech_to_speech_k8s.Connection.{Target, missing_server_url, effective_transport}
use speech_to_speech_k8s.Connection.Url.{UrlApi}
use speech_to_speech_k8s.Connection.Url.Scheme.{KeepsScheme}
use speech_to_speech_k8s.Connection.Modes.{IsTrimmed, connection_target-missing_server_url}
use speech_to_speech_k8s.View.{connecting}
use speech_to_speech_k8s.Session.{Session, priming, prompt_url}
use speech_to_speech_k8s.Session.Teardown.{emit}
use speech_to_speech_k8s.Session.Start.{resolve, prepare, ask_mic, do_start}
use speech_to_speech_k8s.Session.Events.{tap}
use speech_to_speech_k8s.Session.Step.{can_start, on_tap, step}
use speech_to_speech_k8s.Session.Release.{set_state_kept}

-- The microphone's permission is asked for, by one function that now waits.
pub record IsAsking (audio : Bool) (before after : Session) : Type 0 where
  pub state : after.state ≡ connecting
  pub target : Option Target
  pub waits :
      after.pending
      ≡ before.pending
        ++ priming target (effective_transport before.config before.settings) audio ∷ []

pub ask_mic-IsAsking :
    (target : Option Target) (audio : Bool) (s : Session)
    → IsAsking audio s (ask_mic target (effective_transport s.config s.settings) audio s)
ask_mic-IsAsking target audio s =
    let t = effective_transport s.config s.settings in
    let (at, _, _, _, _, _, same, _) = set_state_kept connecting (prepare t s) in
    record {
      state = at;
      target = target;
      waits = ap (λ ts. ts ++ priming target t audio ∷ []) same;
    }

-- `connectionTarget` is only asked where it has an answer.
pub resolved :
    (api : UrlApi) (s : Session) (t : Transport)
    → KeepsScheme api
    → IsTrimmed s.config
    → missing_server_url api s.config s.settings ≡ false
    → (target : Option Target) × (resolve api s t ≡ ok target)
resolved api s webrtc keeps v set = (none, refl)
resolved api s ws keeps v set =
    let (found, _) = connection_target-missing_server_url api s.config s.settings keeps v in
    let (g, e) = found set in (some g, rw (e, resolve) refl)

-- In the idle state and after an error a tap either asks for the server's address, if that is
-- missing, or goes on to ask for the microphone: the start never fails for want of an address.
-- The configuration is as `fetchConfig` leaves it, and the browser's `URL` keeps a WebSocket scheme.
pub tap-IsAsking :
    (api : UrlApi) (number : Text → Num) (truncate : Text → Text) (s : Session) (audio : Bool)
    → KeepsScheme api
    → IsTrimmed s.config
    → can_start s.state ≡ true
    → (missing_server_url api s.config s.settings ≡ true
        → step api number truncate s (tap audio) ≡ emit prompt_url s)
      × (missing_server_url api s.config s.settings ≡ false
          → IsAsking audio s (step api number truncate s (tap audio)))
unfolding step on_tap do_start
tap-IsAsking api number truncate s audio keeps v may = (
  λ m. rw (may, m) refl,
  λ set.
      let (target, e) = resolved api s (effective_transport s.config s.settings) keeps v set in
      rw (may, set, e, do_start) (ask_mic-IsAsking target audio s),
)
