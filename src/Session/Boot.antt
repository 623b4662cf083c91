-- ===== src/Session/Boot.antt =====
-- demo/main.js, the module's variables as the page loads, and its first `setState("idle")`. The
-- page's HTML, which gives the controls before that, is not in the repository.
use speech_to_speech_k8s.Base.{false, none, []}
use speech_to_speech_k8s.Settings.{Settings, Storage, ws}
use speech_to_speech_k8s.Connection.{Config}
use speech_to_speech_k8s.Tools.{Switches}
use speech_to_speech_k8s.View.{View, idle}
use speech_to_speech_k8s.Session.{Session}
use speech_to_speech_k8s.Session.Teardown.{set_state}

abbrev pub loaded : Config → Settings → Storage → Switches → View → Session
loaded c s st t v = record {
  config = c;
  settings = s;
  storage = st;
  switches = t;
  state = idle;
  view = v;
  active_transport = ws;
  client = none;
  made = 0;
  mic_stream = none;
  mic_muted = false;
  replaying = false;
  heartbeat_timer = 0;
  countdown_timer = 0;
  beats = [];
  countdowns = [];
  last_timer = 0;
  tracked_session = [];
  tracked_tier = [];
  queued_ticket = [];
  log = [];
  pending = [];
}

unfoldable pub boot : Config → Settings → Storage → Switches → View → Session
boot c s st t v = set_state idle (loaded c s st t v)
