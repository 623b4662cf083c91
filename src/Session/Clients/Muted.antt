-- ===== src/Session/Clients/Muted.antt =====
-- The microphone's mute: what the client is told of it, in every run of demo/main.js.
use speech_to_speech_k8s.Base.{
  ℕ, ◌≡◌, refl, Option, none, some, Bool, List, [], ◌∷◌, ◌==◌, ◌||◌, if◌then◌else◌, arith, Num,
  Text,
}
use speech_to_speech_k8s.Settings.{Settings, Storage}
use speech_to_speech_k8s.Connection.{Config}
use speech_to_speech_k8s.Connection.Url.{UrlApi}
use speech_to_speech_k8s.Tools.{Switches}
use speech_to_speech_k8s.View.{View, idle}
use speech_to_speech_k8s.Session.{Effect, set_muted}
use speech_to_speech_k8s.Session.Events.{Event}
use speech_to_speech_k8s.Session.Step.{run}
use speech_to_speech_k8s.Session.Boot.{loaded, boot}
use speech_to_speech_k8s.Session.Clients.Ends.{set_state-Holds}
use speech_to_speech_k8s.Session.Clients.{Clients, about, Asks, joins, closes, IsClosed, Holds}
use speech_to_speech_k8s.Session.Clients.Runs.{run_from-Holds}

-- What the client k was told last.
abbrev pub last_told : ℕ → List Effect → Option Bool
last_told k [] = none
last_told k (set_muted c m ∷ es) = if c == k then some m else last_told k es
last_told k (_ ∷ es) = last_told k es

-- The client of the page, if there is one, was told last what m says.
abbrev pub IsTold : Option ℕ → List Effect → Bool → Type 0
IsTold none log m = m ≡ m
IsTold (some c) log m = last_told c log ≡ some m

abbrev pub AreTold : Clients → Type 0
AreTold (_, o, log, m, _) = IsTold o log m

other-IsTold :
    (o : Option ℕ) (log : List Effect) (m : Bool) (e : Effect)
    → about e ≡ none
    → IsTold o log m
    → IsTold o (e ∷ log) m
other-IsTold none log m e q v = v
other-IsTold (some c) log m (set_muted k b) q v = absurd cc
other-IsTold (some c) log m _ q v = v

request-IsTold :
    (o : Option ℕ) (log : List Effect) (m : Bool) {c : ℕ} {w : Bool} {e : Effect}
    → Asks e c w
    → IsTold o log m
    → IsTold o (e ∷ log) m
request-IsTold none log m a v = v
request-IsTold (some k) log m (joins c) v = v
request-IsTold (some k) log m (closes c) v = v

newly-IsTold :
    (o : Option ℕ) (log : List Effect) (c : ℕ) (now : Bool)
    → o ≡ some c
    → IsTold o (set_muted c now ∷ log) now
newly-IsTold none log c now q = refl
newly-IsTold (some k) log c now q = grind arith

unheld-IsTold : (o : Option ℕ) (log : List Effect) (now : Bool) → o ≡ none → IsTold o log now
unheld-IsTold none log now q = refl
unheld-IsTold (some k) log now q = absurd cc

AreTold-IsClosed : IsClosed AreTold
AreTold-IsClosed = record {
  undialled = record {
    steady = record {
      other = λ e q v. other-IsTold _ _ _ e q v;
      told = λ a q v. request-IsTold _ _ _ a v;
      muted = λ now q v. newly-IsTold _ _ _ now q;
      unheld = λ now q v. unheld-IsTold _ _ now q;
      fewer = λ i l v. v;
    };
    gone = λ now v. refl;
    asked = λ v. v;
  };
  dialled = λ {n = n} {log = log} {m = m} x v. newly-IsTold (some n) log n m refl;
}

boot-AreTold :
    (c : Config) (s : Settings) (st : Storage) (t : Switches) (v : View)
    → Holds AreTold (boot c s st t v)
unfolding boot
boot-AreTold c s st t v =
    set_state-Holds AreTold-IsClosed.undialled.steady idle (loaded c s st t v) refl

-- From the page's load on, whatever happens and in whatever order the waits end: the client that
-- the page holds, if any, was told last to be muted exactly if the user has muted the microphone or
-- the user's own audio is played back.
pub run-AreTold :
    (api : UrlApi) (number : Text → Num) (truncate : Text → Text) (c : Config) (s : Settings)
    (st : Storage) (t : Switches) (v : View) (es : List Event)
    → let now = run api number truncate (boot c s st t v) es in
      IsTold now.client now.log (now.mic_muted || now.replaying)
run-AreTold api number truncate c s st t v es =
    run_from-Holds api number truncate AreTold-IsClosed es (boot c s st t v)
      (boot-AreTold c s st t v)
