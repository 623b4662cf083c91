-- ===== src/Session/Clients/Made.antt =====
-- Clients are made in turn and used only afterwards, in every run of demo/main.js.
use speech_to_speech_k8s.Base.{
  Bool, ℕ, suc, ◌<◌, ◌≡◌, refl, subst, Option, none, some, List, [], ◌∷◌, arith, Num, Text,
}
use speech_to_speech_k8s.Settings.{Settings, Storage}
use speech_to_speech_k8s.Connection.{Config}
use speech_to_speech_k8s.Connection.Url.{UrlApi}
use speech_to_speech_k8s.Tools.{Switches}
use speech_to_speech_k8s.View.{View, idle}
use speech_to_speech_k8s.Session.{Effect, new_client, set_muted, connect, join, close}
use speech_to_speech_k8s.Session.Events.{Event}
use speech_to_speech_k8s.Session.Step.{run}
use speech_to_speech_k8s.Session.Boot.{loaded, boot}
use speech_to_speech_k8s.Session.Clients.Ends.{set_state-Holds}
use speech_to_speech_k8s.Session.Clients.{
  Clients, clients, about, Asks, joins, closes, IsClosed, Holds,
}
use speech_to_speech_k8s.Session.Clients.Runs.{run_from-Holds}

-- The log of a page that has made n clients: they were made in turn, from 0 on, and each was muted,
-- connected, asked to join or closed only after it was made.
abbrev pub AreMade : ℕ → List Effect → Type 0
AreMade n [] = n ≡ 0
AreMade n (new_client c _ ∷ es) = (n ≡ suc c) × AreMade c es
AreMade n (set_muted c _ ∷ es) = (c < n) × AreMade n es
AreMade n (connect c ∷ es) = (c < n) × AreMade n es
AreMade n (join c ∷ es) = (c < n) × AreMade n es
AreMade n (close c ∷ es) = (c < n) × AreMade n es
AreMade n (_ ∷ es) = AreMade n es

-- The client of the page, if there is one, is one of those.
abbrev pub IsMade : ℕ → Option ℕ → Type 0
IsMade n none = n ≡ n
IsMade n (some c) = c < n

abbrev pub AreKnown : Clients → Type 0
AreKnown (n, c, log, _, _) = IsMade n c × AreMade n log

other_made :
    (n : ℕ) (log : List Effect) (e : Effect) → about e ≡ none → AreMade n log → AreMade n (e ∷ log)
other_made n log (new_client c x) q v = absurd (cc)
other_made n log (set_muted c m) q v = absurd (cc)
other_made n log (connect c) q v = absurd (cc)
other_made n log (join c) q v = absurd (cc)
other_made n log (close c) q v = absurd (cc)
other_made n log _ q v = v

told-AreKnown :
    (n : ℕ) (o : Option ℕ) (log : List Effect) (m : Bool) (i j : ℕ) {c : ℕ} {w : Bool} {e : Effect}
    → Asks e c w
    → o ≡ some c
    → AreKnown (n, o, log, m, i)
    → AreKnown (n, o, e ∷ log, m, j)
told-AreKnown n o log m i j (joins c) q v = (v.0, (subst (IsMade n) q v.0, v.1))
told-AreKnown n o log m i j (closes c) q v = (v.0, (subst (IsMade n) q v.0, v.1))

pub AreKnown-IsClosed : IsClosed AreKnown
AreKnown-IsClosed = record {
  undialled = record {
    steady = record {
      other = λ e q v. (v.0, other_made _ _ e q v.1);
      told = λ {j = j} {m = m} a q v. told-AreKnown _ _ _ m j j a q v;
      muted = λ now q v. (v.0, (subst (IsMade _) q v.0, v.1));
      unheld = λ now q v. v;
      fewer = λ i l v. v;
    };
    gone = λ now v. (refl, v.1);
    asked = λ v. v;
  };
  dialled = λ x v. (omega arith, (omega arith, (omega arith, (refl, v.1))));
}

boot-AreKnown :
    (c : Config) (s : Settings) (st : Storage) (t : Switches) (v : View)
    → Holds AreKnown (boot c s st t v)
unfolding boot
boot-AreKnown c s st t v =
    set_state-Holds AreKnown-IsClosed.undialled.steady idle (loaded c s st t v) (refl, refl)

-- From the page's load on, whatever happens and in whatever order the waits end: the clients are
-- made in turn, none is muted, connected, asked to join or closed before it is made, and the
-- client that the page holds, if any, is one of those made.
pub run-AreKnown :
    (api : UrlApi) (number : Text → Num) (truncate : Text → Text) (c : Config) (s : Settings)
    (st : Storage) (t : Switches) (v : View) (es : List Event)
    → AreKnown (clients (run api number truncate (boot c s st t v) es))
run-AreKnown api number truncate c s st t v es =
    run_from-Holds api number truncate AreKnown-IsClosed es (boot c s st t v)
      (boot-AreKnown c s st t v)
