-- ===== src/Connection/Modes.antt =====
-- The three modes of a deployment, and the guard in front of a start.
use speech_to_speech_k8s.Base.{
  ◌≡◌, refl, sym, ◌∙◌, ◌≢◌, Bool, true, false, not, Option, none, some, [], ◌∷◌, arith, Text, text,
  text_eq, is_nonempty, or_text, trim,
}
use speech_to_speech_k8s.Js.Trim.{trim_idem, trim-nil}
use speech_to_speech_k8s.Js.Json.{Json, null, bool, num, str, arr, obj, end, field, lookup, get}
use speech_to_speech_k8s.Js.Result.{Failure, ok, throw}
use speech_to_speech_k8s.Settings.{Settings, Transport, ws, webrtc}
use speech_to_speech_k8s.Connection.Url.{UrlApi, build_direct_ws_url}
use speech_to_speech_k8s.Connection.Url.Scheme.{KeepsScheme, build_direct_ws_url-eq-nil_iff}
use speech_to_speech_k8s.Connection.{
  Config, initial, Fetched, failed, response, trimmed, trimmed_string, read_mode, read_target,
  read_config, fetch_config, Target, session_url, direct_url, target_of, connection_target,
  missing_server_url, both_webrtc, effective_transport,
}

-- The pinned URL and the greeting carry no spaces at their ends.
pub record IsTrimmed (c : Config) : Type 0 where
  pub url : trim c.pinned_url ≡ c.pinned_url
  pub greeting : trim c.startup_greeting ≡ c.startup_greeting

pub initial-IsTrimmed : IsTrimmed initial
initial-IsTrimmed = record { url = trim-nil; greeting = trim-nil }

trimmed-eq-trim : (o : Option Json) (t : Text) → trimmed o ≡ some t → trim t ≡ t
trimmed-eq-trim none t e = ground (arith, trim-nil)
trimmed-eq-trim (some (str s)) t e = ground (arith, trim_idem s)
trimmed-eq-trim (some null) t e = ground (arith, trim-nil)
trimmed-eq-trim (some (bool b)) t e = ground (arith, trim-nil)
trimmed-eq-trim (some (num n)) t e = ground (arith, trim-nil)
trimmed-eq-trim (some (arr v)) t e = cc
trimmed-eq-trim (some (obj v)) t e = cc

pub non_empty-target :
    (api : UrlApi) (t : Text)
    → KeepsScheme api
    → trim t ≢ []
    → (g : Target) × (target_of api (build_direct_ws_url api t) ≡ ok g)
non_empty-target api t keeps h =
    found (build_direct_ws_url api t) (λ e. h ((build_direct_ws_url-eq-nil_iff api t keeps).0 e))
  where
    found : (u : Text) → u ≢ [] → (g : Target) × (target_of api u ≡ ok g)
    found [] h = absurd (h refl)
    found (c ∷ u) h = (direct_url (c ∷ u), refl)

read_target-IsTrimmed :
    (json : Json) (o : Option Text) (c : Config)
    → trimmed (get json (text "s2sUrl")) ≡ o
    → IsTrimmed c
    → trim (read_target json o c).pinned_url ≡ (read_target json o c).pinned_url
read_target-IsTrimmed json none c e v = v.url
read_target-IsTrimmed json (some t) c e v = trimmed-eq-trim (get json (text "s2sUrl")) t e

trimmed_string_idem : (o : Option Json) → trim (trimmed_string o) ≡ trimmed_string o
trimmed_string_idem none = trim-nil
trimmed_string_idem (some (str s)) = trim_idem s
trimmed_string_idem (some _) = trim-nil

read_target-greeting :
    (json : Json) (o : Option Text) (c : Config)
    → IsTrimmed c
    → trim (read_target json o c).startup_greeting ≡ (read_target json o c).startup_greeting
read_target-greeting json none c v = v.greeting
read_target-greeting json (some t) c v = trimmed_string_idem (get json (text "startupGreeting"))

parsed-IsTrimmed :
    (json : Json) (c : Config)
    → IsTrimmed c
    → IsTrimmed (read_target json (trimmed (get json (text "s2sUrl"))) (read_mode json c))
parsed-IsTrimmed json c v =
    let o = trimmed (get json (text "s2sUrl")) in
    let kept : IsTrimmed (read_mode json c) = record { url = v.url; greeting = v.greeting } in
    record {
      url = read_target-IsTrimmed json o (read_mode json c) refl kept;
      greeting = read_target-greeting json o (read_mode json c) kept;
    }

read_config-IsTrimmed : (json : Json) (c : Config) → IsTrimmed c → IsTrimmed (read_config json c)
read_config-IsTrimmed null c v = v
read_config-IsTrimmed json c v = parsed-IsTrimmed json c v

-- Whatever `/api/config` answers, the pinned URL and the greeting stay free of outer spaces.
pub fetch_config-IsTrimmed : (f : Fetched) (c : Config) → IsTrimmed c → IsTrimmed (fetch_config f c)
unfolding fetch_config
fetch_config-IsTrimmed failed c v = v
fetch_config-IsTrimmed (response false body) c v = v
fetch_config-IsTrimmed (response true none) c v = v
fetch_config-IsTrimmed (response true (some json)) c v = read_config-IsTrimmed json c v

module _ (api : UrlApi) (keeps : KeepsScheme api) where
  pinned-target :
      (t : Text)
      → trim t ≡ t
      → t ≢ []
      → (g : Target) × (target_of api (build_direct_ws_url api t) ≡ ok g)
  pinned-target t e h = non_empty-target api t keeps (λ n. h (sym e ∙ n))

  target_cases :
      (u : Text)
      → (is_nonempty u ≡ true → (g : Target) × (target_of api u ≡ ok g))
        × (is_nonempty u ≡ false → (e : Failure) × (target_of api u ≡ throw e))
  target_cases [] = (λ h. cc, λ _. (_, refl))
  target_cases (c ∷ u) = (λ _. (_, refl), λ h. cc)

-- A start is refused with a thrown error exactly if `missingServerUrl` has found that no address
-- is set, so behind that guard `connectionTarget` always has a target. The pinned URL is trimmed,
-- as `fetchConfig` leaves it, and the browser's `URL` keeps a WebSocket scheme.
pub connection_target-missing_server_url :
    (api : UrlApi) (c : Config) (s : Settings)
    → KeepsScheme api
    → IsTrimmed c
    → (missing_server_url api c s ≡ false → (g : Target) × (connection_target api c s ≡ ok g))
      × (missing_server_url api c s ≡ true → (e : Failure) × (connection_target api c s ≡ throw e))
unfolding connection_target missing_server_url
connection_target-missing_server_url api c s keeps v = split c.allow_direct c.pinned_url refl refl
  where
    split :
        (direct : Bool) (pinned : Text)
        → c.allow_direct ≡ direct
        → c.pinned_url ≡ pinned
        → (missing_server_url api c s ≡ false → (g : Target) × (connection_target api c s ≡ ok g))
          × (missing_server_url api c s ≡ true
              → (e : Failure) × (connection_target api c s ≡ throw e))
    split false pinned d p = rw d (λ _. (_, refl), λ h. cc)
    split true [] d p =
        let (found, refused) = target_cases api keeps (build_direct_ws_url api s.direct_url) in
        rw (d, p) (λ h. found (ground arith), λ h. refused (ground arith))
    split true (k ∷ t) d p =
        rw (d, p) (λ _. pinned-target api keeps (k ∷ t) (rw p at v.url) (λ e. cc), λ h. cc)

-- What the deployment's `/api/config` reports: whether there is a load balancer, the pinned URL
-- and the greeting. WebRTC is offered exactly with a pinned URL (`config` of demo/server.py).
unfoldable pub server_json : Bool → Text → Text → Json
server_json lb url greeting = obj (
    field (text "lb") (bool lb) (
      field (text "allowDirect") (bool (not lb)) (
        field (text "s2sUrl") (str url) (
          field (text "rtc") (bool (is_nonempty url))
            (field (text "startupGreeting") (str greeting) end)))))

abbrev pub reported : Bool → Text → Text → Config
reported lb url greeting = fetch_config (response true (some (server_json lb url greeting))) initial

reported_config :
    (lb : Bool) (url greeting : Text)
    → let c = reported lb url greeting in
      (c.lb_mode ≡ lb)
      × (c.allow_direct ≡ not lb)
      × (c.pinned_url ≡ trim url)
      × (c.rtc_available ≡ is_nonempty url)
      × (c.limiter_on ≡ lb)
      × (c.startup_greeting ≡ trim greeting)
unfolding fetch_config server_json lookup text text_eq
reported_config true url greeting = (refl, refl, refl, refl, refl, refl)
reported_config false url greeting = (refl, refl, refl, refl, refl, refl)

is_nonempty_of_trim : (t : Text) → trim t ≢ [] → is_nonempty t ≡ true
is_nonempty_of_trim [] h = absurd (h trim-nil)
is_nonempty_of_trim (c ∷ t) h = refl

both_webrtc-true : (t : Transport) → both_webrtc true t ≡ t
both_webrtc-true ws = refl
both_webrtc-true webrtc = refl

pub or_text_nonempty : (t d : Text) → t ≢ [] → (or_text t d ≡ t) × (is_nonempty t ≡ true)
or_text_nonempty [] d h = absurd (h refl)
or_text_nonempty (c ∷ t) d h = (refl, refl)

-- The three modes. Behind a load balancer every connection goes through the session proxy, over
-- WebSocket, whatever the user has saved. With a pinned URL that URL is dialled, whatever the user
-- has saved, over the transport that the user has chosen. With neither it is the user's own URL,
-- over WebSocket.
pub reported_modes :
    (api : UrlApi) (lb : Bool) (url greeting : Text) (s : Settings)
    → let c = reported lb url greeting in
      (lb ≡ true
        → (connection_target api c s ≡ ok (session_url (text "api/session")))
          × (effective_transport c s ≡ ws))
      × (lb ≡ false
          → trim url ≢ []
          → (connection_target api c s ≡ target_of api (build_direct_ws_url api (trim url)))
            × (effective_transport c s ≡ s.transport))
      × (lb ≡ false
          → trim url ≡ []
          → (connection_target api c s ≡ target_of api (build_direct_ws_url api s.direct_url))
            × (effective_transport c s ≡ ws))
unfolding connection_target effective_transport
reported_modes api lb url greeting s =
    let (_, direct, pinned, rtc, _, _) = reported_config lb url greeting in
    (
      λ h. (rw (direct, h) refl, rw (direct, h) refl),
      λ h n.
          let (kept, some_url) = or_text_nonempty (trim url) s.direct_url n in
          (
            rw (direct, pinned, kept, h) refl,
            rw (direct, pinned, rtc, some_url, is_nonempty_of_trim url n, h)
                (both_webrtc-true s.transport),
          ),
      λ h e. (rw (direct, pinned, e, h) refl, rw (direct, pinned, e, h) refl),
    )
