-- ===== src/Connection/Url/Scheme.antt =====
-- What `buildDirectWsUrl` makes of an address: always a WebSocket URL, secured as asked.
use speech_to_speech_k8s.Base.{
  ◌≡◌, refl, ◌≢◌, inl, inr, ◌↔◌, Bool, true, false, not, ◌||◌, Option, none, some, [], ◌∷◌, ◌++◌,
  ◌==◌, arith, if◌then◌else◌, Bool-cases, Text, text, text_eq, trim,
}
use speech_to_speech_k8s.Connection.Url.{
  UrlApi, lower, strip_ci, starts_ci, is_ws, is_http, is_local, serialised, unless_empty, if_same,
  replace_http, with_scheme, with_path, build_direct_ws_url, realtime_path,
}

abbrev and_then : Option Text → (Text → Option Text) → Option Text
and_then none k = none
and_then (some t) k = k t

strip_ci-append : (p q s : Text) → strip_ci (p ++ q) s ≡ and_then (strip_ci p s) (strip_ci q)
unfolding strip_ci
strip_ci-append [] q s = refl
strip_ci-append (c ∷ p) q [] = refl
strip_ci-append (c ∷ p) q (d ∷ s) = elim (Bool-cases (lower d == c)) [
  | inl e ↦ rw (e, if_same) (strip_ci-append p q s)
  | inr e ↦ rw (e, if_same) refl
]

http_parts :
    (s : Text)
    → (strip_ci (text "http://") s ≡ and_then (strip_ci (text "http") s) (strip_ci (text "://")))
      × (strip_ci (text "https://") s
          ≡ and_then (strip_ci (text "http") s) (strip_ci (text "s://")))
unfolding text
http_parts s =
    (strip_ci-append (text "http") (text "://") s, strip_ci-append (text "http") (text "s://") s)

-- An address asks for TLS by its scheme; one without a scheme gets TLS unless it is local.
abbrev pub asks_tls : Text → Bool
asks_tls s =
    if is_ws s
    then starts_ci (text "wss://") s
    else if is_http s
    then starts_ci (text "https://") s
    else not (is_local s)

-- The result is a WebSocket address, and it is a secure one if `tls`.
abbrev pub IsWsAddress : Bool → Text → Type 0
IsWsAddress tls r = (is_ws r ≡ true) × (starts_ci (text "wss://") r ≡ tls)

ws_prefix : (s : Text) → IsWsAddress false (text "ws://" ++ s)
unfolding text strip_ci
ws_prefix s = (refl, refl)

wss_prefix : (s : Text) → IsWsAddress true (text "wss://" ++ s)
unfolding text strip_ci
wss_prefix s = (refl, refl)

bare_prefix :
    (b : Bool) (s : Text) → IsWsAddress (not b) ((if b then text "ws://" else text "wss://") ++ s)
bare_prefix true s = ws_prefix s
bare_prefix false s = wss_prefix s

ws_rest :
    (r : Text)
    → (strip_ci (text "ws://") (text "ws" ++ r) ≡ strip_ci (text "://") r)
      × (strip_ci (text "wss://") (text "ws" ++ r) ≡ strip_ci (text "s://") r)
unfolding text strip_ci
ws_rest r = (refl, refl)

http_prefix :
    (s : Text) (o : Option Text)
    → strip_ci (text "http") s ≡ o
    → is_http s ≡ true
    → IsWsAddress (starts_ci (text "https://") s) (replace_http o s)
http_prefix s none e h = ground (arith, http_parts s)
http_prefix s (some r) e h = ground (arith, http_parts s, ws_rest r)

-- Every address but the empty one gets a WebSocket scheme, one that asks for TLS the secure one.
pub with_scheme-IsWsAddress : (s : Text) → IsWsAddress (asks_tls s) (with_scheme s)
unfolding with_scheme
with_scheme-IsWsAddress s = elim (Bool-cases (is_ws s)) [
  | inl w ↦ rw (w, if◌then◌else◌) (w, refl)
  | inr w ↦ elim (Bool-cases (is_http s)) [
    | inl h ↦ rw (w, h) (http_prefix s (strip_ci (text "http") s) refl h)
    | inr h ↦ rw (w, h) (bare_prefix (is_local s) s)
  ]
]

-- The documented behaviour of the browser's `URL` on WebSocket addresses: parsing one keeps its
-- scheme, and so does setting a path.
pub record KeepsScheme (api : UrlApi) : Type 0 where
  pub parsed :
      (s : Text) (u : api.Url) (tls : Bool)
      → api.parse s ≡ some u
      → IsWsAddress tls s
      → IsWsAddress tls (api.to_string u)
  pub moved :
      (p : Text) (u : api.Url) (tls : Bool)
      → IsWsAddress tls (api.to_string u)
      → IsWsAddress tls (api.to_string (api.set_pathname p u))

module _ (api : UrlApi) (keeps : KeepsScheme api) where
  open api use {Url, parse, pathname, set_pathname, to_string}

  pub with_path-IsWsAddress :
      (u : Url) (tls : Bool)
      → IsWsAddress tls (to_string u)
      → IsWsAddress tls (to_string (with_path api u))
  unfolding with_path
  with_path-IsWsAddress u tls h =
      elim (Bool-cases (text_eq (pathname u) [] || text_eq (pathname u) (text "/"))) [
        | inl e ↦ rw e (keeps.moved realtime_path u tls h)
        | inr e ↦ rw e h
      ]

  built :
      (s : Text) (o : Option Url) (tls : Bool)
      → parse s ≡ o
      → IsWsAddress tls s
      → IsWsAddress tls (serialised api s o)
  built s none tls e h = h
  built s (some u) tls e h = with_path-IsWsAddress u tls (keeps.parsed s u tls e h)

  -- `trim raw` as the source's `s`
  built_text : (t : Text) → t ≢ [] → IsWsAddress (asks_tls t) (unless_empty api t)
  built_text [] h = absurd (h refl)
  built_text (c ∷ t) h =
      let s = with_scheme (c ∷ t) in
      built s (parse s) (asks_tls (c ∷ t)) refl (with_scheme-IsWsAddress (c ∷ t))

-- The empty address and one of spaces give the empty text. Every other address gives a WebSocket
-- URL, whether or not the browser can parse it; it is secure exactly if the address asks for TLS.
-- The browser's `URL` is assumed to keep a WebSocket scheme.
pub build_direct_ws_url-IsWsAddress :
    (api : UrlApi) (raw : Text)
    → KeepsScheme api
    → (trim raw ≡ [] → build_direct_ws_url api raw ≡ [])
      × (trim raw ≢ [] → IsWsAddress (asks_tls (trim raw)) (build_direct_ws_url api raw))
unfolding build_direct_ws_url
build_direct_ws_url-IsWsAddress api raw keeps =
    (λ e. rw e refl, λ h. built_text api keeps (trim raw) h)

not-IsWsAddress-nil : (tls : Bool) → ¬ IsWsAddress tls []
unfolding strip_ci text
not-IsWsAddress-nil tls h = cc (h.0)

nil_of : (t : Text) → ¬ (t ≢ []) → t ≡ []
nil_of [] h = refl
nil_of (c ∷ t) h = absurd (h (λ e. cc))

-- So a URL comes out exactly if something but spaces was typed.
pub build_direct_ws_url-eq-nil_iff :
    (api : UrlApi) (raw : Text)
    → KeepsScheme api
    → (build_direct_ws_url api raw ≡ []) ↔ (trim raw ≡ [])
build_direct_ws_url-eq-nil_iff api raw keeps =
    let (none_typed, typed) = build_direct_ws_url-IsWsAddress api raw keeps in
    (
      λ e.
          nil_of (trim raw)
            (λ some_typed. not-IsWsAddress-nil (asks_tls (trim raw)) (rw e at (typed some_typed))),
      none_typed,
    )
