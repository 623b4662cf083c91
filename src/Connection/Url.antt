-- ===== src/Connection/Url.antt =====
-- demo/main.js, `buildDirectWsUrl`: a typed address becomes a realtime WebSocket URL.
pub mod Scheme
pub mod Again
use speech_to_speech_k8s.Base.{
  ℕ, ◌+◌, Bool, true, false, ◌||◌, Option, none, some, [], ◌∷◌, ◌++◌, ◌==◌, leb, ◌&&◌,
  if◌then◌else◌, Text, text, text_eq, trim,
}

-- The browser's `URL`: the constructor (which may throw), `pathname`, its setter, `toString`.
pub record UrlApi : Type 1 where
  pub Url : Type 0
  pub parse : Text → Option Url
  pub pathname : Url → Text
  pub set_pathname : Text → Url → Url
  pub to_string : Url → Text

-- The case folding of a regular expression with the flag `i` and a pattern in ASCII.
unfoldable pub lower : ℕ → ℕ
lower c = if leb b'A' c && leb c b'Z' then c + 32 else c

abbrev if_same : Bool → Option Text → Option Text
if_same true rest = rest
if_same false rest = none

-- What follows the prefix `p`, letters compared without case.
unfoldable pub strip_ci : Text → Text → Option Text
unfolding lower
strip_ci [] s = some s
strip_ci (c ∷ p) [] = none
strip_ci (c ∷ p) (d ∷ s) = if_same (lower d == c) (strip_ci p s)

abbrev is_some : Option Text → Bool
is_some none = false
is_some (some t) = true

abbrev pub starts_ci : Text → Text → Bool
starts_ci p s = is_some (strip_ci p s)

-- `/^wss?:\/\//i`
abbrev pub is_ws : Text → Bool
is_ws s = starts_ci (text "ws://") s || starts_ci (text "wss://") s

-- `/^https?:\/\//i`
abbrev pub is_http : Text → Bool
is_http s = starts_ci (text "http://") s || starts_ci (text "https://") s

-- `(:|\/|$)`
abbrev ends_host : Option Text → Bool
ends_host none = false
ends_host (some []) = true
ends_host (some (c ∷ s)) = c == b':' || c == b'/'

-- `/^(localhost|127\.0\.0\.1|\[::1\])(:|\/|$)/i`
abbrev pub is_local : Text → Bool
is_local s =
    ends_host (strip_ci (text "localhost") s)
    || ends_host (strip_ci (text "127.0.0.1") s)
    || ends_host (strip_ci (text "[::1]") s)

-- `s.replace(/^http/i, "ws")`
abbrev replace_http : Option Text → Text → Text
replace_http (some rest) s = text "ws" ++ rest
replace_http none s = s

unfoldable pub with_scheme : Text → Text
with_scheme s =
    if is_ws s
    then s
    else if is_http s
    then replace_http (strip_ci (text "http") s) s
    else (if is_local s then text "ws://" else text "wss://") ++ s

abbrev pub realtime_path : Text
realtime_path = text "/v1/realtime"

module _ (api : UrlApi) where
  open api use {Url, parse, pathname, set_pathname, to_string}

  unfoldable pub with_path : Url → Url
  with_path u =
      if text_eq (pathname u) [] || text_eq (pathname u) (text "/")
      then set_pathname realtime_path u
      else u

  abbrev serialised : Text → Option Url → Text
  serialised s none = s
  serialised s (some u) = to_string (with_path u)

  abbrev unless_empty : Text → Text
  unless_empty [] = []
  unless_empty (c ∷ t) = let s = with_scheme (c ∷ t) in serialised s (parse s)

  unfoldable pub build_direct_ws_url : Text → Text
  build_direct_ws_url raw = unless_empty (trim raw)
