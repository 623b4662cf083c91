-- ===== src/Connection/Url/Again.antt =====
-- `buildDirectWsUrl` of its own result: an address that has been normalised stays as it is.
use speech_to_speech_k8s.Base.{
  ◌≡◌, refl, ap, ◌∙◌, inl, inr, true, false, ◌||◌, some, [], ◌∷◌, Bool-cases, Text, text, text_eq,
  trim,
}
use speech_to_speech_k8s.Js.Trim.{trim-nil}
use speech_to_speech_k8s.Connection.Url.{
  UrlApi, is_ws, unless_empty, with_scheme, with_path, build_direct_ws_url, realtime_path,
}
use speech_to_speech_k8s.Connection.Url.Scheme.{
  KeepsScheme, asks_tls, with_scheme-IsWsAddress, with_path-IsWsAddress,
}

-- The documented behaviour of the browser's `URL` on WebSocket addresses: what it prints it reads
-- back, it prints no spaces at the ends, and a path that is set is there.
pub record ReadsBack (api : UrlApi) : Type 0 where
  pub printed :
      (u : api.Url) → is_ws (api.to_string u) ≡ true → api.parse (api.to_string u) ≡ some u
  pub unspaced :
      (u : api.Url) → is_ws (api.to_string u) ≡ true → trim (api.to_string u) ≡ api.to_string u
  pub path_set :
      (u : api.Url)
      → is_ws (api.to_string u) ≡ true
      → api.pathname (api.set_pathname realtime_path u) ≡ realtime_path

with_scheme_of_is_ws : (s : Text) → is_ws s ≡ true → with_scheme s ≡ s
unfolding with_scheme
with_scheme_of_is_ws s h = rw h refl

-- The path that is set is one that stays.
realtime_path-given : text_eq realtime_path [] || text_eq realtime_path (text "/") ≡ false
unfolding text text_eq
realtime_path-given = refl

module _ (api : UrlApi) (keeps : KeepsScheme api) (reads : ReadsBack api) where
  open api use {Url, parse, pathname, set_pathname, to_string}

  with_path_idem :
      (u : Url) → is_ws (to_string u) ≡ true → with_path api (with_path api u) ≡ with_path api u
  unfolding with_path
  with_path_idem u h =
      elim (Bool-cases (text_eq (pathname u) [] || text_eq (pathname u) (text "/"))) [
        | inl e ↦ rw (e, reads.path_set u h, realtime_path-given) refl
        | inr e ↦ rw (e, e) refl
      ]

  printed_again :
      (r : Text) (v : Url)
      → is_ws r ≡ true
      → parse r ≡ some v
      → with_path api v ≡ v
      → to_string v ≡ r
      → unless_empty api r ≡ r
  printed_again [] v h e w q = refl
  printed_again (c ∷ t) v h e w q = rw (with_scheme_of_is_ws (c ∷ t) h, e) (ap to_string w ∙ q)

  built_again :
      (u : Url)
      → is_ws (to_string (with_path api u)) ≡ true
      → is_ws (to_string u) ≡ true
      → build_direct_ws_url api (to_string (with_path api u)) ≡ to_string (with_path api u)
  unfolding build_direct_ws_url
  built_again u h k = rw (reads.unspaced (with_path api u) h) (
      printed_again _ (with_path api u) h (reads.printed (with_path api u) h) (with_path_idem u k)
        refl)

  parsed_again :
      (t : Text) (u : Url)
      → parse (with_scheme t) ≡ some u
      → build_direct_ws_url api (unless_empty api t) ≡ unless_empty api t
  unfolding build_direct_ws_url
  parsed_again [] u e = rw trim-nil refl
  parsed_again (c ∷ t) u e =
      let ws =
        keeps.parsed (with_scheme (c ∷ t)) u (asks_tls (c ∷ t)) e
          (with_scheme-IsWsAddress (c ∷ t)) in
      let moved = with_path-IsWsAddress api keeps u (asks_tls (c ∷ t)) ws in
      rw e (built_again u moved.0 ws.0)

-- Normalising an address that `URL` can read gives one that normalising leaves as it is. The
-- browser's `URL` is assumed to keep a WebSocket scheme and to read back what it prints.
pub build_direct_ws_url_idem :
    (api : UrlApi) (raw : Text) {u : api.Url}
    → KeepsScheme api
    → ReadsBack api
    → api.parse (with_scheme (trim raw)) ≡ some u
    → build_direct_ws_url api (build_direct_ws_url api raw) ≡ build_direct_ws_url api raw
unfolding build_direct_ws_url
build_direct_ws_url_idem api raw {u} keeps reads e = parsed_again api keeps reads (trim raw) u e
