-- ===== src/Examples/Urls.antt =====
-- A browser's `URL` that reads back what it prints, for addresses of one host.
use speech_to_speech_k8s.Base.{
  Text, Option, ◌≡◌, refl, sym, subst, ◌∙◌, Bool, true, false, some, none, if◌then◌else◌, text,
  text_eq, trim, trim_start, trim_end, is_space,
}
use mathlib.Core.Option.{some-injective}
use speech_to_speech_k8s.Connection.Url.{
  UrlApi, strip_ci, starts_ci, is_ws, with_scheme, build_direct_ws_url,
}
use speech_to_speech_k8s.Connection.Url.Scheme.{KeepsScheme, IsWsAddress}
use speech_to_speech_k8s.Connection.Url.Again.{ReadsBack, build_direct_ws_url_idem}
use speech_to_speech_k8s.Examples.Connection.{shown, path_of, shown-IsWsAddress}

read_address : Text → Option (Bool × Bool)
unfolding shown
read_address s =
    if is_ws s
    then some (starts_ci (text "wss://") s, text_eq s (shown (starts_ci (text "wss://") s) true))
    else none

-- Secure or not, and whether the path is the realtime one.
unfoldable two_paths : UrlApi
unfolding read_address shown path_of
two_paths = record {
  Url = Bool × Bool;
  parse = read_address;
  pathname = λ u. path_of u.1;
  set_pathname = λ p u. (u.0, true);
  to_string = λ u. shown u.0 u.1;
}

two_paths-KeepsScheme : KeepsScheme two_paths
unfolding two_paths read_address
two_paths-KeepsScheme = record {
  parsed = λ s u tls e h.
      subst (λ w. IsWsAddress tls (shown w.0 w.1))
        (some-injective (tls, text_eq s (shown tls true)) u (rw (h.0, h.1) at e))
        (shown-IsWsAddress tls _);
  moved = λ p u tls h.
      subst (λ t. IsWsAddress t (shown u.0 true)) (sym (shown-IsWsAddress u.0 u.1).1 ∙ h.1)
        (shown-IsWsAddress u.0 true);
}

printed : (tls moved : Bool) → read_address (shown tls moved) ≡ some (tls, moved)
unfolding read_address shown strip_ci text text_eq
printed true true = refl
printed true false = refl
printed false true = refl
printed false false = refl

unspaced : (tls moved : Bool) → trim (shown tls moved) ≡ shown tls moved
unfolding shown text trim trim_start trim_end is_space
unspaced true true = refl
unspaced true false = refl
unspaced false true = refl
unspaced false false = refl

two_paths-ReadsBack : ReadsBack two_paths
unfolding two_paths path_of
two_paths-ReadsBack = record {
  printed = λ u h. printed u.0 u.1;
  unspaced = λ u h. unspaced u.0 u.1;
  path_set = λ u h. refl;
}

build_direct_ws_url_idem_example :
    let typed = text " localhost:8080 " in
    build_direct_ws_url two_paths (build_direct_ws_url two_paths typed)
    ≡ build_direct_ws_url two_paths typed
unfolding two_paths read_address with_scheme strip_ci text text_eq trim trim_start trim_end is_space
build_direct_ws_url_idem_example =
    build_direct_ws_url_idem two_paths (text " localhost:8080 ") two_paths-KeepsScheme
      two_paths-ReadsBack refl
