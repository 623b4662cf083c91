-- ===== src/Tools/Requests.antt =====
-- demo/main.js, the tool executor: the requests that a call of the model leads to, and the user's
-- own search key in them.
use speech_to_speech_k8s.Base.{
  ◌≡◌, refl, ◌⊎◌, inl, inr, Bool, true, false, Option, none, some, List, [], ◌∷◌, is_nonempty, Text,
  text, text_eq, Num, Bool-cases,
}
use speech_to_speech_k8s.Js.Json.{Json, null, bool, num, str, arr, obj, get, lookup}
use speech_to_speech_k8s.Connection.{Config}
use speech_to_speech_k8s.Settings.{Transport}
use speech_to_speech_k8s.Tools.{
  Switches, Tool, web_search, local_time, global_internet_search, camera_snapshot,
}
use speech_to_speech_k8s.Tools.Offered.{call_found, dispatch-tool_call}
use speech_to_speech_k8s.Tools.Snapshot.{Canvas, Camera}
use speech_to_speech_k8s.Tools.Host.{Host, Request, Call, post}
use speech_to_speech_k8s.Tools.Run.{
  search_body, exec_web_search, exec_mcp_call, exec_local_time, exec_global_search, with_string,
  spoken, number_of, run_tool,
}

-- The body names no key, or it is the user's, sent to the search's own address of a server that has
-- none.
abbrev pub KeepsKey : Config → Switches → Request → Type 0
KeepsKey c t r =
    (get r.body (text "key") ≡ none)
    ⊎ ((get r.body (text "key") ≡ some (str t.user_search_key))
        × (r.url ≡ text "api/search")
        × (c.server_search_key ≡ false))

-- No request, or one that keeps the key.
abbrev pub IsDiscreet : Config → Switches → List Request → Type 0
IsDiscreet c t rs = (rs ≡ []) ⊎ ((r : Request) × (rs ≡ r ∷ []) × KeepsKey c t r)

module _ (c : Config) (t : Switches) where
  search_body_cases :
      (query : Text)
      → (get (search_body c t query) (text "key") ≡ none)
        ⊎ ((get (search_body c t query) (text "key") ≡ some (str t.user_search_key))
            × (c.server_search_key ≡ false))
  unfolding search_body lookup text text_eq
  search_body_cases query = elim (Bool-cases c.server_search_key) [
    | inl e ↦ inl (rw e refl)
    | inr e ↦ elim (Bool-cases (is_nonempty t.user_search_key)) [
      | inl f ↦ inr (rw (e, f) (refl, refl))
      | inr f ↦ inl (rw (e, f) refl)
    ]
  ]

  search-KeepsKey :
      (query : Text)
      → KeepsKey c t (record { url = text "api/search"; body = search_body c t query })
  search-KeepsKey query = elim (search_body_cases query) [
    | inl e ↦ inl e
    | inr h ↦ inr (h.0, refl, h.1)
  ]

  module _ (host : Host) where
    post-IsDiscreet :
        (what : Text) (r : Request) → KeepsKey c t r → IsDiscreet c t ((post host what r).requests)
    unfolding post
    post-IsDiscreet what r h = inr (r, refl, h)

    exec_web_search-IsDiscreet :
        (query : Text) → IsDiscreet c t ((exec_web_search host c t query).requests)
    unfolding exec_web_search
    exec_web_search-IsDiscreet query = elim (Bool-cases (is_nonempty query)) [
      | inl e ↦ rw e (post-IsDiscreet (text "search") _ (search-KeepsKey query))
      | inr e ↦ inl (rw e)
    ]

    exec_mcp_call-IsDiscreet :
        (name : Text) (args : Json) → IsDiscreet c t ((exec_mcp_call host name args).requests)
    unfolding exec_mcp_call text text_eq lookup
    exec_mcp_call-IsDiscreet name args = post-IsDiscreet (text "tool") _ (inl refl)

    exec_local_time-IsDiscreet :
        (timezone : Text) → IsDiscreet c t ((exec_local_time host timezone).requests)
    unfolding exec_local_time
    exec_local_time-IsDiscreet timezone = exec_mcp_call-IsDiscreet _ _

    exec_global_search-IsDiscreet :
        (query : Text) (max_results : Option Num)
        → IsDiscreet c t ((exec_global_search host query max_results).requests)
    unfolding exec_global_search
    exec_global_search-IsDiscreet query max_results = elim (Bool-cases (is_nonempty query)) [
      | inl e ↦ rw e (exec_mcp_call-IsDiscreet _ _)
      | inr e ↦ inl (rw e refl)
    ]

    with_string-IsDiscreet {ℓ} :
        {A : Type ℓ} (args : Json) (k : Text) (f : Text → Call A)
        → ((s : Text) → IsDiscreet c t ((f s).requests))
        → IsDiscreet c t ((with_string host args k f).requests)
    with_string-IsDiscreet null k f h = inl refl
    with_string-IsDiscreet (bool b) k f h = h _
    with_string-IsDiscreet (num n) k f h = h _
    with_string-IsDiscreet (str s) k f h = h _
    with_string-IsDiscreet (arr vs) k f h = h _
    with_string-IsDiscreet (obj fs) k f h = h _

    module _ (canvas : Canvas) (camera : Camera) (transport : Transport) where
      call_found-IsDiscreet :
          (name : Text) (found : Option Tool) (args : Json)
          → IsDiscreet c t ((call_found host canvas camera transport c t name found args).requests)
      call_found-IsDiscreet name none args = inl refl
      call_found-IsDiscreet name (some web_search) args =
          with_string-IsDiscreet args (text "query") (λ q. spoken (exec_web_search host c t q))
            exec_web_search-IsDiscreet
      call_found-IsDiscreet name (some local_time) args =
          with_string-IsDiscreet args (text "timezone") (λ z. spoken (exec_local_time host z))
            exec_local_time-IsDiscreet
      call_found-IsDiscreet name (some global_internet_search) args =
          with_string-IsDiscreet args (text "query")
            (λ q. spoken (exec_global_search host q (number_of (get args (text "max_results")))))
            (λ q. exec_global_search-IsDiscreet q _)
      call_found-IsDiscreet name (some camera_snapshot) args = inl refl

      -- A call of the model leads to at most one request. Only one to the search's own address
      -- names a key, and only if the server has none: the key is then the user's.
      pub run_tool-IsDiscreet :
          (live : Bool) (name args_json : Text)
          → IsDiscreet c t ((run_tool host canvas camera transport c t live name args_json).0)
      unfolding run_tool
      run_tool-IsDiscreet false name args_json = inl refl
      run_tool-IsDiscreet true name args_json =
          rw (dispatch-tool_call host canvas camera transport c t name _)
            (call_found-IsDiscreet name _ _)
