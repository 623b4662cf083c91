-- ===== src/Tools/Listing.antt =====
-- demo/main.js, `runTool` for a web search: what the model is told of the reply.
use speech_to_speech_k8s.Base.{
  ℕ, ◌≡◌, refl, true, false, some, List, [], ◌∷◌, ◌++◌, is_nonempty, or_text, Text, text, text_eq,
}
use speech_to_speech_k8s.Js.Json.{Json, str, arr, obj, Elements, nil, cons, end, field, lookup, get}
use speech_to_speech_k8s.Js.Result.{ok, ◌>>=◌}
use speech_to_speech_k8s.Connection.{Config}
use speech_to_speech_k8s.Settings.{Transport}
use speech_to_speech_k8s.Tools.{Switches}
use speech_to_speech_k8s.Tools.Snapshot.{Canvas, Camera}
use speech_to_speech_k8s.Tools.Host.{Host, Call, Request, Reply, reply, is_ok, post, read_reply}
use speech_to_speech_k8s.Tools.Run.{
  Answer, said, answered, search_body, read_search, exec_web_search, dispatch, run_tool,
}

-- One hit of the search, the JSON that the server sends for it, and its line.
pub record Hit : Type 0 where
  pub title : Text
  pub snippet : Text
  pub url : Text

abbrev pub hit_json : Hit → Json
hit_json h = obj (
    field (text "title") (str h.title)
      (field (text "snippet") (str h.snippet) (field (text "url") (str h.url) end)))

abbrev pub hits_json : List Hit → Elements
hits_json [] = nil
hits_json (h ∷ hs) = cons (hit_json h) (hits_json hs)

unfoldable pub hit_line : Hit → Text
hit_line h = text "- " ++ h.title ++ text ": " ++ h.snippet ++ text " (" ++ h.url ++ text ")"

abbrev pub found_json : Text → List Hit → Json
found_json answer hs =
    obj (field (text "answer") (str answer) (field (text "results") (arr (hits_json hs)) end))

abbrev pub answer_line : Text → List Text
answer_line [] = []
answer_line (c ∷ a) = (text "Answer: " ++ (c ∷ a)) ∷ []

-- Each line after a line break, or that there is none.
abbrev pub on_lines : List Text → Text
on_lines [] = []
on_lines (l ∷ ls) = text "\n" ++ (l ++ on_lines ls)

abbrev pub found_lines : List Text → Text
found_lines [] = text "\nNo results found."
found_lines (l ∷ ls) = on_lines (l ∷ ls)

abbrev pub search_request : Config → Switches → Text → Request
search_request c t query = record { url = text "api/search"; body = search_body c t query }

-- The arguments of a call that asks for `query`.
abbrev pub query_args : Text → Json
query_args query = obj (field (text "query") (str query) end)

abbrev finished : Call Answer → List Request × Answer
finished call = (call.requests, answered call.outcome)

module _ (host : Host) where
  -- `String(s)` of a string is that string.
  abbrev pub ShowsText : Type 0
  ShowsText = (s : Text) → host.show (some (str s)) ≡ ok s

  module _ (canvas : Canvas) (camera : Camera) (transport : Transport) (c : Config)
      (t : Switches) where
    web_search_dispatch :
        (query : Text)
        → is_nonempty query ≡ true
        → dispatch host canvas camera transport c t (text "web_search") (query_args query)
          ≡ record {
            requests = search_request c t query ∷ [];
            outcome =
                read_reply host (text "search") (host.fetch (search_request c t query))
                >>= read_search host
                >>= λ s. ok (said s);
          }
    unfolding dispatch exec_web_search post lookup text text_eq
    web_search_dispatch query some_query = rw some_query refl

    run_tool-dispatch :
        (name args_json : Text) (args : Json)
        → host.parse (or_text args_json (text "{}")) ≡ ok args
        → run_tool host canvas camera transport c t true name args_json
          ≡ finished (dispatch host canvas camera transport c t name args)
    unfolding run_tool
    run_tool-dispatch name args_json args parsed = rw parsed refl

    web_search_run :
        (args_json query : Text) (r : Reply)
        → host.parse (or_text args_json (text "{}")) ≡ ok (query_args query)
        → is_nonempty query ≡ true
        → host.fetch (search_request c t query) ≡ r
        → run_tool host canvas camera transport c t true (text "web_search") args_json ≡ (
          search_request c t query ∷ [],
          answered (read_reply host (text "search") r >>= read_search host >>= λ s. ok (said s)),
        )
    web_search_run args_json query r parsed some_query fetched =
        rw
          (
            run_tool-dispatch (text "web_search") args_json (query_args query) parsed,
            web_search_dispatch query some_query,
            fetched,
          )
          refl

    -- A search that the server refuses, with a text that says why: the model reads that text.
    -- This holds where `JSON.parse` reads the call's arguments as a query that is not empty.
    pub run_tool-detail :
        (args_json query why : Text) (body : Json) (status : ℕ)
        → ShowsText
        → host.parse (or_text args_json (text "{}")) ≡ ok (query_args query)
        → is_nonempty query ≡ true
        → is_ok status ≡ false
        → get body (text "detail") ≡ some (str why)
        → is_nonempty why ≡ true
        → host.fetch (search_request c t query) ≡ reply status (ok body)
        → run_tool host canvas camera transport c t true (text "web_search") args_json ≡ (
          search_request c t query ∷ [],
          said (text "Tool failed: search error (" ++ why ++ text ")"),
        )
    unfolding read_reply text
    run_tool-detail args_json query why body status shows parsed some_query refused told some_why
          fetched =
        rw
          (
            web_search_run args_json query _ parsed some_query fetched,
            refused,
            told,
            some_why,
            shows why,
          )
          refl
