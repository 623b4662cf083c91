-- ===== src/Tools/Run.antt =====
-- demo/main.js, the tool executor: `runTool`, which runs the function that the model called, and
-- `execWebSearch`, `execMcpCall`, `execLocalTime`, `execGlobalSearch`.
use speech_to_speech_k8s.Base.{
  ℕ, zero, suc, Bool, not, ◌&&◌, Option, none, some, List, [], ◌∷◌, ◌++◌, if◌then◌else◌, Num, Text,
  text, text_eq, is_nonempty, or_text,
}
use speech_to_speech_k8s.Js.Json.{
  Json, num, str, arr, obj, end, field, items, get, is_true_num, truthy?, string_or,
}
use speech_to_speech_k8s.Js.Result.{Result, ok, throw, ◌>>=◌}
use speech_to_speech_k8s.Connection.{Config}
use speech_to_speech_k8s.Settings.{Transport}
use speech_to_speech_k8s.Tools.{Switches}
use speech_to_speech_k8s.Tools.Snapshot.{Canvas, Camera, capture_snapshot}
use speech_to_speech_k8s.Tools.Host.{Host, Request, Call, silent, then_do, member, iterate, post}

-- The value of `runTool`.
pub record Answer : Type 0 where
  pub output : Text
  pub image : Option Text

abbrev pub said : Text → Answer
said t = record { output = t; image = none }

abbrev pub take : ℕ → Text → Text
take zero t = []
take (suc n) [] = []
take (suc n) (c ∷ t) = c ∷ take n t

abbrev only : Text → Text → Json
only k v = obj (field k (str v) end)

-- `lines.join("\n")`
abbrev pub join_lines : Text → List Text → Text
join_lines l [] = l
join_lines l (m ∷ ms) = l ++ text "\n" ++ join_lines m ms

abbrev pub listing : Text → List Text → Text
listing header [] = header ++ text "\nNo results found."
listing header (l ∷ ls) = join_lines header (l ∷ ls)

abbrev pub number_of : Option Json → Option Num
number_of (some (num n)) = some n
number_of _ = none

unfoldable pub search_body : Config → Switches → Text → Json
search_body c t query =
    if not c.server_search_key && is_nonempty t.user_search_key
    then obj (field (text "query") (str query) (field (text "key") (str t.user_search_key) end))
    else only (text "query") query

abbrev pub snapshot_answer : Option Text → Answer
snapshot_answer none = said (text "The camera is not available right now.")
snapshot_answer (some url) = record {
  output = text "Snapshot captured from the webcam and attached as an image.";
  image = some url;
}

abbrev pub spoken : Call Text → Call Answer
spoken c = then_do c (λ t. ok (said t))

abbrev pub answered : Result Answer → Answer
answered (ok a) = a
answered (throw e) = said (text "Tool failed: " ++ e.message)

module _ (host : Host) where
  abbrev pub today : Text
  today = take 10 host.now

  abbrev shown : Json → Text → Result Text
  shown r k = member host r k >>= host.show

  -- One result, as a line.
  unfoldable pub result_line : Json → Result Text
  unfolding text
  result_line r = shown r (text "title") >>= λ title. shown r (text "snippet") >>= λ snippet.
      shown r (text "url") >>= λ url.
      ok (text "- " ++ title ++ text ": " ++ snippet ++ text " (" ++ url ++ text ")")

  unfoldable pub result_lines : List Json → Result (List Text)
  unfolding result_line
  result_lines [] = ok []
  result_lines (r ∷ rs) = result_line r >>= λ l. result_lines rs >>= λ ls. ok (l ∷ ls)

  abbrev answer_lines : Option Json → Result (List Text)
  answer_lines v =
      if truthy? v then (host.show v >>= λ a. ok ((text "Answer: " ++ a) ∷ [])) else ok []

  unfoldable pub read_search : Json → Result Text
  unfolding text result_lines
  read_search json = member host json (text "answer") >>= answer_lines >>= λ first.
      member host json (text "results") >>= iterate host >>= result_lines >>= λ ls.
      ok (listing (text "Google search result from " ++ today ++ text ":") (first ++ ls))

  unfoldable pub exec_web_search : Config → Switches → Text → Call Text
  unfolding text search_body post read_search
  exec_web_search c t query =
      if is_nonempty query
      then then_do
          (post host (text "search")
            (record { url = text "api/search"; body = search_body c t query }))
          read_search
      else silent (ok (text "No query provided."))

  -- `JSON.parse(output)`, or `output` itself.
  abbrev parsed_output : Option Json → Option Json
  parsed_output output = elim (host.show output >>= host.parse) [ ok v ↦ some v | throw e ↦ output ]

  unfoldable pub exec_mcp_call : Text → Json → Call (Option Json)
  unfolding text post
  exec_mcp_call name args =
      then_do
        (post host (text "tool") (record {
          url = text "api/mcp/call";
          body = obj (field (text "name") (str name) (field (text "arguments") args end));
        }))
        (λ json. member host json (text "output") >>= λ output. ok (parsed_output output))

  abbrev time_text : Json → Result Text
  time_text d = shown d (text "iso8601") >>= λ iso. shown d (text "weekday") >>= λ day.
      shown d (text "timezone") >>= λ zone.
      ok (text "It is currently " ++ iso ++ text " (" ++ day ++ text ") in " ++ zone ++ text ".")

  abbrev read_time : Option Json → Result Text
  read_time (some (obj fs)) = time_text (obj fs)
  read_time (some (arr vs)) = time_text (arr vs)
  read_time data_ = host.show data_

  unfoldable pub exec_local_time : Text → Call Text
  unfolding text exec_mcp_call
  exec_local_time timezone =
      then_do
        (exec_mcp_call (text "local_time")
          (if is_nonempty timezone then only (text "timezone") timezone else obj end))
        read_time

  abbrev global_args : Text → Option Num → Json
  global_args query none = only (text "query") query
  global_args query (some n) =
      if is_true_num n
      then obj (field (text "query") (str query) (field (text "max_results") (num n) end))
      else only (text "query") query

  abbrev array_of : Option Json → List Json
  array_of (some (arr vs)) = items vs
  array_of _ = []

  -- `data?.results`
  abbrev results_of : Option Json → List Json
  results_of none = []
  results_of (some v) = array_of (get v (text "results"))

  abbrev read_global : Option Json → Result Text
  read_global v = result_lines (results_of v) >>= λ ls.
      ok (listing (text "Internet search result from " ++ today ++ text ":") ls)

  unfoldable pub exec_global_search : Text → Option Num → Call Text
  unfolding text exec_mcp_call result_lines
  exec_global_search query max_results =
      if is_nonempty query
      then then_do (exec_mcp_call (text "global_internet_search") (global_args query max_results))
          read_global
      else silent (ok (text "No query provided."))

  -- `typeof args.k === "string" ? args.k : ""`, for a call that goes on with it.
  abbrev pub with_string {ℓ} : {A : Type ℓ} → Json → Text → (Text → Call A) → Call A
  with_string args k f = elim (member host args k) [
    | ok v ↦ f (string_or v [])
    | throw e ↦ silent (throw e)
  ]

  -- `args`: what JSON.parse gives, or `{}` where it throws.
  abbrev or_no_args : Result Json → Json
  or_no_args (ok v) = v
  or_no_args (throw e) = obj end

  abbrev pub args_of : Text → Json
  args_of args_json = or_no_args (host.parse (or_text args_json (text "{}")))

  module _ (canvas : Canvas) (camera : Camera) (transport : Transport) (c : Config)
      (t : Switches) where
    -- The chain of tests on the name.
    unfoldable pub dispatch : Text → Json → Call Answer
    unfolding text text_eq exec_web_search exec_local_time exec_global_search capture_snapshot
    dispatch name args =
        if text_eq name (text "web_search")
        then with_string args (text "query") (λ query. spoken (exec_web_search c t query))
        else if text_eq name (text "local_time")
        then with_string args (text "timezone") (λ zone. spoken (exec_local_time zone))
        else if text_eq name (text "global_internet_search")
        then with_string args (text "query")
            (λ query. spoken (exec_global_search query (number_of (get args (text "max_results")))))
        else if text_eq name (text "camera_snapshot")
        then silent (ok (snapshot_answer (capture_snapshot canvas camera transport)))
        else silent (ok (said (text "Unknown tool: " ++ name)))

    -- The requests of a run of `runTool`, and what it returns; `live`: there is a client.
    unfoldable pub run_tool : Bool → Text → Text → List Request × Answer
    unfolding text dispatch
    run_tool live name args_json =
        let call = dispatch name (args_of args_json) in
        if live then (call.requests, answered call.outcome) else ([], said [])
