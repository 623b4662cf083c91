-- ===== src/Examples/Tools.antt =====
-- The tool executor, in a browser that is offline but for the search.
use speech_to_speech_k8s.Base.{
  ℕ, zero, suc, ◌*◌, ◌/◌, ◌≡◌, refl, true, Option, none, some, [], ◌∷◌, ◌++◌, arith, Text, text,
  text_eq, if◌then◌else◌,
}
use speech_to_speech_k8s.Js.Json.{Json, str, obj, end, field, lookup}
use speech_to_speech_k8s.Js.Result.{Result, ok, throw, error}
use speech_to_speech_k8s.Settings.{ws, webrtc}
use speech_to_speech_k8s.Connection.{initial}
use speech_to_speech_k8s.Tools.{Switches}
use speech_to_speech_k8s.Tools.Snapshot.{Camera, Canvas, encode, capture_snapshot, snapshot_ladder}
use speech_to_speech_k8s.Tools.Snapshot.Ladder.{IsFirstFit, capture_snapshot-IsFirstFit}
use speech_to_speech_k8s.Tools.Host.{Host, Reply, rejected, reply}
use speech_to_speech_k8s.Tools.Run.{said, dispatch, run_tool}
use speech_to_speech_k8s.Tools.Requests.{IsDiscreet, run_tool-IsDiscreet}
use speech_to_speech_k8s.Tools.Offered.{find_tool, tool_defs, call_found, dispatch-tool_call}
use speech_to_speech_k8s.Tools.Listing.{
  Hit, found_json, query_args, search_request, run_tool-detail,
}

abbrev asked : Text
asked = text "{\"query\":\"tea\"}"

-- The service has run out of searches.
abbrev spent : Json
spent = obj (field (text "detail") (str (text "quota")) end)

abbrev hit : Hit
hit = record { title = text "Tea"; snippet = text "A drink."; url = text "https://t.example" }

abbrev shown : Option Json → Result Text
shown none = ok (text "undefined")
shown (some (str s)) = ok s
shown (some v) = ok (text "[object Object]")

abbrev parsed : Text → Result Json
parsed s = if text_eq s asked then ok (query_args (text "tea")) else throw (error (text "bad JSON"))

abbrev answering : Reply → Host
answering r = record {
  fetch = λ q. if text_eq q.url (text "api/search") then r else rejected (error (text "offline"));
  parse = parsed;
  show = shown;
  type_error = λ k. error (text "cannot read " ++ k);
  now = text "2026-01-31T09:00:00.000Z";
}

abbrev found : Reply
found = reply 200 (ok (found_json [] (hit ∷ [])))

abbrev refused : Reply
refused = reply 429 (ok spent)

abbrev own_key : Switches
own_key = record {
  web_search = Json.bool true;
  camera_snapshot = Json.bool true;
  user_search_key = text "k";
}

abbrev camera : Camera
camera = record { has_stream = true; width = 1280; height = 720 }

blank : ℕ → Text
blank zero = []
blank (suc n) = b'A' ∷ blank n

-- An encoder whose text is as long as the size and the quality of the frame say: too long at the
-- first rung, short enough at the second.
abbrev canvas : Canvas
canvas = record {
  scaled = λ edge longest v. v * edge / longest;
  draw = λ w h quality. some (blank (w * h * quality / 300));
}

run_tool-IsDiscreet_example :
    IsDiscreet initial own_key (
      (run_tool
        (answering found)
        canvas
        camera
        ws
        initial
        own_key
        true
        (text "web_search")
        asked).0)
run_tool-IsDiscreet_example =
    run_tool-IsDiscreet initial own_key (answering found) canvas camera ws true (text "web_search")
      asked

dispatch-tool_call_example :
    dispatch (answering found) canvas camera ws initial own_key (text "local_time") (query_args [])
    ≡ call_found
        (answering found)
        canvas
        camera
        ws
        initial
        own_key
        (text "local_time")
        (find_tool (text "local_time") tool_defs)
        (query_args [])
dispatch-tool_call_example =
    dispatch-tool_call (answering found) canvas camera ws initial own_key (text "local_time")
      (query_args [])

capture_snapshot-IsFirstFit_example :
    IsFirstFit canvas camera snapshot_ladder (capture_snapshot canvas camera webrtc)
unfolding encode
capture_snapshot-IsFirstFit_example =
    capture_snapshot-IsFirstFit canvas camera (λ r. (_, refl)) refl (omega arith)

run_tool-detail_example :
    run_tool (answering refused) canvas camera ws initial own_key true (text "web_search") asked ≡ (
      search_request initial own_key (text "tea") ∷ [],
      said (text "Tool failed: search error (quota)"),
    )
unfolding text text_eq lookup
run_tool-detail_example =
    run_tool-detail (answering refused) canvas camera ws initial own_key asked (text "tea")
      (text "quota") spent 429 (λ s. refl) refl refl refl refl refl refl
