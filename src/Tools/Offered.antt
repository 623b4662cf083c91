-- ===== src/Tools/Offered.antt =====
-- demo/main.js, the tool executor beside the definitions of the tools: the chain of tests on the
-- name, and `TOOL_DEFS` searched by name.
use speech_to_speech_k8s.Base.{
  ◌≡◌, refl, inl, inr, Option, none, some, List, [], ◌∷◌, ◌++◌, arith, Text, text, text_eq,
  text_eq_iff, Bool-cases, if◌then◌else◌,
}
use speech_to_speech_k8s.Js.Json.{Json, get}
use speech_to_speech_k8s.Js.Result.{ok}
use speech_to_speech_k8s.Connection.{Config}
use speech_to_speech_k8s.Settings.{Transport}
use speech_to_speech_k8s.Tools.{
  Tool, web_search, camera_snapshot, local_time, global_internet_search, tool_name, Switches,
}
use speech_to_speech_k8s.Tools.Snapshot.{Canvas, Camera, capture_snapshot}
use speech_to_speech_k8s.Tools.Host.{Host, Call, silent}
use speech_to_speech_k8s.Tools.Run.{
  Answer, said, exec_web_search, exec_local_time, exec_global_search, with_string, number_of,
  spoken, snapshot_answer, dispatch,
}

-- The tool of a name, in the order of `TOOL_DEFS`.
pub find_tool : Text → List Tool → Option Tool
find_tool name [] = none
find_tool name (x ∷ xs) = if text_eq name (tool_name x) then some x else find_tool name xs

abbrev pub tool_defs : List Tool
tool_defs = web_search ∷ camera_snapshot ∷ local_time ∷ global_internet_search ∷ []

module _ (host : Host) (canvas : Canvas) (camera : Camera) (transport : Transport) (c : Config)
    (t : Switches) where
  -- What each tool does with its arguments.
  abbrev pub tool_call : Tool → Json → Call Answer
  tool_call web_search args =
      with_string host args (text "query") (λ query. spoken (exec_web_search host c t query))
  tool_call local_time args =
      with_string host args (text "timezone") (λ zone. spoken (exec_local_time host zone))
  tool_call global_internet_search args =
      with_string host args (text "query") (λ query.
        spoken (exec_global_search host query (number_of (get args (text "max_results")))))
  tool_call camera_snapshot args =
      silent (ok (snapshot_answer (capture_snapshot canvas camera transport)))

  abbrev pub call_found : Text → Option Tool → Json → Call Answer
  call_found name none args = silent (ok (said (text "Unknown tool: " ++ name)))
  call_found name (some tool) args = tool_call tool args

  dispatch-camera_snapshot :
      (args : Json)
      → dispatch host canvas camera transport c t (text "camera_snapshot") args
        ≡ call_found (text "camera_snapshot") (find_tool (text "camera_snapshot") tool_defs) args
  unfolding dispatch find_tool tool_name text text_eq
  dispatch-camera_snapshot args = refl

  pub dispatch-tool_call :
      (name : Text) (args : Json)
      → dispatch host canvas camera transport c t name args
        ≡ call_found name (find_tool name tool_defs) args
  unfolding dispatch find_tool tool_name
  dispatch-tool_call name args = elim (Bool-cases (text_eq name (text "camera_snapshot"))) [
    | inl e ↦ rw ((text_eq_iff name (text "camera_snapshot")).0 e) (dispatch-camera_snapshot args)
    | inr e ↦ rw e (ground arith)
  ]
