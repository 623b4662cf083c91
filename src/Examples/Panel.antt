-- ===== src/Examples/Panel.antt =====
-- The tools panel and the webcam, from the page's load.
use speech_to_speech_k8s.Base.{
  some, arith, ◌≡◌, refl, true, false, none, List, [], ◌∷◌, text, trim, trim_start, trim_end,
  is_space,
}
use speech_to_speech_k8s.Js.Json.{bool}
use speech_to_speech_k8s.Connection.{Config, initial}
use speech_to_speech_k8s.Tools.{Tool, web_search, active_tool_defs}
use speech_to_speech_k8s.Tools.Panel.{
  Tooling, PanelEvent, page_loaded, cam_changed, key_typed, stream_given, opening, auto_start,
}
use speech_to_speech_k8s.Tools.Panel.Turn.{turn, turns}
use speech_to_speech_k8s.Tools.Panel.Kept.{IsSaved, turns-IsSaved}
use speech_to_speech_k8s.Tools.Panel.Overlaps.{
  IsFilming, late_grant-IsFilming, on_key_typed-pushed, second_grant-running, second_grant-running,
}

-- A first visit: both flags on, no key.
abbrev page : Tooling
page = record {
  switches = record { web_search = bool true; camera_snapshot = bool true; user_search_key = [] };
  controls = record {
    web_checked = false;
    web_disabled = true;
    cam_checked = true;
    key_disabled = false;
    key_text = [];
    key_placeholder = [];
    web_hint = [];
    cam_hint = [];
  };
  stored_tools = none;
  stored_key = none;
  stream = none;
  running = [];
  opened = 0;
  preview_shown = false;
  waits = [];
  live = false;
  pushed = [];
}

-- The browser asks for the camera, and the user has not answered.
abbrev asked : Tooling
asked = record page { waits = opening auto_start ∷ [] }

abbrev visit : List (Config × PanelEvent)
visit =
    (initial, page_loaded)
    ∷ (initial, cam_changed false)
    ∷ (initial, stream_given 0)
    ∷ (initial, key_typed (text " k "))
    ∷ []

turns-IsSaved_example : IsSaved (turns page visit)
turns-IsSaved_example =
    turns-IsSaved page visit (record { flags = refl; set = (refl, refl); key = refl })

late_grant-IsFilming_example :
    IsFilming (turn initial (turn initial asked (cam_changed false)) (stream_given 0))
late_grant-IsFilming_example = late_grant-IsFilming initial asked 0 refl

abbrev in_call : Tooling
in_call = record page { live = true }

on_key_typed-pushed_example :
    let t = turn initial in_call (key_typed (text "k")) in
    ((rest : List Tool) × (active_tool_defs initial t.switches ≡ web_search ∷ rest))
    × (t.pushed ≡ [])
    × (t.controls.web_checked ≡ false)
unfolding trim trim_start trim_end is_space text
on_key_typed-pushed_example = on_key_typed-pushed initial in_call (text "k") refl refl refl

-- The user has ticked the switch while the browser was asking, and has granted one of the two
-- requests.
abbrev granted_once : Tooling
granted_once = record page {
  stream = some 0;
  running = 0 ∷ [];
  opened = 1;
  waits = opening auto_start ∷ [];
}

second_grant-running_example :
    let t = turn initial granted_once (stream_given 0) in
    (t.stream ≡ some 1) × ((turn initial t (cam_changed false)).running ≡ 0 ∷ [])
second_grant-running_example =
    second_grant-running initial granted_once 0 0 auto_start refl refl (omega arith) refl
