-- ===== src/Tools.antt =====
-- demo/main.js, the function tools: which are offered to the model.
pub mod Snapshot
pub mod Host
pub mod Run
pub mod Requests
pub mod Offered
pub mod Listing
pub mod Panel
use speech_to_speech_k8s.Base.{
  Bool, true, false, ◌&&◌, ◌||◌, List, [], ◌∷◌, ◌++◌, Option, none, some, Text, text, is_nonempty,
}
use speech_to_speech_k8s.Js.Json.{Json, null, bool, get, truthy, or_nullish}
use speech_to_speech_k8s.Connection.{Config}

-- The entries of `TOOL_DEFS`.
pub data Tool : Type 0 where
  web_search camera_snapshot local_time global_internet_search : Tool

pub tool_name : Tool → Text
tool_name web_search = text "web_search"
tool_name camera_snapshot = text "camera_snapshot"
tool_name local_time = text "local_time"
tool_name global_internet_search = text "global_internet_search"

-- `toolsEnabled`, as it was read from storage, and the user's own search key.
pub record Switches : Type 0 where
  pub web_search : Json
  pub camera_snapshot : Json
  pub user_search_key : Text

unfoldable pub search_available : Config → Switches → Bool
search_available c t = c.server_search_key || is_nonempty t.user_search_key

abbrev only_if : Bool → Tool → List Tool
only_if true t = t ∷ []
only_if false t = []

unfoldable pub active_tool_defs : Config → Switches → List Tool
unfolding search_available
active_tool_defs c t =
    only_if (truthy t.web_search && search_available c t) web_search
    ++ (only_if (truthy t.camera_snapshot) camera_snapshot
        ++ local_time ∷ global_internet_search ∷ [])

-- The two flags that `loadTools` reads: of `null` the read throws, and so does bad JSON; then, and
-- where a flag is missing, both tools are on.
abbrev both_on : Json × Json
both_on = (bool true, bool true)

abbrev pub flags : Option Json → Json × Json
flags none = both_on
flags (some null) = both_on
flags (some raw) = (
  or_nullish (get raw (text "web_search")) (bool true),
  or_nullish (get raw (text "camera_snapshot")) (bool true),
)

abbrev stored_or_empty : Option Text → Text
stored_or_empty none = text "{}"
stored_or_empty (some []) = text "{}"
stored_or_empty (some (c ∷ t)) = c ∷ t

-- `JSON.parse` is the browser's; `none`: it throws.
unfoldable pub load_tools : (Text → Option Json) → Option Text → Json × Json
load_tools parse item = flags (parse (stored_or_empty item))
