-- ===== src/View.antt =====
-- demo/main.js, `AppState`, `STATE_VIEWS`, `STATE_CLASS`, `LIVE_STATES` and what `setState`,
-- `setCaption` and `updateRestartAvailability` show.
use speech_to_speech_k8s.Base.{
  ℕ, Bool, true, false, not, ◌||◌, [], ◌++◌, if◌then◌else◌, ltb, ℤ, pos, negsuc, Text, text, trim,
}
use speech_to_speech_k8s.Js.Number.{show_nat}

pub data AppState : Type 0 where
  idle connecting queued your_turn listening user_speaking processing ai_speaking error : AppState

unfoldable pub caption_of : AppState → Text
caption_of idle = text "Tap to start"
caption_of connecting = text "Connecting"
caption_of queued = text "Finding you a spot…"
caption_of your_turn = text "You're up! 🎉"
caption_of error = text "Tap to retry"
caption_of _ = []

abbrev pub is_disabled : AppState → Bool
is_disabled connecting = true
is_disabled queued = true
is_disabled your_turn = true
is_disabled _ = false

unfoldable pub class_of : AppState → Text
class_of idle = text "state-idle"
class_of connecting = text "state-connecting"
class_of queued = text "state-queued"
class_of your_turn = text "state-your-turn"
class_of listening = text "state-listening"
class_of user_speaking = text "state-user-speaking"
class_of processing = text "state-processing"
class_of ai_speaking = text "state-ai-speaking"
class_of error = text "state-error"

-- LIVE_STATES
abbrev pub is_live : AppState → Bool
is_live listening = true
is_live user_speaking = true
is_live processing = true
is_live ai_speaking = true
is_live _ = false

abbrev pub is_your_turn : AppState → Bool
is_your_turn your_turn = true
is_your_turn _ = false

abbrev pub is_queued : AppState → Bool
is_queued queued = true
is_queued _ = false

abbrev pub is_error : AppState → Bool
is_error error = true
is_error _ = false

abbrev pub is_connecting : AppState → Bool
is_connecting connecting = true
is_connecting _ = false

pub data Kind : Type 0 where
  plain failure muted : Kind

pub record View : Type 0 where
  pub circle_disabled : Bool
  pub circle_class : Text
  pub caption : Text
  pub caption_kind : Kind
  pub orb_live : Bool
  pub call_buttons_hidden : Bool
  pub call_buttons_tab : ℤ
  pub queue_hidden : Bool
  pub join_hidden : Bool
  pub join_tab : ℤ
  pub leave_hidden : Bool
  pub leave_tab : ℤ
  pub subcaption : Text
  pub subcaption_hidden : Bool
  pub restart_disabled : Bool
  pub restart_hint : Text
  pub join_label : Text
  pub mic_shown_muted : Bool
  -- Its label and its title.
  pub mic_label : Text
  pub rtc_live : Bool

abbrev tab_index : Bool → ℤ
tab_index true = pos 0
tab_index false = negsuc 0

-- `setCaption`; the class of the paragraph also tells whether the caption is empty.
unfoldable pub set_caption : Text → Kind → View → View
set_caption t k v = record v { caption = trim t; caption_kind = k }

-- `updateRestartAvailability`
unfoldable pub show_restart : AppState → View → View
show_restart s v = record v {
  restart_disabled = is_connecting s || is_queued s || is_your_turn s;
  restart_hint =
      if is_live s
      then text "Reconnects now with the settings above."
      else text "Starts a conversation with the settings above.";
}

abbrev pub queue_note : Text
queue_note =
    text
      "Sorry, we overhugged! 🤗 Every slot is busy, so we saved you a spot. Hang tight, you're moving up."

abbrev show_buttons : AppState → View → View
show_buttons s v =
    let in_line = is_queued s || is_your_turn s in
    record v {
      circle_disabled = is_disabled s;
      circle_class = class_of s;
      orb_live = is_live s;
      call_buttons_hidden = not (is_live s);
      call_buttons_tab = tab_index (is_live s);
      queue_hidden = not in_line;
      join_hidden = not (is_your_turn s);
      join_tab = tab_index (is_your_turn s);
      leave_hidden = not in_line;
      leave_tab = tab_index in_line;
      subcaption = if is_queued s then queue_note else v.subcaption;
      subcaption_hidden = not (is_queued s);
    }

-- What `setState` shows: an error keeps the caption.
unfoldable pub show_state : AppState → View → View
show_state s v =
    show_restart s (show_buttons s (if is_error s then v else set_caption (caption_of s) plain v))

-- `paint` of the countdown
unfoldable pub join_label_of : ℕ → Text
join_label_of left =
    if ltb 0 left then text "Join now (" ++ (show_nat left ++ text "s)") else text "Join now"

-- `onQueuePosition`
unfoldable pub queue_caption : ℕ → Text
queue_caption n =
    if ltb 0 n
    then text "You're #" ++ (show_nat n ++ text " in line")
    else text "Finding you a spot…"
