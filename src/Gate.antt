-- ===== src/Gate.antt =====
-- demo/main.js, the noise gate's controls: the slider, the bead on the arc round the microphone
-- button and the level that is painted on it. `setGateThreshold`, `syncGateUi`, `dbToFraction`,
-- `fractionToDb`, `gatePointerToDb`, `paintInputLevel` and the listeners of the slider and of the pointer.
pub mod Arc
pub mod Axis
pub mod Synced
pub mod Loaded
pub mod Pointer
pub mod Pushed
pub mod Accuracy
pub mod Bead
use speech_to_speech_k8s.Base.{
  Bool, true, false, ◌&&◌, List, [], ◌∷◌, ◌++◌, if◌then◌else◌, ℤ, pos, negsuc, leb_ℤ, ltb_ℤ, min_ℤ,
  max_ℤ, Num, round, of_ℤ, Text, text,
}
use speech_to_speech_k8s.Js.Number.{show_int}
use speech_to_speech_k8s.Settings.{
  Settings, Storage, Key, set_item, gate_off_db, gate_max_db, clamp_db, GateParams, gate_params,
  read_gate_threshold,
}

-- The browser's arithmetic on finite doubles, `Math.log10` of a positive one included, each in units of 2 ^ -1074.
pub record Doubles : Type 0 where
  pub add : ℤ → ℤ → ℤ
  pub mul : ℤ → ℤ → ℤ
  pub div : ℤ → ℤ → ℤ
  pub log10 : ℤ → ℤ

-- `handle` is the fraction of the arc at which the bead stands, `level` the one that is filled,
-- `meter` the one that the panel's meter shows.
pub record GateUi : Type 0 where
  pub slider : Text
  pub label : Text
  pub handle : ℤ
  pub shown_off : Bool
  pub level : ℤ
  pub meter : ℤ
  pub shown_open : Bool
  pub dragging : Bool

-- `live` is `client && LIVE_STATES.has(currentState)`; `sent` is what `client.setNoiseGate` has been
-- called with, the latest first.
pub record Gate : Type 0 where
  pub settings : Settings
  pub storage : Storage
  pub ui : GateUi
  pub panel_open : Bool
  pub live : Bool
  pub sent : List GateParams

pub data GateEvent : Type 0 where
  -- The slider is moved: its text is a new one.
  slid : Text → GateEvent
  -- The pointer, at an angle in degrees between -180 and 180.
  pressed moved : ℤ → GateEvent
  released : GateEvent
  panel_shown : GateEvent
  -- The level of the microphone, a root mean square.
  heard : ℤ → GateEvent
  live_changed panel_changed : Bool → GateEvent

-- The width of the axis, GATE_MAX_DB - GATE_OFF_DB.
abbrev pub axis_width : ℤ
axis_width = pos 63

abbrev pub is_off : ℤ → Bool
is_off db = leb_ℤ db gate_off_db

abbrev pub label_of : ℤ → Text
label_of db = if is_off db then text "Off" else show_int db ++ text " dB"

module _ (fl : Doubles) where
  -- Of a level in dB, a double.
  unfoldable pub db_to_fraction : ℤ → ℤ
  db_to_fraction db =
      let clamped = min_ℤ (of_ℤ gate_max_db) (max_ℤ (of_ℤ gate_off_db) db) in
      fl.div (fl.add clamped (of_ℤ (pos 66))) (of_ℤ axis_width)

  unfoldable pub fraction_to_db : ℤ → ℤ
  fraction_to_db f =
      let clamped = min_ℤ (of_ℤ (pos 1)) (max_ℤ (of_ℤ (pos 0)) f) in
      round (fl.add (of_ℤ gate_off_db) (fl.mul clamped (of_ℤ axis_width)))

  -- `if (deg < 0) deg += 360`
  unfoldable pub full_circle : ℤ → ℤ
  full_circle angle = if ltb_ℤ angle (of_ℤ (pos 0)) then fl.add (of_ℤ (pos 360)) angle else angle

  -- `gatePointerToDb`, of the angle in degrees at which the pointer stands round the button.
  unfoldable pub gate_pointer_to_db : ℤ → ℤ
  unfolding fraction_to_db full_circle
  gate_pointer_to_db angle =
      fraction_to_db (fl.div (fl.add (of_ℤ (negsuc 79)) (full_circle angle)) (of_ℤ (pos 200)))

  unfoldable pub render_gate_handle : Gate → Gate
  unfolding db_to_fraction
  render_gate_handle g = record g {
    ui = record (g.ui) {
      handle = db_to_fraction (of_ℤ g.settings.noise_gate);
      shown_off = is_off g.settings.noise_gate;
    };
  }

  -- The slider, the label and the bead show the threshold.
  unfoldable pub sync_gate_ui : Gate → Gate
  unfolding render_gate_handle show_int text
  sync_gate_ui g = render_gate_handle (record g {
    ui = record (g.ui) {
      slider = show_int g.settings.noise_gate;
      label = label_of g.settings.noise_gate;
    };
  })

  -- Both callers give an integer, which `Math.round` leaves as it is.
  unfoldable pub set_gate_threshold : ℤ → Gate → Gate
  unfolding sync_gate_ui clamp_db gate_params
  set_gate_threshold db g =
      let s = record (g.settings) { noise_gate = clamp_db db } in
      let shown = sync_gate_ui (record g { settings = s }) in
      record shown {
        storage = set_item Key.noise_gate (show_int (clamp_db db)) g.storage;
        sent = if g.live then gate_params (clamp_db db) ∷ g.sent else g.sent;
      }

  unfoldable pub paint_input_level : ℤ → Gate → Gate
  unfolding db_to_fraction
  paint_input_level rms g =
      let db =
        if ltb_ℤ (of_ℤ (pos 0)) rms
        then fl.mul (of_ℤ (pos 20)) (fl.log10 rms)
        else of_ℤ gate_off_db in
      let f = db_to_fraction db in
      record g {
        ui = record (g.ui) {
          level = f;
          meter = if g.panel_open then f else g.ui.meter;
          shown_open =
              ltb_ℤ gate_off_db g.settings.noise_gate
              && leb_ℤ (db_to_fraction (of_ℤ g.settings.noise_gate)) f;
        };
      }

  abbrev pub drag : Bool → Gate → Gate
  drag b g = record g { ui = record (g.ui) { dragging = b } }

  module _ (number : Text → Num) where
    unfoldable pub on_gate : Gate → GateEvent → Gate
    unfolding set_gate_threshold sync_gate_ui paint_input_level gate_pointer_to_db
        read_gate_threshold
    on_gate g (slid t) =
        set_gate_threshold (read_gate_threshold number t)
          (record g { ui = record (g.ui) { slider = t } })
    on_gate g (pressed angle) = set_gate_threshold (gate_pointer_to_db angle) (drag true g)
    on_gate g (moved angle) =
        if g.ui.dragging then set_gate_threshold (gate_pointer_to_db angle) g else g
    on_gate g released = if g.ui.dragging then drag false g else g
    on_gate g panel_shown = sync_gate_ui g
    on_gate g (heard rms) = paint_input_level rms g
    on_gate g (live_changed b) = record g { live = b }
    on_gate g (panel_changed b) = record g { panel_open = b }

    unfoldable pub on_gates : Gate → List GateEvent → Gate
    unfolding on_gate
    on_gates g [] = g
    on_gates g (e ∷ es) = on_gates (on_gate g e) es
