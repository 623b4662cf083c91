-- ===== src/Gate/Synced.antt =====
-- demo/main.js, the noise gate's controls: what they show is what is saved.
use speech_to_speech_k8s.Base.{
  ◌≡◌, refl, Bool, true, false, List, [], ◌∷◌, arith, ℤ, pos, negsuc, Num, of_ℤ, Text,
  if◌then◌else◌,
}
use speech_to_speech_k8s.Js.Number.{show_int}
use speech_to_speech_k8s.Settings.{
  Storage, Key, set_item, clamp_db, load_gate_threshold, read_gate_threshold,
}
use speech_to_speech_k8s.Settings.Roundtrip.{
  IsOnAxis, ReadsNumbers, clamp_db-IsOnAxis, gate_of-show_int,
}
use speech_to_speech_k8s.Gate.{
  Doubles, Gate, GateEvent, slid, pressed, moved, released, panel_shown, heard, live_changed,
  panel_changed, is_off, label_of, db_to_fraction, gate_pointer_to_db, render_gate_handle,
  sync_gate_ui, set_gate_threshold, paint_input_level, drag, on_gate, on_gates,
}

-- The slider, the label, the bead and the mark that the gate is off show the threshold n; it is one
-- of the slider's, and a reload of the page finds it in storage.
pub record Shows (fl : Doubles) (number : Text → Num) (n : ℤ) (s : Storage) (slider label : Text)
    (handle : ℤ) (shown_off : Bool) : Type 0 where
  pub on_axis : IsOnAxis n
  pub slider_shows : slider ≡ show_int n
  pub label_shows : label ≡ label_of n
  pub handle_shows : handle ≡ db_to_fraction fl (of_ℤ n)
  pub off_shows : shown_off ≡ is_off n
  pub saved : load_gate_threshold number s ≡ n

abbrev pub IsSynced : Doubles → (Text → Num) → Gate → Type 0
IsSynced fl number g =
    Shows fl number g.settings.noise_gate g.storage g.ui.slider g.ui.label g.ui.handle
      g.ui.shown_off

module _ (fl : Doubles) (number : Text → Num) (reads : ReadsNumbers number) where
  pub loaded_gate :
      (s : Storage) (n : ℤ)
      → IsOnAxis n
      → load_gate_threshold number (set_item Key.noise_gate (show_int n) s) ≡ n
  unfolding load_gate_threshold show_int
  loaded_gate s (pos n) h = absurd (omega arith)
  loaded_gate s (negsuc n) h = gate_of-show_int number reads (negsuc n) h

  -- Whatever the controls showed, a threshold that is set is shown and saved.
  set_gate_threshold-IsSynced :
      (db : ℤ) (g : Gate) → IsSynced fl number (set_gate_threshold fl db g)
  unfolding set_gate_threshold sync_gate_ui render_gate_handle
  set_gate_threshold-IsSynced db g = record {
    on_axis = clamp_db-IsOnAxis db;
    slider_shows = refl;
    label_shows = refl;
    handle_shows = refl;
    off_shows = refl;
    saved = loaded_gate g.storage (clamp_db db) (clamp_db-IsOnAxis db);
  }

  if-IsSynced :
      (b : Bool) (g k : Gate)
      → IsSynced fl number g
      → IsSynced fl number k
      → IsSynced fl number (if b then g else k)
  if-IsSynced true g k h i = h
  if-IsSynced false g k h i = i

  pub on_gate-IsSynced :
      (g : Gate) (e : GateEvent) → IsSynced fl number g → IsSynced fl number (on_gate fl number g e)
  unfolding on_gate sync_gate_ui render_gate_handle paint_input_level
  on_gate-IsSynced g (slid t) h =
      set_gate_threshold-IsSynced (read_gate_threshold number t)
        (record g { ui = record (g.ui) { slider = t } })
  on_gate-IsSynced g (pressed f) h =
      set_gate_threshold-IsSynced (gate_pointer_to_db fl f) (drag fl true g)
  on_gate-IsSynced g (moved f) h =
      if-IsSynced g.ui.dragging (set_gate_threshold fl (gate_pointer_to_db fl f) g) g
        (set_gate_threshold-IsSynced (gate_pointer_to_db fl f) g) h
  on_gate-IsSynced g released h = if-IsSynced g.ui.dragging (drag fl false g) g h h
  on_gate-IsSynced g panel_shown h = record {
    on_axis = h.on_axis;
    slider_shows = refl;
    label_shows = refl;
    handle_shows = refl;
    off_shows = refl;
    saved = h.saved;
  }
  on_gate-IsSynced g (heard db) h = h
  on_gate-IsSynced g (live_changed b) h = h
  on_gate-IsSynced g (panel_changed b) h = h

  -- Whatever the slider, the pointer on the arc and the microphone's level do, what the slider, the
  -- label and the bead show is the threshold, which is on the axis and which a reload of the page
  -- finds in storage, when all that holds at first. `Number(String(n))` is n on the axis.
  pub on_gates-IsSynced :
      (g : Gate) (es : List GateEvent)
      → IsSynced fl number g
      → IsSynced fl number (on_gates fl number g es)
  unfolding on_gates
  on_gates-IsSynced g [] h = h
  on_gates-IsSynced g (e ∷ es) h =
      on_gates-IsSynced (on_gate fl number g e) es (on_gate-IsSynced g e h)
