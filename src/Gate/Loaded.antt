-- ===== src/Gate/Loaded.antt =====
-- demo/main.js, the noise gate's controls: the settings that the page has are those in storage.
use speech_to_speech_k8s.Base.{◌≡◌, ap, ◌∙◌, inl, inr, true, ℤ, Num, Text, Bool-cases}
use speech_to_speech_k8s.Settings.{
  Settings, Storage, Key, set_item, clamp_db, load_settings, read_gate_threshold,
}
use speech_to_speech_k8s.Settings.Roundtrip.{IsOnAxis, ReadsNumbers, clamp_db-IsOnAxis}
use speech_to_speech_k8s.Gate.{
  Doubles, Gate, GateEvent, slid, pressed, moved, released, set_gate_threshold, render_gate_handle,
  paint_input_level, sync_gate_ui, on_gate, gate_pointer_to_db, drag,
}
use speech_to_speech_k8s.Gate.Synced.{IsSynced, loaded_gate, on_gate-IsSynced}
use speech_to_speech_k8s.Js.Number.{show_int}

abbrev pub IsLoaded : (Text → Num) → Gate → Type 0
IsLoaded number g = load_settings number g.storage ≡ g.settings

-- What the next visit loads is what the page has in memory, and the slider, the label and the bead
-- show it.
pub record IsKept (fl : Doubles) (number : Text → Num) (g : Gate) : Type 0 where
  pub loaded : IsLoaded number g
  pub synced : IsSynced fl number g

module _ (fl : Doubles) (number : Text → Num) (reads : ReadsNumbers number) where
  load_settings-gate :
      (st : Storage) (n : ℤ)
      → IsOnAxis n
      → load_settings number (set_item Key.noise_gate (show_int n) st)
        ≡ record (load_settings number st) { noise_gate = n }
  unfolding load_settings
  load_settings-gate st n on =
      ap (λ k. record (load_settings number st) { noise_gate = k })
        (loaded_gate fl number reads st n on)

  set_gate_threshold-IsLoaded :
      (db : ℤ) (g : Gate) → IsLoaded number g → IsLoaded number (set_gate_threshold fl db g)
  unfolding set_gate_threshold sync_gate_ui render_gate_handle
  set_gate_threshold-IsLoaded db g h =
      load_settings-gate g.storage (clamp_db db) (clamp_db-IsOnAxis db)
      ∙ ap {A = Settings} (λ s. record s { noise_gate = clamp_db db }) h

  on_gate-IsLoaded :
      (g : Gate) (e : GateEvent) → IsLoaded number g → IsLoaded number (on_gate fl number g e)
  unfolding on_gate sync_gate_ui render_gate_handle paint_input_level
  on_gate-IsLoaded g (slid t) h =
      set_gate_threshold-IsLoaded (read_gate_threshold number t)
        (record g { ui = record (g.ui) { slider = t } }) h
  on_gate-IsLoaded g (pressed angle) h =
      set_gate_threshold-IsLoaded (gate_pointer_to_db fl angle) (drag fl true g) h
  on_gate-IsLoaded g (moved angle) h = elim (Bool-cases g.ui.dragging) [
    | inl e ↦ rw e (set_gate_threshold-IsLoaded (gate_pointer_to_db fl angle) g h)
    | inr e ↦ rw e h
  ]
  on_gate-IsLoaded g released h = elim (Bool-cases g.ui.dragging) [
    | inl e ↦ rw e h
    | inr e ↦ rw e h
  ]
  on_gate-IsLoaded g _ h = h

  pub gate-IsKept :
      (g : Gate) (e : GateEvent) → IsKept fl number g → IsKept fl number (on_gate fl number g e)
  gate-IsKept g e h = record {
    loaded = on_gate-IsLoaded g e h.loaded;
    synced = on_gate-IsSynced fl number reads g e h.synced;
  }
