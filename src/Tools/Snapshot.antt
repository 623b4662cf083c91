-- ===== src/Tools/Snapshot.antt =====
-- demo/main.js, `captureSnapshot`: the webcam's frame as text, small enough for the transport.
use speech_to_speech_k8s.Base.{
  ℕ, Bool, Option, none, some, List, [], ◌∷◌, ltb, leb, if◌then◌else◌, Text, length,
}
pub mod Ladder
use speech_to_speech_k8s.Settings.{Transport, ws, webrtc}

-- The camera's stream and the size of the video; a width of 0: no frame yet.
pub record Camera : Type 0 where
  pub has_stream : Bool
  pub width : ℕ
  pub height : ℕ

-- What the browser does: `scaled edge longest v` is `Math.round(v * Math.min(1, edge / longest))`
-- in its floating point, `draw w h quality` draws the frame on a canvas and encodes it. `none`:
-- the canvas has no context; a data URL is never empty. The quality is in hundredths.
pub record Canvas : Type 0 where
  pub scaled : ℕ → ℕ → ℕ → ℕ
  pub draw : ℕ → ℕ → ℕ → Option Text

pub record Rung : Type 0 where
  pub max_edge : ℕ
  pub quality : ℕ

abbrev pub snapshot_dc_budget_chars : ℕ
snapshot_dc_budget_chars = 60000

abbrev rung : ℕ → ℕ → Rung
rung e q = record { max_edge = e; quality = q }

abbrev pub snapshot_ladder : List Rung
snapshot_ladder =
    rung 768 70 ∷ rung 768 50 ∷ rung 640 45 ∷ rung 512 40 ∷ rung 448 35 ∷ rung 384 30 ∷ []

abbrev larger : ℕ → ℕ → ℕ
larger a b = if ltb a b then b else a

module _ (canvas : Canvas) (camera : Camera) where
  abbrev scaled_edge : ℕ → ℕ → ℕ
  scaled_edge edge v = larger 1 (canvas.scaled edge (larger camera.width camera.height) v)

  unfoldable pub encode : Rung → Option Text
  encode r =
      canvas.draw (scaled_edge r.max_edge camera.width) (scaled_edge r.max_edge camera.height)
        r.quality

  -- The loop over the rungs; `last` is `dataUrl`.
  unfoldable pub walk_ladder : Option Text → List Rung → Option Text
  unfolding encode
  walk_ladder last [] = last
  walk_ladder last (r ∷ rs) = elim (encode r) [
    | none ↦ none
    | some url ↦
        let rest = walk_ladder (some url) rs in
        if leb (length url) snapshot_dc_budget_chars then some url else rest
  ]

  abbrev snapshot_for : Transport → Option Text
  snapshot_for ws = encode (rung 768 70)
  snapshot_for webrtc = walk_ladder none snapshot_ladder

  unfoldable pub capture_snapshot : Transport → Option Text
  unfolding encode walk_ladder
  capture_snapshot t =
      if camera.has_stream then if ltb 0 camera.width then snapshot_for t else none else none
