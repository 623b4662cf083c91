-- ===== src/Tools/Snapshot/Ladder.antt =====
-- demo/main.js, `captureSnapshot` over WebRTC: which rung of the ladder the frame is encoded at.
use speech_to_speech_k8s.Base.{
  ◌≤◌, ◌<◌, ◌≡◌, refl, ap, ◌⊎◌, inl, inr, true, Option, none, some, List, [], ◌∷◌, ◌++◌, arith, leb,
  ltb, if◌then◌else◌, Text, length, All, Bool-cases,
}
use speech_to_speech_k8s.Settings.{webrtc}
use speech_to_speech_k8s.Tools.Snapshot.{
  Camera, Canvas, Rung, encode, walk_ladder, capture_snapshot, snapshot_ladder,
  snapshot_dc_budget_chars,
}

module _ (canvas : Canvas) (camera : Camera) where
  -- The frame at this rung is too long for a message.
  abbrev pub Overflows : Rung → Type 0
  Overflows r =
      (u : Text) × (encode canvas camera r ≡ some u) × (snapshot_dc_budget_chars < length u)

  -- A frame: it is encoded at the first rung that it fits in, or at the last rung.
  pub record IsFirstFit (rungs : List Rung) (frame : Option Text) : Type 0 where
    pub url : Text
    pub before : List Rung
    pub chosen : Rung
    pub after : List Rung
    pub taken : frame ≡ some url
    pub split : rungs ≡ before ++ chosen ∷ after
    pub encoded : encode canvas camera chosen ≡ some url
    pub too_long : All Overflows before
    pub fits : (length url ≤ snapshot_dc_budget_chars) ⊎ (after ≡ [])

  -- The canvas has a context at every rung.
  abbrev pub Draws : Type 0
  Draws = (r : Rung) → (u : Text) × (encode canvas camera r ≡ some u)

  stop_here :
      (r : Rung) (rs : List Rung) (u : Text)
      → encode canvas camera r ≡ some u
      → (length u ≤ snapshot_dc_budget_chars) ⊎ (rs ≡ [])
      → IsFirstFit (r ∷ rs) (some u)
  stop_here r rs u e h = record {
    url = u;
    before = [];
    chosen = r;
    after = rs;
    taken = refl;
    split = refl;
    encoded = e;
    too_long = tt;
    fits = h;
  }

  go_on :
      (r : Rung) (rs : List Rung) (o : Option Text)
      → Overflows r
      → IsFirstFit rs o
      → IsFirstFit (r ∷ rs) o
  go_on r rs o long f = record {
    url = f.url;
    before = r ∷ f.before;
    chosen = f.chosen;
    after = f.after;
    taken = f.taken;
    split = ap (λ q. r ∷ q) f.split;
    encoded = f.encoded;
    too_long = (long, f.too_long);
    fits = f.fits;
  }

  last_rung :
      (r : Rung) (u : Text)
      → encode canvas camera r ≡ some u
      → IsFirstFit (r ∷ []) (if leb (length u) snapshot_dc_budget_chars then some u else some u)
  last_rung r u e = elim (Bool-cases (leb (length u) snapshot_dc_budget_chars)) [
    | inl h ↦ rw h (stop_here r [] u e (inr refl))
    | inr h ↦ rw h (stop_here r [] u e (inr refl))
  ]

  earlier_rung :
      (r : Rung) (rs : List Rung) (u : Text) (rest : Option Text)
      → encode canvas camera r ≡ some u
      → IsFirstFit rs rest
      → IsFirstFit (r ∷ rs) (if leb (length u) snapshot_dc_budget_chars then some u else rest)
  earlier_rung r rs u rest e f = elim (Bool-cases (leb (length u) snapshot_dc_budget_chars)) [
    | inl h ↦ rw h (stop_here r rs u e (inl (ground arith)))
    | inr h ↦ rw h (go_on r rs rest (u, e, ground arith) f)
  ]

  walk_ladder-IsFirstFit :
      Draws
      → (last : Option Text) (r : Rung) (rs : List Rung)
      → IsFirstFit (r ∷ rs) (walk_ladder canvas camera last (r ∷ rs))
  unfolding walk_ladder
  walk_ladder-IsFirstFit draws last r [] =
      let (u, e) = draws r in rw (walk_ladder, e) (last_rung r u e)
  walk_ladder-IsFirstFit draws last r (q ∷ qs) =
      let (u, e) = draws r in
      rw (walk_ladder, e)
        (earlier_rung r (q ∷ qs) u _ e (walk_ladder-IsFirstFit draws (some u) q qs))

  -- With a stream, a frame and a canvas that draws, a snapshot for WebRTC is taken, at the first
  -- rung of the ladder whose text fits in one message, or at the last one where none fits.
  pub capture_snapshot-IsFirstFit :
      Draws
      → camera.has_stream ≡ true
      → 0 < camera.width
      → IsFirstFit snapshot_ladder (capture_snapshot canvas camera webrtc)
  unfolding capture_snapshot
  capture_snapshot-IsFirstFit draws on wide =
      let shown : ltb 0 camera.width ≡ true = ground arith in
      simp (on, shown) (walk_ladder-IsFirstFit draws none _ _)
