-- ===== src/Examples/Gate.antt =====
-- The noise gate's controls, with arithmetic that rounds down.
use speech_to_speech_k8s.Base.{
  ℕ, ◌<◌, suc, true, ◌*◌, ◌/◌, ◌≡◌, refl, ap, ◌∙◌, false, List, [], ◌∷◌, arith, ℤ, pos, negsuc,
  pos_part, times, Near, Near-trans, ◌≤ℤ◌, ◌+ℤ◌, +ℤ_parts, floor_div, floor_div_mono, unit,
  unit_pos, of_ℤ, text,
}
use native.Mathlib.Nat.{mul-le-mul_right, mul-div_cancel_left}
use speech_to_speech_k8s.Settings.{gate_off_db, gate_max_db}
use speech_to_speech_k8s.Settings.Roundtrip.{IsOnAxis}
use speech_to_speech_k8s.Gate.{
  Doubles, Gate, GateEvent, slid, pressed, moved, released, heard, fraction_to_db, full_circle,
  db_to_fraction, gate_pointer_to_db, sync_gate_ui, render_gate_handle, on_gates,
}
use speech_to_speech_k8s.Gate.Arc.{arc_angle}
use speech_to_speech_k8s.Gate.Axis.{IsIeee, fraction_to_db_bounds}
use speech_to_speech_k8s.Gate.Accuracy.{IsAccurate, tolerance}
use speech_to_speech_k8s.Gate.Bead.{gate_pointer_to_db-arc_angle}
use speech_to_speech_k8s.Gate.Pushed.{IsPushed, on_gates-IsPushed}
use speech_to_speech_k8s.Gate.Pointer.{gate_pointer_to_db_bounds}
use speech_to_speech_k8s.Gate.Synced.{IsSynced, on_gates-IsSynced}
use speech_to_speech_k8s.Examples.Settings.{
  browser_number, browser_number-ReadsNumbers, stored, stored_gate, saved,
}

-- Exact sums; products, and quotients by whole numbers, round down; every level is a tenth.
unfoldable pub down : Doubles
unfolding ◌+ℤ◌ times floor_div
down = record {
  add = λ a b. a +ℤ b;
  mul = λ a b. floor_div (times a (pos_part b)) unit;
  div = λ a b. floor_div a (pos_part b / unit);
  log10 = λ a. of_ℤ (negsuc 0);
}

times_mono : (a b : ℤ) (n : ℕ) → a ≤ℤ b → times a n ≤ℤ times b n
unfolding times
times_mono (pos a) (pos b) n h = omega (arith, mul-le-mul_right {m = a} {n = b} n (omega arith))
times_mono (pos a) (negsuc b) n h = absurd (omega arith)
times_mono (negsuc a) (pos b) n h = ground arith
times_mono (negsuc a) (negsuc b) n h =
    let k = mul-le-mul_right {m = suc b} {n = suc a} n (omega arith) in ground arith

add_of_ℤ : (a b : ℤ) → of_ℤ a +ℤ of_ℤ b ≡ of_ℤ (a +ℤ b)
unfolding ◌+ℤ◌ of_ℤ
add_of_ℤ (pos a) (pos b) = ground arith
add_of_ℤ (pos a) (negsuc b) = ground arith
add_of_ℤ (negsuc a) (pos b) = ground arith
add_of_ℤ (negsuc a) (negsuc b) = ground arith

times_zero :
    (n : ℕ) → floor_div (times (of_ℤ (pos 0)) (pos_part (of_ℤ (pos n)))) unit ≡ of_ℤ (pos 0)
unfolding of_ℤ times floor_div unit
times_zero n = ground arith

times_one : (n : ℕ) → floor_div (times (of_ℤ (pos 1)) (pos_part (of_ℤ (pos n)))) unit ≡ of_ℤ (pos n)
unfolding of_ℤ times floor_div unit
times_one n = ground arith

whole : (n : ℕ) → pos_part (of_ℤ (pos n)) / unit ≡ n
unfolding of_ℤ unit
whole n = ground arith

quotient_self : (n : ℕ) → 0 < n → floor_div (of_ℤ (pos n)) n ≡ of_ℤ (pos 1)
unfolding of_ℤ floor_div
quotient_self n h = ap pos (mul-div_cancel_left unit {n = n} h)

quotient_zero : (n : ℕ) → floor_div (of_ℤ (pos 0)) n ≡ of_ℤ (pos 0)
unfolding of_ℤ floor_div
quotient_zero n = ground arith

times-of_ℤ : (a : ℤ) (n : ℕ) → times a (pos_part (of_ℤ (pos n))) ≡ of_ℤ (times a n)
unfolding of_ℤ times
times-of_ℤ (pos a) n = grind arith
times-of_ℤ (negsuc a) n = grind arith

floor_of_ℤ : (a : ℤ) → floor_div (of_ℤ a) unit ≡ a
unfolding of_ℤ floor_div unit
floor_of_ℤ (pos a) = ground arith
floor_of_ℤ (negsuc a) = ground arith

quotient-Near : (a : ℤ) (n : ℕ) → 0 < n → Near (times (floor_div a n) n) a n
unfolding floor_div times
quotient-Near (pos a) n h = grind arith
quotient-Near (negsuc a) n h = grind arith

product_exact : (a : ℤ) (n : ℕ) → floor_div (times a (pos_part (of_ℤ (pos n)))) unit ≡ times a n
product_exact a n = ap (λ t. floor_div t unit) (times-of_ℤ a n) ∙ floor_of_ℤ (times a n)

down-IsAccurate : IsAccurate down
unfolding down
down-IsAccurate = record {
  add_near = λ a b h k. omega arith;
  mul_near = λ a n h k m. rw (product_exact a n) (omega arith);
  div_near = λ a n h p k.
      rw (whole n)
        (Near-trans _ a a n 0 (n * tolerance) (quotient-Near a n p) (omega arith) (omega arith));
}

down-IsIeee : IsIeee down
unfolding down
down-IsIeee = record {
  add_mono = λ a b c h. omega (arith, +ℤ_parts a b, +ℤ_parts a c);
  add_integers = λ a b h k m. add_of_ℤ a b;
  mul_mono = λ a b n h. floor_div_mono _ _ unit unit_pos (times_mono a b _ h);
  mul_zero = λ n h. times_zero n;
  mul_one = λ n h. times_one n;
  div_mono = λ a b n p h. rw (whole n) (floor_div_mono a b n p h);
  div_zero = λ n p h. rw (whole n) (quotient_zero n);
  div_self = λ n p h. rw (whole n) (quotient_self n p);
}

abbrev half : ℤ
half = pos (unit / 2)

fraction_to_db_bounds_example :
    IsOnAxis (fraction_to_db down half)
    × (fraction_to_db down half ≤ℤ fraction_to_db down (of_ℤ (pos 2)))
    × (fraction_to_db down (of_ℤ (pos 0)) ≡ gate_off_db)
    × (fraction_to_db down (of_ℤ (pos 1)) ≡ gate_max_db)
unfolding unit of_ℤ
fraction_to_db_bounds_example =
    fraction_to_db_bounds down down-IsIeee half (of_ℤ (pos 2)) (omega arith)

-- The page as it is after `sync_gate_ui`, with the stored threshold that `load_settings` reads.
abbrev opened : Gate
opened = sync_gate_ui down (record {
  settings = record saved { noise_gate = negsuc 65 };
  storage = stored;
  ui = record {
    slider = [];
    label = [];
    handle = pos 0;
    shown_off = false;
    level = pos 0;
    meter = pos 0;
    shown_open = false;
    dragging = false;
  };
  panel_open = false;
  live = true;
  sent = [];
})

abbrev played : List GateEvent
played =
    pressed (of_ℤ (pos 100))
    ∷ moved (of_ℤ (negsuc 39))
    ∷ released
    ∷ moved (of_ℤ (pos 200))
    ∷ heard (pos (unit / 10))
    ∷ slid (text "-50")
    ∷ []

opened-IsSynced : IsSynced down browser_number opened
unfolding sync_gate_ui render_gate_handle
opened-IsSynced = record {
  on_axis = omega arith;
  slider_shows = refl;
  label_shows = refl;
  handle_shows = refl;
  off_shows = refl;
  saved = stored_gate;
}

on_gates-IsSynced_example :
    IsSynced down browser_number (on_gates down browser_number opened played)
on_gates-IsSynced_example =
    on_gates-IsSynced down browser_number browser_number-ReadsNumbers opened played opened-IsSynced

gate_pointer_to_db_bounds_example :
    (gate_pointer_to_db down (of_ℤ (pos 40)) ≡ gate_off_db)
    × (gate_pointer_to_db down (of_ℤ (pos 300)) ≡ gate_max_db)
    × (gate_pointer_to_db down (of_ℤ (negsuc 39)) ≡ gate_max_db)
    × (gate_pointer_to_db down (of_ℤ (pos 100)) ≤ℤ gate_pointer_to_db down (of_ℤ (pos 200)))
unfolding of_ℤ unit
gate_pointer_to_db_bounds_example =
    gate_pointer_to_db_bounds down down-IsIeee (of_ℤ (pos 40)) (of_ℤ (pos 300)) (of_ℤ (negsuc 39))
      (of_ℤ (pos 100)) (of_ℤ (pos 200)) (omega arith) (omega arith) (omega arith) (omega arith) refl
      (omega arith) (omega arith)

-- A tap a little below the bead of -50 dB, which stands at 130.8 degrees.
gate_pointer_to_db-arc_angle_example : gate_pointer_to_db down (of_ℤ (pos 130)) ≡ negsuc 49
unfolding full_circle arc_angle db_to_fraction of_ℤ unit ◌+ℤ◌ times floor_div down
gate_pointer_to_db-arc_angle_example =
    gate_pointer_to_db-arc_angle down down-IsAccurate (negsuc 49) (of_ℤ (pos 130)) (omega arith)
      (omega arith)

opened-live : opened.live ≡ true
unfolding sync_gate_ui render_gate_handle
opened-live = refl

on_gates-IsPushed_example :
    IsPushed opened.settings.noise_gate opened.sent (on_gates down browser_number opened played)
on_gates-IsPushed_example = on_gates-IsPushed down browser_number opened played opened-live refl
