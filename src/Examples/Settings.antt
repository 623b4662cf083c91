-- ===== src/Examples/Settings.antt =====
-- Saved settings, with a browser that reads decimal integers.
use speech_to_speech_k8s.Base.{
  ℕ, zero, suc, ◌+◌, ◌-◌, ◌*◌, ◌<◌, ◌≤◌, ◌≡◌, refl, Bool, true, false, none, some, [], ◌∷◌, arith,
  ◌==◌, ==_iff, if◌then◌else◌, pos, negsuc, Num, nan, finite, of_ℤ, unit, Text, text, round,
  floor_div, ◌+ℤ◌,
}
use speech_to_speech_k8s.Js.Number.{show_nat, show_int}
use speech_to_speech_k8s.Settings.{
  Settings, Storage, Key, webrtc, load_settings, save_settings, load_gate_threshold, clamp_db,
}
use speech_to_speech_k8s.Settings.Roundtrip.{
  ReadsNumbers, with_defaults, load_settings-save_settings,
}

value_from : ℕ → Text → ℕ
value_from n [] = n
value_from n (c ∷ t) = value_from (n * 10 + (c - 48)) t

-- A browser that reads a decimal integer, with a minus sign or none.
unfoldable pub browser_number : Text → Num
unfolding value_from
browser_number [] = nan
browser_number (c ∷ t) =
    if c == b'-'
    then finite (of_ℤ (negsuc (value_from 0 t - 1)))
    else finite (of_ℤ (pos (value_from 0 (c ∷ t))))

-- Whether the number after `m` is read back as it is written.
reads_back : ℕ → Bool
unfolding value_from show_nat
reads_back m = value_from 0 (show_nat (suc m)) == suc m

each_reads : ℕ → Bool
unfolding reads_back
each_reads zero = reads_back 0
each_reads (suc top) = if reads_back (suc top) then each_reads top else false

each_reads-reads_back : (top m : ℕ) → each_reads top ≡ true → m ≤ top → reads_back m ≡ true
unfolding each_reads
each_reads-reads_back zero m h p = grind arith
each_reads-reads_back (suc top) m h p = grind (arith, each_reads-reads_back top m)

each_reads_slider : each_reads 65 ≡ true
unfolding each_reads reads_back value_from show_nat
each_reads_slider = refl

value-show_nat : (m : ℕ) → m < 66 → value_from 0 (show_nat (suc m)) ≡ suc m
unfolding reads_back
value-show_nat m h = (==_iff _ _).0 (each_reads-reads_back 65 m each_reads_slider (omega arith))

pub browser_number-ReadsNumbers : ReadsNumbers browser_number
unfolding browser_number show_int
browser_number-ReadsNumbers (pos n) h = absurd (omega arith)
browser_number-ReadsNumbers (negsuc m) h = rw (value-show_nat m (omega arith)) (ground arith)

abbrev pub stored : Storage
stored Key.direct_url = some (text "localhost:8080")
stored Key.noise_gate = some (text "-70")
stored Key.transport = some (text "webrtc")
stored _ = none

-- A stored -70 is moved to the end of the slider.
pub stored_gate : load_gate_threshold browser_number stored ≡ negsuc 65
unfolding load_gate_threshold browser_number text round floor_div ◌+ℤ◌ unit of_ℤ clamp_db
stored_gate = refl

abbrev pub saved : Settings
saved = record {
  direct_url = text "https://voice.example";
  voice = [];
  instructions = text "Be brief.";
  noise_gate = negsuc 49;
  transport = webrtc;
  audio_input_id = [];
  audio_output_id = text "speaker-2";
}

load_settings-save_settings_example :
    (load_settings browser_number (save_settings saved stored) ≡ with_defaults saved)
    × (save_settings saved stored Key.tools ≡ stored Key.tools)
    × (save_settings saved stored Key.search_key ≡ stored Key.search_key)
load_settings-save_settings_example =
    load_settings-save_settings browser_number saved stored browser_number-ReadsNumbers
      (omega arith)
