-- ===== src/Settings/Roundtrip.antt =====
-- Settings survive a visit: what `saveSettings` writes, `loadSettings` reads back.
use speech_to_speech_k8s.Base.{
  ◌≡◌, refl, ◌≢◌, Option, none, some, [], ◌∷◌, arith, ℤ, pos, negsuc, ◌≤ℤ◌, Num, nan, infinite,
  finite, round, of_ℤ, round-of_ℤ, Text, text, text_eq, or_text,
}
use speech_to_speech_k8s.Js.Number.{show_int}
use speech_to_speech_k8s.Settings.{
  Settings, Storage, Transport, ws, webrtc, Key, clamp_db, gate_off_db, gate_max_db,
  load_gate_threshold, read_gate_threshold, gate_of, gate_or_off, item_or, default_voice,
  default_instructions, transport_of, transport_name, load_settings, save_settings,
}

-- The slider's range.
abbrev pub IsOnAxis : ℤ → Type 0
IsOnAxis db = (gate_off_db ≤ℤ db) × (db ≤ℤ gate_max_db)

pub clamp_db-IsOnAxis : (db : ℤ) → IsOnAxis (clamp_db db)
unfolding clamp_db
clamp_db-IsOnAxis db = ground arith

pub clamp_db_of_IsOnAxis : (db : ℤ) → IsOnAxis db → clamp_db db ≡ db
unfolding clamp_db
clamp_db_of_IsOnAxis (pos n) h = ground arith
clamp_db_of_IsOnAxis (negsuc n) h = ground arith

gate_of-IsOnAxis : (n : Num) → IsOnAxis (gate_of n)
gate_of-IsOnAxis nan = ground arith
gate_of-IsOnAxis infinite = ground arith
gate_of-IsOnAxis (finite m) = clamp_db-IsOnAxis (round m)

gate_or_off-IsOnAxis : (n : Num) → IsOnAxis (gate_or_off n)
gate_or_off-IsOnAxis nan = ground arith
gate_or_off-IsOnAxis infinite = ground arith
gate_or_off-IsOnAxis (finite m) = clamp_db-IsOnAxis (round m)

gate_item-IsOnAxis :
    (number : Text → Num) (s : Storage) (o : Option Text)
    → s Key.noise_gate ≡ o
    → IsOnAxis (load_gate_threshold number s)
unfolding load_gate_threshold
gate_item-IsOnAxis number s none e = rw (e, load_gate_threshold) (ground arith)
gate_item-IsOnAxis number s (some []) e = rw (e, load_gate_threshold) (ground arith)
gate_item-IsOnAxis number s (some (c ∷ t)) e =
    rw (e, load_gate_threshold) (gate_of-IsOnAxis (number (c ∷ t)))

-- Whatever stands in storage and whatever the slider holds, and however the browser reads them as
-- numbers, both ways of reading the threshold give a value of the slider's range.
pub gate_threshold-IsOnAxis :
    (number : Text → Num) (s : Storage) (value : Text)
    → IsOnAxis (load_gate_threshold number s) × IsOnAxis (read_gate_threshold number value)
unfolding read_gate_threshold
gate_threshold-IsOnAxis number s value =
    (gate_item-IsOnAxis number s (s Key.noise_gate) refl, gate_or_off-IsOnAxis (number value))

-- `Number(String(n))` is n, for the numbers of the slider.
abbrev pub ReadsNumbers : (Text → Num) → Type 0
ReadsNumbers number = (n : ℤ) → IsOnAxis n → number (show_int n) ≡ finite (of_ℤ n)

module _ (number : Text → Num) (reads : ReadsNumbers number) where
  pub gate_of-show_int : (n : ℤ) → IsOnAxis n → gate_of (number (show_int n)) ≡ n
  gate_of-show_int n h = rw (reads n h, round-of_ℤ n) (clamp_db_of_IsOnAxis n h)

  saved_gate :
      (v : Settings) (s : Storage) (n : ℤ)
      → v.noise_gate ≡ n
      → IsOnAxis n
      → load_gate_threshold number (save_settings v s) ≡ n
  unfolding load_gate_threshold save_settings show_int
  saved_gate v s (pos n) e h = absurd (omega arith)
  saved_gate v s (negsuc n) e h = rw e (gate_of-show_int (negsuc n) h)

pub saved_transport : (t : Transport) → transport_of (item_or (some (transport_name t)) []) ≡ t
unfolding text text_eq
saved_transport ws = refl
saved_transport webrtc = refl

-- Reading settings back: an empty voice or prompt has become the default one.
abbrev pub with_defaults : Settings → Settings
with_defaults v = record v {
  voice = or_text v.voice default_voice;
  instructions = or_text v.instructions default_instructions;
}

or_text-nil : (t : Text) → or_text t [] ≡ t
or_text-nil [] = refl
or_text-nil (c ∷ t) = refl

-- What `saveSettings` has written, `loadSettings` reads back, but for an empty voice or prompt,
-- which come back as the defaults. The switches' item and the search key stay as they were. The
-- threshold is one of the slider's, and `Number(String(n))` is n on those.
pub load_settings-save_settings :
    (number : Text → Num) (v : Settings) (s : Storage)
    → ReadsNumbers number
    → IsOnAxis v.noise_gate
    → (load_settings number (save_settings v s) ≡ with_defaults v)
      × (save_settings v s Key.tools ≡ s Key.tools)
      × (save_settings v s Key.search_key ≡ s Key.search_key)
unfolding load_settings save_settings
load_settings-save_settings number v s reads h = (
  cc (
    saved_gate number reads v s v.noise_gate refl h,
    saved_transport v.transport,
    or_text-nil v.direct_url,
    or_text-nil v.audio_input_id,
    or_text-nil v.audio_output_id,
  ),
  refl,
  refl,
)

-- Settings that a conversation can start from.
pub record IsUsable (s : Settings) : Type 0 where
  pub voiced : s.voice ≢ []
  pub prompted : s.instructions ≢ []
  pub on_axis : IsOnAxis s.noise_gate

pub or_text-ne-nil : (t d : Text) → d ≢ [] → or_text t d ≢ []
or_text-ne-nil [] d h = h
or_text-ne-nil (c ∷ t) d h = λ e. cc

item_or-ne-nil : (o : Option Text) (d : Text) → d ≢ [] → item_or o d ≢ []
item_or-ne-nil none d h = h
item_or-ne-nil (some t) d h = or_text-ne-nil t d h

pub default_voice-ne-nil : default_voice ≢ []
unfolding text
default_voice-ne-nil = λ e. cc

pub default_instructions-ne-nil : default_instructions ≢ []
unfolding text
default_instructions-ne-nil = λ e. cc

-- Whatever stands in storage, the settings that are loaded have a voice, a prompt and a threshold
-- on the slider.
pub load_settings-IsUsable : (number : Text → Num) (s : Storage) → IsUsable (load_settings number s)
unfolding load_settings
load_settings-IsUsable number s = record {
  voiced = item_or-ne-nil (s Key.voice) default_voice default_voice-ne-nil;
  prompted = item_or-ne-nil (s Key.instructions) default_instructions default_instructions-ne-nil;
  on_axis = (gate_threshold-IsOnAxis number s []).0;
}
