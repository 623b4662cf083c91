-- ===== src/Js/Json.antt =====
-- JSON values as the code reads them. `undefined` is `none`, and `null` is a value.
use speech_to_speech_k8s.Base.{
  zero, Bool, true, false, Option, none, some, List, [], ◌∷◌, if◌then◌else◌, Num, nan, infinite,
  finite, pos, Text, text_eq, is_nonempty,
}

mutual
  pub data Json : Type 0 where
    null : Json
    bool : Bool → Json
    num : Num → Json
    str : Text → Json
    arr : Elements → Json
    obj : Members → Json

  pub data Elements : Type 0 where
    nil : Elements
    cons : Json → Elements → Elements

  pub data Members : Type 0 where
    end : Members
    field : Text → Json → Members → Members

abbrev pub items : Elements → List Json
items nil = []
items (cons v vs) = v ∷ items vs

unfoldable pub lookup : Text → Members → Option Json
lookup k end = none
lookup k (field j v fs) = if text_eq j k then some v else lookup k fs

-- `v.k` of a value that is neither null nor undefined. The keys read here are those of no
-- prototype and not `length`, so only an object has one.
abbrev pub get : Json → Text → Option Json
get (obj fs) k = lookup k fs
get _ k = none

abbrev pub is_true_num : Num → Bool
is_true_num nan = false
is_true_num infinite = true
is_true_num (finite (pos zero)) = false
is_true_num (finite _) = true

abbrev pub truthy : Json → Bool
truthy null = false
truthy (bool b) = b
truthy (num n) = is_true_num n
truthy (str s) = is_nonempty s
truthy (arr _) = true
truthy (obj _) = true

abbrev pub truthy? : Option Json → Bool
truthy? none = false
truthy? (some v) = truthy v

-- `v ?? d`
abbrev pub or_nullish : Option Json → Json → Json
or_nullish none d = d
or_nullish (some null) d = d
or_nullish (some v) d = v

-- `typeof v === "string" ? v : d`
abbrev pub string_or : Option Json → Text → Text
string_or (some (str s)) d = s
string_or _ d = d
