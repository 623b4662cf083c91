-- ===== src/Tools/Host.antt =====
-- What the tool executor of demo/main.js takes from the browser: `fetch`, `JSON.parse`, `String`
-- and the clock; and the part that its two requests share.
use speech_to_speech_k8s.Base.{
  ℕ, ◌&&◌, Bool, false, Option, none, some, List, [], ◌∷◌, ◌++◌, leb, if◌then◌else◌, Text, text,
}
use speech_to_speech_k8s.Js.Json.{Json, null, str, arr, get, items, truthy, truthy?}
use speech_to_speech_k8s.Js.Number.{show_nat}
use speech_to_speech_k8s.Js.Result.{Failure, Result, ok, throw, ◌>>=◌, error}

-- A POST of a JSON body.
pub record Request : Type 0 where
  pub url : Text
  pub body : Json

-- The request failed, or it was answered, with the status and what `res.json()` gives.
pub data Reply : Type 0 where
  rejected : Failure → Reply
  reply : ℕ → Result Json → Reply

-- `show none` is `String(undefined)`; `type_error k` is the TypeError of reading the property `k`
-- of null or of iterating over what has no iterator; `now` is `new Date().toISOString()`.
pub record Host : Type 0 where
  pub fetch : Request → Reply
  pub parse : Text → Result Json
  pub show : Option Json → Result Text
  pub type_error : Text → Failure
  pub now : Text

-- What a call has sent, and what it returns.
pub record Call {ℓ} (A : Type ℓ) : Type ℓ where
  pub requests : List Request
  pub outcome : Result A

abbrev pub silent {ℓ} : {A : Type ℓ} → Result A → Call A
silent r = record { requests = []; outcome = r }

abbrev pub then_do {ℓ κ} : {A : Type ℓ} {B : Type κ} → Call A → (A → Result B) → Call B
then_do c f = record { requests = c.requests; outcome = c.outcome >>= f }

-- `res.ok`
abbrev pub is_ok : ℕ → Bool
is_ok status = leb 200 status && leb status 299

-- `detail`: the status, or what the body says, if it can be read.
abbrev detail : ℕ → Result Json → Option Json
detail status (throw e) = some (str (show_nat status))
detail status (ok j) =
    if truthy? (get j (text "detail")) then get j (text "detail") else some (str (show_nat status))

-- The code units of each code point, which iterating over a string gives.
abbrev is_lead : ℕ → Bool
is_lead u = leb 55296 u && leb u 56319

abbrev is_trail : ℕ → Bool
is_trail u = leb 56320 u && leb u 57343

abbrev joins : ℕ → Text → Bool
joins u [] = false
joins u (v ∷ t) = is_lead u && is_trail v

abbrev with_lead : ℕ → List Json → List Json
with_lead u (str v ∷ cs) = str (u ∷ v) ∷ cs
with_lead u cs = str (u ∷ []) ∷ cs

abbrev code_points : Text → List Json
code_points [] = []
code_points (u ∷ t) =
    let rest = code_points t in if joins u t then with_lead u rest else str (u ∷ []) ∷ rest

module _ (host : Host) where
  -- `v.k`
  abbrev pub member : Json → Text → Result (Option Json)
  member null k = throw (host.type_error k)
  member v k = ok (get v k)

  -- Iterating over `v || []`.
  abbrev iterator : Json → Result (List Json)
  iterator (arr vs) = ok (items vs)
  iterator (str s) = ok (code_points s)
  iterator _ = throw (host.type_error (text "Symbol.iterator"))

  abbrev pub iterate : Option Json → Result (List Json)
  iterate none = ok []
  iterate (some v) = if truthy v then iterator v else ok []

  abbrev reply_error : Text → Text → Failure
  reply_error what d = error (what ++ text " error (" ++ d ++ text ")")

  -- From the answered `fetch` to `res.json()`.
  unfoldable pub read_reply : Text → Reply → Result Json
  unfolding text show_nat
  read_reply what (rejected e) = throw e
  read_reply what (reply status body) =
      if is_ok status
      then body
      else host.show (detail status body) >>= λ d. throw (reply_error what d)

  unfoldable pub post : Text → Request → Call Json
  unfolding read_reply
  post what r = record { requests = r ∷ []; outcome = read_reply what (host.fetch r) }
