-- ===== src/Js/Result.antt =====
-- Code that may throw: the value that it returns, or the error.
use speech_to_speech_k8s.Base.{[], Text}

-- `err.code`; `other` is an error without one of the codes that the client's caller tests.
pub data Code : Type 0 where
  login_required limit aborted queue_full queue_expired join_expired other : Code

-- The error as the handlers read it: `err.message` (or `String(err)`), `err.code`, `err.tier`
-- and `err.loginUrl`.
pub record Failure : Type 0 where
  pub message : Text
  pub code : Code
  pub tier : Text
  pub login_url : Text

pub data Result {ℓ} (A : Type ℓ) : Type ℓ where
  ok : A → Result A
  throw : Failure → Result A

infixl 5 ◌>>=◌
abbrev pub ◌>>=◌ {ℓ κ} : {A : Type ℓ} {B : Type κ} → Result A → (A → Result B) → Result B
ok a >>= f = f a
throw e >>= f = throw e

-- `new Error(message)`
abbrev pub error : Text → Failure
error m = record { message = m; code = other; tier = []; login_url = [] }
