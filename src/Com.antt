-- ===== src/Com.antt =====
-- The COM layer, com/, over the facade: every method of it calls the facade and converts what it answers.
pub mod Codes
pub mod Collections
pub mod Cursor
pub mod Enum
pub mod Events
pub mod Fields
pub mod Kinds
pub mod Stores
pub mod Strings
pub mod Values
pub mod Vects
pub mod Walk
use msg_facade.Prelude.{ℕ}
use msg_facade.Outcome.{Outcome, ok, fail, diverge}
use msg_facade.Com.Codes.{code, from_facade}

-- What a COM method answers: a value with S_OK, or the number of a failure.
pub data Answer {ℓ} (A : Type ℓ) : Type ℓ where
  answered : A → Answer A
  raised : ℕ → Answer A
  unending : Answer A

-- `if ( FAILED(hr) ) return Fail ( FromFacade ( hr ), … );`
abbrev pub converted {ℓ} : {A : Type ℓ} → Outcome A → Answer A
converted (ok a) = answered a
converted (fail e) = raised (from_facade (code e))
converted diverge = unending
