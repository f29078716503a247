-- ===== src/Outcome.antt =====
-- How a call ends: with a value, with a failure code, or, for a loop that the core does not let end
-- within its fuel, not at all. A raise of the core is the `none` of its operations, and the handler
-- `catch ( ... ) { return MSGF_E_CORE; }` is `attempt`.
pub mod Act
use msg_facade.Prelude.{◌≡◌, refl, Bool, true, false, Option, none, some, if◌then◌else◌}
use msg_facade.HResult.{HResult, e_core}

pub data Outcome {ℓ} (A : Type ℓ) : Type ℓ where
  ok : A → Outcome A
  fail : HResult → Outcome A
  diverge : Outcome A

module _ {ℓ κ} {A : Type ℓ} {B : Type κ} where
  infixl 5 ◌>>=◌
  -- The next step runs after a value; the two other endings are the ending of the whole.
  abbrev pub ◌>>=◌ : Outcome A → (A → Outcome B) → Outcome B
  diverge >>= next = diverge
  fail code >>= next = fail code
  ok value >>= next = next value

module _ {ℓ} {B : Type ℓ} where
  infixl 5 ◌>>◌
  abbrev pub ◌>>◌ : Outcome (Unit {0}) → Outcome B → Outcome B
  checked >> rest = checked >>= λ done. rest

abbrev pub attempt {ℓ} : {A : Type ℓ} → Option A → Outcome A
attempt none = fail e_core
attempt (some a) = ok a

-- `catch ( ... ) { return e; }`
abbrev pub caught {ℓ} : {A : Type ℓ} → HResult → Option A → Outcome A
caught e none = fail e
caught e (some a) = ok a

-- `if ( !b ) return e;`
abbrev pub guard : Bool → HResult → Outcome (Unit {0})
guard passed code = if passed then ok tt else fail code

module _ {ℓ κ} {A : Type ℓ} {B : Type κ} where
  pub >>=-eq-ok :
      (first : Outcome A) (next : A → Outcome B) {b : B}
      → (first >>= next) ≡ ok b
      → (a : A) × (first ≡ ok a) × (next a ≡ ok b)
  >>=-eq-ok (ok a) f h = (a, refl, h)
  >>=-eq-ok (fail e) f h = cc
  >>=-eq-ok diverge f h = cc

pub attempt-eq-ok {ℓ} : {A : Type ℓ} (o : Option A) {a : A} → attempt o ≡ ok a → o ≡ some a
attempt-eq-ok none h = cc
attempt-eq-ok (some b) h = cc

pub guard-eq-ok : (b : Bool) (e : HResult) → guard b e ≡ ok tt → b ≡ true
guard-eq-ok true e h = refl
guard-eq-ok false e h = cc
