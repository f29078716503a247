-- ===== src/Outcome/Act.antt =====
-- Methods that change a state and may fail: what was changed before a failure stays changed.
use msg_facade.Prelude.{Bool, true, false, Option}
use msg_facade.HResult.{HResult}
use msg_facade.Outcome.{Outcome, ok, fail, diverge, attempt}

abbrev pub Act : Type 0 → Type 0 → Type 0
Act S A = S → Outcome A × S

module _ {S A : Type 0} where
  abbrev pub pure : A → Act S A
  pure a s = (ok a, s)

  abbrev pub raise : HResult → Act S A
  raise e s = (fail e, s)

  -- A step that has no effect of its own.
  abbrev pub lift : Outcome A → Act S A
  lift r s = (r, s)

  -- A read of the core, and a change of its state; each may raise.
  abbrev pub read : (S → Option A) → Act S A
  read f s = (attempt (f s), s)

  abbrev pub change : (S → Option A × S) → Act S A
  change f s = let (r, s') = f s in (attempt r, s')

module _ {S A B : Type 0} where
  abbrev pub continue : Outcome A → (A → Act S B) → Act S B
  continue (ok a) f s = f a s
  continue (fail e) f s = (fail e, s)
  continue diverge f s = (diverge, s)

  infixl 5 ◌>>=◌
  abbrev pub ◌>>=◌ : Act S A → (A → Act S B) → Act S B
  ◌>>=◌ m f s = let (r, s') = m s in continue r f s'

module _ {S B : Type 0} where
  infixl 5 ◌>>◌
  abbrev pub ◌>>◌ : Act S (Unit {0}) → Act S B → Act S B
  m >> k = m >>= λ _. k

module _ {S : Type 0} where
  abbrev pub require : Bool → HResult → Act S (Unit {0})
  require true e s = (ok tt, s)
  require false e s = (fail e, s)
