-- ===== src/Library.antt =====
-- `FacadeLibrary` of src/FacadeLibrary.cpp: the counted singleton of the process, and the queries of the
-- library. A library object is known by a number, and the process has the objects that are alive, each
-- with its count; under its lock every call is one step.
pub mod Singleton
use msg_facade.Prelude.{
  ℕ, ◌+◌, ◌-◌, Bool, not, ◌||◌, Option, none, some, List, [], ◌∷◌, ltb, ◌==◌, if◌then◌else◌, Text,
}
use msg_facade.HResult.{HResult, s_ok, s_false, e_pointer, e_core, e_type, e_abi_mismatch}
use msg_facade.CopyOut.{Out, copy_out}
use msg_facade.Types.{type_to_name, type_from_name}
use msg_facade.Outcome.{Outcome, ok, fail, attempt, guard, ◌>>=◌, ◌>>◌}
use msg_facade.Route.{is_usable_name}
use msg_facade.Core.{Msgcore}

abbrev pub abi_version : ℕ
abi_version = 2

abbrev pub abi_version_min : ℕ
abi_version_min = 1

-- `s_pInstance`, the objects with their `m_cRef`, and the number of the next `new`.
pub record Process : Type 0 where
  pub instance_of : Option ℕ
  pub alive : List (ℕ × ℕ)
  pub fresh : ℕ

unfoldable pub refs_of : ℕ → List (ℕ × ℕ) → Option ℕ
refs_of lib [] = none
refs_of lib ((l, n) ∷ rest) = if l == lib then some n else refs_of lib rest

unfoldable pub set_refs : ℕ → ℕ → List (ℕ × ℕ) → List (ℕ × ℕ)
set_refs lib k [] = []
set_refs lib k ((l, n) ∷ rest) = if l == lib then (l, k) ∷ rest else (l, n) ∷ set_refs lib k rest

unfoldable pub delete : ℕ → List (ℕ × ℕ) → List (ℕ × ℕ)
delete lib [] = []
delete lib ((l, n) ∷ rest) = if l == lib then rest else (l, n) ∷ delete lib rest

-- `AddRef` of an object.
unfoldable pub add_ref : ℕ → Process → Process
add_ref lib p = elim (refs_of lib p.alive) [
  | none ↦ p
  | some n ↦ record p { alive = set_refs lib (n + 1) p.alive }
]

-- `if ( !s_pInstance ) s_pInstance = new FacadeLibrary ( );`
unfoldable pub instantiate : Process → ℕ × Process
instantiate p = elim p.instance_of [
  | some lib ↦ (lib, p)
  | none ↦ (
    p.fresh,
    record { instance_of = some p.fresh; alive = (p.fresh, 0) ∷ p.alive; fresh = p.fresh + 1 },
  )
]

unfoldable pub acquire : Bool → Process → Outcome ℕ × Process
acquire out p =
    if not out
    then (fail e_pointer, p)
    else let (lib, p') = instantiate p in (ok lib, add_ref lib p')

-- The instance pointer is cleared if it is the object that goes.
unfoldable pub forget : ℕ → Option ℕ → Option ℕ
forget lib none = none
forget lib (some l) = if l == lib then none else some l

-- `ReleaseRef`: the count that is left. The object must be alive, as for every call of a method.
unfoldable pub release_ref : ℕ → Process → ℕ × Process
release_ref lib p = elim (refs_of lib p.alive) [
  | none ↦ (0, p)
  | some n ↦
      if n - 1 == 0
      then (0, record p { instance_of = forget lib p.instance_of; alive = delete lib p.alive })
      else (n - 1, record p { alive = set_refs lib (n - 1) p.alive })
]

-- `MSGF_CreateLibrary`
unfoldable pub create_library : ℕ → Bool → Process → Outcome ℕ × Process
create_library version out p =
    if not out
    then (fail e_pointer, p)
    else if ltb version abi_version_min || ltb abi_version version
    then (fail e_abi_mismatch, p)
    else acquire out p

unfoldable pub type_name : ℕ → Option (List ℕ) → Option ℕ → Out
type_name t buf cch = copy_out (some (type_to_name t)) buf cch

-- 0xFF is the answer of the type table for a name that it does not have.
unfoldable pub type_of_name : Option Text → Bool → Outcome ℕ
type_of_name none out = fail e_pointer
type_of_name (some name) out =
    if not out
    then fail e_pointer
    else let t = type_from_name (some name) in if t == 0xFF then fail e_type else ok t

module _ (core : Msgcore) where
  open core use {valid_itemname, wildcard}

  unfoldable pub wildcard_match : Option Text → Option Text → Outcome HResult
  wildcard_match none name = fail e_pointer
  wildcard_match (some pattern) none = fail e_pointer
  wildcard_match (some pattern) (some name) =
      attempt (wildcard pattern name) >>= λ fits. ok (if fits then s_ok else s_false)

  unfoldable pub is_valid_name : Option Text → HResult
  is_valid_name name = if is_usable_name valid_itemname name then s_ok else s_false
