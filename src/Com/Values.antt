-- ===== src/Com/Values.antt =====
-- The VARIANT plumbing of com/ComUtil.cpp: ReadNodeValue, WriteNodeValue, DeclareVariant and
-- DeclareTypedVariant. `VariantChangeType` is a function of Windows and a parameter.
pub mod Kept
use msg_facade.Prelude.{
  ℕ, ◌%◌, ◌^◌, Bool, true, false, not, ◌||◌, Option, none, some, List, [], leb, ◌==◌, if◌then◌else◌,
  Text, length,
}
use msg_facade.Prelude.Int.{ℤ, pos, negsuc, leb_ℤ}
use msg_facade.HResult.{HResult, failed, e_pointer, e_type}
use msg_facade.CopyOut.{Out}
use msg_facade.Types.{
  type_null, bool, int64, float, bstr16, wstr16, blob16, guid, is_int_type, is_real_type,
  to_unsigned, to_bool,
}
use msg_facade.Outcome.{Outcome, ok, fail, diverge, ◌>>=◌}
use msg_facade.Route.{Route}
use msg_facade.Core.{Msgcore}
use msg_facade.Store.{Store}
use msg_facade.Node.{
  get_type, get_int, get_real, get_text, get_blob, get_guid, set_int, set_real, set_text,
}
use msg_facade.Node.Declares.{
  node_declare_int, node_declare_real, node_declare_text, node_declare_blob, node_declare_guid,
}
use msg_facade.Com.{Answer, answered, raised, unending, converted}
use msg_facade.Com.Codes.{code, c_type}
use msg_facade.Com.Strings.{zeros, or_zero, read_string}

-- A VARIANT after `UnwrapVariant`, by the classes that the source tells apart: an integer of at most 32
-- bits and one of 64, a number that is stored as a double, an array, whose bytes are `none` where it is
-- not one of bytes, and the rest by its type.
pub data Variant (Real Float : Type 0) : Type 0 where
  vt_empty vt_null : Variant Real Float
  vt_bool : Bool → Variant Real Float
  vt_small vt_large : ℤ → Variant Real Float
  vt_r4 : Float → Variant Real Float
  vt_r8 : Real → Variant Real Float
  vt_bstr : Text → Variant Real Float
  vt_array : Option (List ℕ) → Variant Real Float
  vt_other : ℕ → Variant Real Float

-- DISP_E_TYPEMISMATCH
abbrev pub mismatch : ℕ
mismatch = 0x80020005

-- `ChangeType` to the types that the source asks for; `none` is its failure.
pub record Conversions (Real Float : Type 0) : Type 0 where
  pub to_bit : Variant Real Float → Option Bool
  pub to_i4 : Variant Real Float → Option ℤ
  pub to_i8 : Variant Real Float → Option ℤ
  pub to_r8 : Variant Real Float → Option Real
  pub to_bstr : Variant Real Float → Option Text

-- A Long where it fits, else VT_I8.
unfoldable pub integer : {Real Float : Type 0} → ℤ → Bool → Variant Real Float
integer v unsigned =
    let fits_long =
      if unsigned
      then leb (to_unsigned (2 ^ 64) v) 0x7FFFFFFF
      else (if leb_ℤ (negsuc 2147483647) v then leb_ℤ v (pos 2147483647) else false) in
    if fits_long then vt_small v else vt_large v

module _ (core : Msgcore) where
  open core use {Real, Float, to_float}

  -- GetBlob, called twice.
  read_bytes : (Option (List ℕ) → Option ℕ → Out) → Outcome (Variant Real Float)
  read_bytes ask =
      let first = ask none (some 0) in
      let n = or_zero first.size in
      if failed first.hr
      then fail first.hr
      else if n == 0
      then ok (vt_array (some []))
      else let got = ask (some (zeros n)) (some n) in
        if failed got.hr then fail got.hr else ok (vt_array got.buf)

  -- A type that this version does not know: its text, if it has one.
  text_or_empty : Outcome Text → Outcome (Variant Real Float)
  text_or_empty (ok t) = ok (vt_bstr t)
  text_or_empty (fail e) = ok vt_empty
  text_or_empty diverge = diverge

  unfoldable pub value_of : Store core → Route → ℕ → Outcome (Variant Real Float)
  unfolding read_bytes text_or_empty
  value_of s r t =
      if t == type_null
      then ok vt_empty
      else if t == bool
      then get_int core s r true >>= (λ (v, unsigned). ok (vt_bool (to_bool v)))
      else if is_int_type t
      then get_int core s r true >>= (λ (v, unsigned). ok (integer v unsigned))
      else if is_real_type t
      then get_real core s r true >>= (λ x. ok (if t == float then vt_r4 (to_float x) else vt_r8 x))
      else if t == bstr16 || t == wstr16
      then read_string (get_text core s r) >>= (λ text. ok (vt_bstr text))
      else if t == blob16
      then read_bytes (get_blob core s r)
      else if t == guid
      then read_string (get_guid core s r) >>= (λ text. ok (vt_bstr text))
      else text_or_empty (read_string (get_text core s r))

  unfoldable pub read_node_value : Store core → Route → Bool → Outcome (Variant Real Float)
  read_node_value s r out =
      if not out then fail e_pointer else get_type core s r true >>= (λ t. value_of s r t)

  module _ (change : Conversions Real Float) where
    open change use {to_bit, to_i4, to_i8, to_r8, to_bstr}

    -- A code of the facade that is not converted here.
    facade_code : {A : Type 0} → Outcome A × Store core → Answer A × Store core
    facade_code (ok a, s) = (answered a, s)
    facade_code (fail e, s) = (raised (code e), s)
    facade_code (diverge, s) = (unending, s)

    -- `if ( FAILED ( v.ChangeType ( … ) ) ) return DISP_E_TYPEMISMATCH;`
    changed :
        {A B : Type 0}
        → Option A
        → (A → Store core → Answer B × Store core)
        → Store core
        → Answer B × Store core
    changed none f s = (raised mismatch, s)
    changed (some a) f s = f a s

    write_as : Route → ℕ → Variant Real Float → Store core → Answer (Unit {0}) × Store core
    unfolding facade_code changed
    write_as r t v s =
        if t == bool
        then changed (to_bit v)
            (λ b s'. facade_code (set_int core r (if b then pos 1 else pos 0) s')) s
        else if is_int_type t
        then changed (to_i8 v) (λ n s'. facade_code (set_int core r n s')) s
        else if is_real_type t
        then changed (to_r8 v) (λ x s'. facade_code (set_real core r x s')) s
        else if t == bstr16 || t == wstr16
        then changed (to_bstr v) (λ text s'. facade_code (set_text core r (some text) s')) s
        else (raised (code e_type), s)

    is_array : Variant Real Float → Bool
    is_array (vt_array bytes) = true
    is_array v = false

    unfoldable pub write_node_value :
        Route → Variant Real Float → Store core → Answer (Unit {0}) × Store core
    unfolding write_as is_array
    write_node_value r v s = elim (get_type core s r true) [
      | fail e ↦ (raised (code e), s)
      | diverge ↦ (unending, s)
      | ok t ↦ if is_array v then (raised (code e_type), s) else write_as r t v s
    ]

    -- `return FromFacade ( … );`
    declared : Outcome (Option Route) × Store core → Answer (Option Route) × Store core
    declared (r, s) = (converted r, s)

    blob_of : List ℕ → Option (List ℕ)
    blob_of [] = none
    blob_of bytes = some bytes

    declare_bytes :
        Route
        → ℕ
        → Text
        → Bool
        → Bool
        → Option (List ℕ)
        → Store core
        → Answer (Option Route) × Store core
    unfolding changed declared blob_of
    declare_bytes r scope name update out bytes = changed bytes (λ b s.
        declared
          (node_declare_blob core r scope (some name) (blob_of b) (length b % 2 ^ 32) update out s))

    -- Anything else that becomes a string.
    declare_coerced :
        Route
        → ℕ
        → Text
        → Bool
        → Bool
        → Option Text
        → Store core
        → Answer (Option Route) × Store core
    unfolding declared
    declare_coerced r scope name update out none s = (raised c_type, s)
    declare_coerced r scope name update out (some text) s =
        declared (node_declare_text core r scope (some name) (some text) update out s)

    -- The type of the new node is taken from the VARIANT.
    declare_as :
        Route
        → ℕ
        → Text
        → Variant Real Float
        → Bool
        → Bool
        → Store core
        → Answer (Option Route) × Store core
    unfolding declare_bytes declare_coerced changed declared
    declare_as r scope name vt_empty update out s = (raised c_type, s)
    declare_as r scope name vt_null update out s = (raised c_type, s)
    declare_as r scope name (vt_bool b) update out s =
        declared
          (node_declare_int core r scope (some name) (if b then pos 1 else pos 0) bool update out s)
    declare_as r scope name (vt_small v) update out s =
        changed (to_i4 (vt_small v))
          (λ n s'. declared (node_declare_int core r scope (some name) n 0 update out s')) s
    declare_as r scope name (vt_large v) update out s =
        changed (to_i8 (vt_large v))
          (λ n s'. declared (node_declare_int core r scope (some name) n int64 update out s')) s
    declare_as r scope name (vt_r4 x) update out s =
        changed (to_r8 (vt_r4 x))
          (λ d s'. declared (node_declare_real core r scope (some name) d 0 update out s')) s
    declare_as r scope name (vt_r8 x) update out s =
        changed (to_r8 (vt_r8 x))
          (λ d s'. declared (node_declare_real core r scope (some name) d 0 update out s')) s
    declare_as r scope name (vt_bstr text) update out s =
        declared (node_declare_text core r scope (some name) (some text) update out s)
    declare_as r scope name (vt_array bytes) update out s =
        declare_bytes r scope name update out bytes s
    declare_as r scope name (vt_other t) update out s =
        declare_coerced r scope name update out (to_bstr (vt_other t)) s

    unfoldable pub declare_variant :
        Route
        → ℕ
        → Option Text
        → Variant Real Float
        → Bool
        → Bool
        → Store core
        → Answer (Option Route) × Store core
    unfolding declare_as
    declare_variant r scope none v update out s = (raised (code e_pointer), s)
    declare_variant r scope (some name) v update out s = declare_as r scope name v update out s

    bytes_of : Variant Real Float → Option (List ℕ)
    bytes_of (vt_array bytes) = bytes
    bytes_of v = none

    -- The type of the new node is given.
    declare_at :
        Route
        → ℕ
        → Text
        → Variant Real Float
        → ℕ
        → Bool
        → Bool
        → Store core
        → Answer (Option Route) × Store core
    unfolding declare_bytes changed declared bytes_of
    declare_at r scope name v t update out s =
        if is_int_type t
        then changed (to_i8 v)
            (λ n s'. declared (node_declare_int core r scope (some name) n t update out s')) s
        else if is_real_type t
        then changed (to_r8 v)
            (λ x s'. declared (node_declare_real core r scope (some name) x t update out s')) s
        else if t == bstr16 || t == wstr16
        then changed (to_bstr v)
            (λ text s'.
              declared (node_declare_text core r scope (some name) (some text) update out s'))
            s
        else if t == blob16
        then declare_bytes r scope name update out (bytes_of v) s
        else if t == guid
        then changed (to_bstr v)
            (λ text s'.
              declared (node_declare_guid core r scope (some name) (some text) update out s'))
            s
        else (raised c_type, s)

    unfoldable pub declare_typed_variant :
        Route
        → ℕ
        → Option Text
        → Variant Real Float
        → ℕ
        → Bool
        → Bool
        → Store core
        → Answer (Option Route) × Store core
    unfolding declare_at
    declare_typed_variant r scope none v t update out s = (raised (code e_pointer), s)
    declare_typed_variant r scope (some name) v t update out s =
        declare_at r scope name v t update out s
