-- ===== src/Com/Collections.antt =====
-- The collections of com/ComColl.cpp: what the attributes and the descendants of a node share, and
-- `CMsgList`. A method is called between Make and FinalRelease; a NULL name is read as the empty one.
-- The state is the store of the facade, which they hold, and the count of mutations of their CMsgStore.
use msg_facade.Prelude.{
  ℕ, ◌+◌, ◌^◌, Bool, true, false, Option, none, some, leb, ◌==◌, if◌then◌else◌, Text, length,
}
use msg_facade.Prelude.Int.{ℤ, pos, negsuc}
use msg_facade.HResult.{HResult, s_ok, e_type, e_no_item, e_range}
use msg_facade.Types.{type_null, bool, int64, float, is_int_type, is_real_type, to_signed, to_bool}
use msg_facade.Outcome.{Outcome, ok, fail, diverge, ◌>>=◌}
use msg_facade.Route.{Route, max_name}
use msg_facade.Core.{Msgcore}
use msg_facade.Store.{Store}
use msg_facade.Node.{exists, get_child}
use msg_facade.Node.Restructure.{get_child_count, delete_child, truncate_scope}
use msg_facade.Container.Lists
use msg_facade.Container.Lists.{add_int, add_real, add_text, drop_cell}
use msg_facade.Com.{Answer, answered, raised, unending, converted}
use msg_facade.Com.Codes.{code, from_facade, c_name, c_type, c_range}
use msg_facade.Com.Strings.{read_string}
use msg_facade.Com.Values.{
  Variant, vt_empty, vt_null, vt_bool, vt_small, vt_large, vt_r4, vt_r8, vt_bstr, vt_array,
  vt_other, mismatch, Conversions, integer, declare_variant,
}

-- `CheckName` of com/ComUtil.cpp
unfoldable pub check_name : Text → Bool
check_name name = if length name == 0 then false else leb (length name) max_name

module _ (core : Msgcore) where
  open core use {Real, Float, to_float}

  abbrev pub Counted : Type 0
  Counted = Store core × ℕ

  unfoldable pub coll_item : Store core → Route → ℕ → Text → Answer Route
  coll_item s owner scope name = converted (get_child core s owner scope (some name) true)

  unfoldable pub coll_exists : Store core → Route → ℕ → Text → Answer Bool
  coll_exists s owner scope name =
      converted (exists core s owner scope (some name) >>= λ hr. ok (code hr == code s_ok))

  -- A container has none.
  unfoldable pub coll_count : Store core → Route → ℕ → Answer ℤ
  coll_count s owner scope = elim (get_child_count core s owner scope true) [
    | ok n ↦ answered (to_signed (2 ^ 32) n)
    | fail e ↦ if code e == code e_type then answered (pos 0) else raised (from_facade (code e))
    | diverge ↦ unending
  ]

  -- The change of the store is counted if the call has succeeded.
  unfoldable pub counted : {A : Type 0} → ℕ → Answer A × Store core → Answer A × Counted
  counted n (answered a, s) = (answered a, (s, n + 1))
  counted n (raised hr, s) = (raised hr, (s, n))
  counted n (unending, s) = (unending, (s, n))

  converted_both : {A : Type 0} → Outcome A × Store core → Answer A × Store core
  converted_both (r, s) = (converted r, s)

  unfoldable pub coll_declare :
      Conversions Real Float
      → Route
      → ℕ
      → Text
      → Variant Real Float
      → Bool
      → Counted
      → Answer (Option Route) × Counted
  coll_declare change owner scope name v update (s, n) =
      if check_name name
      then counted n (declare_variant core change owner scope (some name) v update true s)
      else (raised c_name, (s, n))

  -- Where there was none the answer is false, and nothing is counted.
  unless : HResult → ℕ → Outcome (Unit {0}) × Store core → Answer Bool × Counted
  unless miss n (ok done, s) = (answered true, (s, n + 1))
  unless miss n (fail e, s) =
      if code e == code miss
      then (answered false, (s, n))
      else (raised (from_facade (code e)), (s, n))
  unless miss n (diverge, s) = (unending, (s, n))

  unfoldable pub coll_delete : Route → ℕ → Text → Counted → Answer Bool × Counted
  unfolding unless
  coll_delete owner scope name (s, n) =
      unless e_no_item n (delete_child core owner scope (some name) s)

  unfoldable pub coll_truncate : Route → ℕ → Counted → Answer (Unit {0}) × Counted
  unfolding converted_both
  coll_truncate owner scope (s, n) = counted n (converted_both (truncate_scope core owner scope s))

  -- The conversion of a VARIANT, or the code of its failure.
  coerced :
      {A : Type 0}
      → ℕ
      → Option A
      → (A → Store core → Outcome (Unit {0}) × Store core)
      → Store core
      → Answer (Unit {0}) × Store core
  unfolding converted_both
  coerced code none f s = (raised code, s)
  coerced code (some a) f s = converted_both (f a s)

  unfoldable pub add_value :
      Conversions Real Float
      → Route
      → Variant Real Float
      → Bool
      → Store core
      → Answer (Unit {0}) × Store core
  unfolding coerced converted_both
  add_value change r vt_empty head s = (raised c_type, s)
  add_value change r vt_null head s = (raised c_type, s)
  add_value change r (vt_bool b) head s =
      converted_both (add_int core r (if b then pos 1 else pos 0) bool head s)
  add_value change r (vt_small v) head s =
      coerced mismatch (change.to_i4 (vt_small v)) (λ n. add_int core r n 0 head) s
  add_value change r (vt_large v) head s =
      coerced mismatch (change.to_i8 (vt_large v)) (λ n. add_int core r n int64 head) s
  add_value change r (vt_r4 x) head s =
      coerced mismatch (change.to_r8 (vt_r4 x)) (λ d. add_real core r d 0 head) s
  add_value change r (vt_r8 x) head s =
      coerced mismatch (change.to_r8 (vt_r8 x)) (λ d. add_real core r d 0 head) s
  add_value change r (vt_bstr text) head s = converted_both (add_text core r (some text) head s)
  add_value change r (vt_array bytes) head s =
      coerced c_type (change.to_bstr (vt_array bytes)) (λ text. add_text core r (some text) head) s
  add_value change r (vt_other t) head s =
      coerced c_type (change.to_bstr (vt_other t)) (λ text. add_text core r (some text) head) s

  -- AddHead and AddTail
  unfoldable pub add_cell :
      Conversions Real Float
      → Route
      → Variant Real Float
      → Bool
      → Counted
      → Answer (Unit {0}) × Counted
  add_cell change r v head (s, n) = counted n (add_value change r v head s)

  -- DropHead and DropTail
  unfoldable pub drop_end : Route → Bool → Counted → Answer (Unit {0}) × Counted
  unfolding converted_both
  drop_end r head (s, n) = counted n (converted_both (drop_cell core r head s))

  unfoldable pub truncate_list : Route → Counted → Answer (Unit {0}) × Counted
  unfolding converted_both
  truncate_list r (s, n) = counted n (converted_both (Lists.truncate core r s))

  unfoldable pub list_size : Route → Store core → Answer ℤ
  list_size r s = converted (Lists.get_count core s r true >>= λ n. ok (to_signed (2 ^ 32) n))

  -- MSGF_TYPE_NULL is the answer past the end; then the count tells.
  null_cell : Store core → Route → ℕ → Answer (Variant Real Float)
  null_cell s r index = elim (Lists.get_count core s r true) [
    | ok n ↦ if leb n index then raised c_range else answered vt_empty
    | fail e ↦ answered vt_empty
    | diverge ↦ unending
  ]

  cell_value : Store core → Route → ℕ → ℕ → Answer (Variant Real Float)
  unfolding null_cell
  cell_value s r index t =
      if t == type_null
      then null_cell s r index
      else if t == bool
      then converted
          (Lists.get_int_at core s r index true >>= λ (v, unsigned). ok (vt_bool (to_bool v)))
      else if is_int_type t
      then converted
          (Lists.get_int_at core s r index true >>= λ (v, unsigned). ok (integer v unsigned))
      else if is_real_type t
      then converted (
          Lists.get_real_at core s r index true >>= λ x.
          ok (if t == float then vt_r4 (to_float x) else vt_r8 x))
      else converted (read_string (Lists.get_text_at core s r index) >>= λ text. ok (vt_bstr text))

  unfoldable pub read_cell : Store core → Route → ℕ → Answer (Variant Real Float)
  unfolding cell_value
  read_cell s r index = elim (Lists.get_type_at core s r index true) [
    | ok t ↦ cell_value s r index t
    | fail e ↦ raised (from_facade (code e))
    | diverge ↦ unending
  ]

  -- The index of a script is a LONG.
  unfoldable pub get_item : Store core → Route → ℤ → Answer (Variant Real Float)
  get_item s r (negsuc n) = raised c_range
  get_item s r (pos index) = read_cell s r index

  unfoldable pub type_at : Store core → Route → ℤ → Answer ℕ
  type_at s r (negsuc n) = raised c_range
  type_at s r (pos index) = converted (Lists.get_type_at core s r index true)

  unfoldable pub remove_at : Route → ℤ → Counted → Answer Bool × Counted
  unfolding unless
  remove_at r (negsuc i) st = (raised c_range, st)
  remove_at r (pos index) (s, n) = unless e_range n (Lists.delete_at core r index s)

  -- The new value of a cell, for the type that the cell has.
  set_item :
      Conversions Real Float
      → Route
      → ℕ
      → ℕ
      → Variant Real Float
      → Store core
      → Answer (Unit {0}) × Store core
  unfolding coerced
  set_item change r index t v =
      if t == bool
      then coerced mismatch (change.to_bit v)
          (λ b. Lists.set_int_at core r index (if b then pos 1 else pos 0))
      else if is_int_type t
      then coerced mismatch (change.to_i8 v) (λ n. Lists.set_int_at core r index n)
      else if is_real_type t
      then coerced mismatch (change.to_r8 v) (λ d. Lists.set_real_at core r index d)
      else coerced mismatch (change.to_bstr v) (λ text. Lists.set_text_at core r index (some text))

  put_at :
      Conversions Real Float
      → Route
      → ℕ
      → Variant Real Float
      → Counted
      → Outcome ℕ
      → Answer (Unit {0}) × Counted
  unfolding set_item
  put_at change r index v (s, n) (ok t) = counted n (set_item change r index t v s)
  put_at change r index v st (fail e) = (raised (from_facade (code e)), st)
  put_at change r index v st diverge = (unending, st)

  unfoldable pub put_item :
      Conversions Real Float
      → Route
      → ℤ
      → Variant Real Float
      → Counted
      → Answer (Unit {0}) × Counted
  unfolding put_at
  put_item change r (negsuc n) v st = (raised c_range, st)
  put_item change r (pos index) v (s, n) =
      put_at change r index v (s, n) (Lists.get_type_at core s r index true)
