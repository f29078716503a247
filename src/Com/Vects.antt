-- ===== src/Com/Vects.antt =====
-- `CMsgVect` of com/ComColl.cpp, and the split of a path by which MakeFromSelf finds the container that a
-- node is. The state is the store of the facade and the count of mutations of the CMsgStore. An index is a
-- LONG.
pub mod Past
pub mod Split
use msg_facade.Prelude.{
  ℕ, zero, suc, ◌+◌, ◌^◌, Bool, true, false, ◌||◌, Option, none, some, List, [], ◌∷◌, leb, ◌==◌,
  if◌then◌else◌, Text,
}
use msg_facade.Prelude.Int.{ℤ, pos, negsuc}
use msg_facade.HResult.{HResult, e_type, e_range}
use msg_facade.Types.{type_null, bool, float, is_int_type, is_real_type, to_signed, to_bool}
use msg_facade.Outcome.{Outcome, ok, fail, diverge, ◌>>=◌}
use msg_facade.Route.{Route, scope_child, scope_attr}
use msg_facade.Core.{Msgcore}
use msg_facade.Store.{Store}
use msg_facade.Store.Tree.{node_from_path}
use msg_facade.Cursor.{Kind}
use msg_facade.Node.{get_path}
use msg_facade.Node.Containers.{get_list, get_vect}
use msg_facade.Container.Vects
use msg_facade.Com.{Answer, answered, raised, unending, converted}
use msg_facade.Com.Codes.{code, from_facade, c_range, c_no_field, c_not_list, c_not_vect}
use msg_facade.Com.Kinds.{kind_is}
use msg_facade.Com.Strings.{read_string}
use msg_facade.Com.Values.{
  Variant, vt_empty, vt_bool, vt_r4, vt_r8, vt_bstr, mismatch, Conversions, integer,
}
use msg_facade.Com.Collections.{Counted, counted}
use msg_facade.Com.Fields.{typed_answer}

-- The last '.' or '@' of a path: what is before it, the scope that it stands for, and what is behind it.
unfoldable pub cut_last : Text → Option (Text × (ℕ × Text))
cut_last [] = none
cut_last (c ∷ s) = elim (cut_last s) [
  | some (parent, rest) ↦ some (c ∷ parent, rest)
  | none ↦
      if c == b'@'
      then some ([], (scope_attr, s))
      else if c == b'.'
      then some ([], (scope_child, s))
      else none
]

module _ (core : Msgcore) where
  open core use {Real, Float, to_float}

  cut_or_root : Option (Text × (ℕ × Text)) → Answer (Text × (ℕ × Text))
  cut_or_root none = raised c_no_field
  cut_or_root (some cut) = answered cut

  cut_path : Outcome Text → Answer (Text × (ℕ × Text))
  unfolding cut_or_root
  cut_path (fail e) = raised (from_facade (code e))
  cut_path diverge = unending
  cut_path (ok path) = cut_or_root (cut_last path)

  -- `SplitPath`
  unfoldable pub split_path : Store core → Route → Answer (Text × (ℕ × Text))
  unfolding cut_path
  split_path s r = cut_path (read_string (get_path core s r))

  -- A path of which the parent is not found is that code, and no parent at all is `miss`.
  in_owner : (Route → Outcome Route) → ℕ → Outcome Route → Answer Route
  in_owner get miss (ok owner) = typed_answer miss (get owner)
  in_owner get miss (fail e) = raised (from_facade (code e))
  in_owner get miss diverge = unending

  self_in :
      (Route → ℕ → Text → Outcome Route)
      → ℕ
      → Store core
      → Answer (Text × (ℕ × Text))
      → Answer Route
  unfolding in_owner
  self_in get miss s (raised hr) = raised miss
  self_in get miss s unending = unending
  self_in get miss s (answered (parent, (scope, name))) =
      in_owner (λ owner. get owner scope name) miss (node_from_path core s (some parent) true)

  -- `MakeFromSelf` of a list, and of a vect.
  unfoldable pub list_from_self : Store core → Route → Answer Route
  unfolding self_in
  list_from_self s r =
      self_in (λ owner scope name. get_list core s owner scope (some name) true) c_not_list s
        (split_path s r)

  unfoldable pub vect_from_self : Store core → Route → Answer Route
  unfolding self_in
  vect_from_self s r =
      self_in (λ owner scope name. get_vect core s owner scope (some name) true) c_not_vect s
        (split_path s r)

  elem_value : Store core → Route → ℕ → ℕ → Answer (Variant Real Float)
  elem_value s r index t =
      if t == type_null
      then answered vt_empty
      else if t == bool
      then converted
          (Vects.get_int_at core s r index true >>= λ (v, unsigned). ok (vt_bool (to_bool v)))
      else if is_int_type t
      then converted
          (Vects.get_int_at core s r index true >>= λ (v, unsigned). ok (integer v unsigned))
      else if is_real_type t
      then converted (
          Vects.get_real_at core s r index true >>= λ x.
          ok (if t == float then vt_r4 (to_float x) else vt_r8 x))
      else converted (read_string (Vects.get_text_at core s r index) >>= λ text. ok (vt_bstr text))

  value_at_type : Store core → Route → ℕ → Outcome ℕ → Answer (Variant Real Float)
  unfolding elem_value
  value_at_type s r index (ok t) = elem_value s r index t
  value_at_type s r index (fail e) = raised (from_facade (code e))
  value_at_type s r index diverge = unending

  -- `ReadElem`
  unfoldable pub read_elem : Store core → Route → ℕ → Answer (Variant Real Float)
  unfolding value_at_type
  read_elem s r index = value_at_type s r index (Vects.get_type_at core s r index true)

  unfoldable pub vect_item : Store core → Route → ℤ → Answer (Variant Real Float)
  vect_item s r (negsuc n) = raised c_range
  vect_item s r (pos index) = read_elem s r index

  -- A call of the facade that writes, with the value converted for it.
  with_value :
      {A : Type 0}
      → Option A
      → (A → Store core → Outcome (Unit {0}) × Store core)
      → Store core
      → Answer (Unit {0}) × Store core
  with_value none f s = (raised mismatch, s)
  with_value (some a) f s = let (r, s') = f a s in (converted r, s')

  put_elem :
      Conversions Real Float
      → Route
      → ℕ
      → Variant Real Float
      → Counted core
      → Outcome ℕ
      → Answer (Unit {0}) × Counted core
  unfolding with_value
  put_elem change r index v (s, n) (fail e) = (raised (from_facade (code e)), (s, n))
  put_elem change r index v (s, n) diverge = (unending, (s, n))
  put_elem change r index v (s, n) (ok t) = counted core n (
      if t == bool || is_int_type t
      then with_value (change.to_i8 v) (λ i. Vects.set_int_at core r index i) s
      else if is_real_type t
      then with_value (change.to_r8 v) (λ d. Vects.set_real_at core r index d) s
      else with_value (change.to_bstr v) (λ text. Vects.set_text_at core r index (some text)) s)

  unfoldable pub put_vect_item :
      Conversions Real Float
      → Route
      → ℤ
      → Variant Real Float
      → Counted core
      → Answer (Unit {0}) × Counted core
  unfolding put_elem
  put_vect_item change r (negsuc i) v st = (raised c_range, st)
  put_vect_item change r (pos index) v (s, n) =
      put_elem change r index v (s, n) (Vects.get_type_at core s r index true)

  -- `ElemKindIs`, behind IsData, IsField, IsList and IsVect.
  unfoldable pub elem_kind_is : Kind → Store core → Route → ℤ → Answer Bool
  elem_kind_is want s r (negsuc n) = raised c_range
  elem_kind_is want s r (pos index) =
      converted (Vects.get_kind_at core s r index true >>= λ kind. ok (kind_is want kind))

  unfoldable pub truncate_vect : Route → Counted core → Answer (Unit {0}) × Counted core
  truncate_vect r (s, n) =
      let (done, s') = Vects.truncate core r s in counted core n (converted done, s')

  unfoldable pub vect_size : Store core → Route → Answer ℤ
  vect_size s r = converted (Vects.get_count core s r true >>= λ n. ok (to_signed (2 ^ 32) n))

  -- The count is asked first.
  type_below : Store core → Route → ℕ → Outcome ℕ → Answer ℕ
  type_below s r index (ok n) =
      if leb n index then raised c_range else converted (Vects.get_type_at core s r index true)
  type_below s r index (fail e) = raised (from_facade (code e))
  type_below s r index diverge = unending

  unfoldable pub vect_type_at : Store core → Route → ℤ → Answer ℕ
  unfolding type_below
  vect_type_at s r (negsuc n) = raised c_range
  vect_type_at s r (pos index) = type_below s r index (Vects.get_count core s r true)

  unfoldable pub vect_name_at : Store core → Route → ℤ → Answer Text
  vect_name_at s r (negsuc n) = raised c_range
  vect_name_at s r (pos index) = converted (read_string (Vects.get_name_at core s r index))

  unfoldable pub list_in_vect : Store core → Route → ℤ → Answer Route
  list_in_vect s r (negsuc n) = raised c_range
  list_in_vect s r (pos index) = typed_answer c_not_list (Vects.get_list_at core s r index true)

  unfoldable pub vect_in_vect : Store core → Route → ℤ → Answer Route
  vect_in_vect s r (negsuc n) = raised c_range
  vect_in_vect s r (pos index) = typed_answer c_not_vect (Vects.get_vect_at core s r index true)

  removed : ℕ → Outcome (Unit {0}) × Store core → Answer Bool × Counted core
  removed n (ok done, s) = (answered true, (s, n + 1))
  removed n (fail e, s) =
      (if code e == code e_range then answered false else raised (from_facade (code e)), (s, n))
  removed n (diverge, s) = (unending, (s, n))

  unfoldable pub remove_elem : Route → ℤ → Counted core → Answer Bool × Counted core
  unfolding removed
  remove_elem r (negsuc i) st = (raised c_range, st)
  remove_elem r (pos index) (s, n) = removed n (Vects.delete_at core r index s)

  -- The loop of _NewEnum: `left` elements from `index` on, until one is not read.
  unfoldable pub collect_elems : ℕ → Store core → Route → ℕ → List (Variant Real Float)
  collect_elems zero s r index = []
  collect_elems (suc left) s r index =
      let rest = collect_elems left s r (index + 1) in
      elim (read_elem s r index) [ answered v ↦ v ∷ rest | _ ↦ [] ]

  unfoldable pub snapshot_of_vect : Store core → Route → Answer (List (Variant Real Float))
  snapshot_of_vect s r =
      converted (Vects.get_count core s r true >>= λ n. ok (collect_elems n s r 0))
