-- ===== src/Com/Fields.antt =====
-- `CMsgField` of com/ComField.cpp: a node of the facade, known by its route, in the store of its CMsgStore;
-- what it answers. It has its node from Init to FinalRelease, and the node is one of the store that the
-- CMsgStore holds. An out-parameter is given, and a NULL string is read as the empty one.
pub mod Edits
pub mod Renames
pub mod Stale
use msg_facade.Prelude.{
  ℕ, ◌^◌, Bool, true, false, not, ◌||◌, Option, none, some, leb, ◌==◌, if◌then◌else◌, Text, codes,
}
use msg_facade.Prelude.Int.{ℤ, pos, negsuc}
use msg_facade.HResult.{HResult, s_ok, failed, e_no_item, e_type}
use msg_facade.Types.{to_signed}
use msg_facade.Outcome.{Outcome, ok, fail, diverge, ◌>>=◌}
use msg_facade.Route.{Route, scope_child, scope_attr}
use msg_facade.Core.{Msgcore}
use msg_facade.Store.{Store}
use msg_facade.Cursor.{Kind}
use msg_facade.Library.{type_name}
use msg_facade.Node.{get_type, get_path, get_kind, exists, get_child, get_child_at}
use msg_facade.Node.Restructure.{get_name, get_null, get_pos, get_time, get_child_count}
use msg_facade.Node.Containers.{get_list, get_vect}
use msg_facade.Node.Stack.{get_stacked}
use msg_facade.Com.{Answer, answered, raised, unending, converted}
use msg_facade.Com.Codes.{
  code, from_facade, c_closed, c_stale, c_type, c_range, c_not_list, c_not_vect,
}
use msg_facade.Com.Kinds.{kind_is}
use msg_facade.Com.Strings.{zeros, or_zero, string_at, read_string}
use msg_facade.Com.Values.{Variant, Conversions, read_node_value}
use msg_facade.Com.Cursor.{ComStore}

-- `AsStale`
unfoldable pub as_stale : ℕ → ℕ
as_stale hr = if hr == code e_no_item then c_stale else from_facade hr

unfoldable pub stale_answer {ℓ} : {A : Type ℓ} → Outcome A → Answer A
stale_answer (ok a) = answered a
stale_answer (fail e) = raised (as_stale (code e))
stale_answer diverge = unending

-- MSGF_E_TYPE is told apart.
unfoldable pub typed_answer : ℕ → Outcome Route → Answer Route
typed_answer miss (ok q) = answered q
typed_answer miss (fail e) = raised (if code e == code e_type then miss else from_facade (code e))
typed_answer miss diverge = unending

module _ (core : Msgcore) where
  open core use {Real, Float}

  -- `Bind`, then the rest of a method that changes nothing.
  unfoldable pub bound : {A : Type 0} → (Store core → Answer A) → Option (Store core) → Answer A
  bound f none = raised c_closed
  bound f (some s) = f s

  unfoldable pub field_value : Route → ComStore core → Answer (Variant Real Float)
  field_value r st = bound (λ s. stale_answer (read_node_value core s r true)) st.held

  unfoldable pub field_name_of : Route → ComStore core → Answer Text
  field_name_of r st = bound (λ s. stale_answer (read_string (get_name core s r))) st.held

  text_or_mismatch : Option Text → Answer Text
  text_or_mismatch none = raised c_type
  text_or_mismatch (some text) = answered text

  text_of_value : Conversions Real Float → Outcome (Variant Real Float) → Answer Text
  unfolding text_or_mismatch
  text_of_value change (ok v) = text_or_mismatch (change.to_bstr v)
  text_of_value change (fail e) = raised (as_stale (code e))
  text_of_value change diverge = unending

  unfoldable pub field_text : Conversions Real Float → Route → ComStore core → Answer Text
  unfolding text_of_value
  field_text change r st = bound (λ s. text_of_value change (read_node_value core s r true)) st.held

  unfoldable pub field_type : Route → ComStore core → Answer ℕ
  field_type r st = bound (λ s. stale_answer (get_type core s r true)) st.held

  -- The name of a type, by two calls of the library, if there is one.
  named_type : Bool → ℕ → Answer Text
  named_type lib t =
      let first = type_name t none (some 0) in
      let n = or_zero first.size in
      let got = type_name t (some (zeros n)) (some n) in
      if not lib || (failed first.hr || leb n 1)
      then answered (codes "UNKNOWN")
      else if failed got.hr
      then raised c_type
      else answered (string_at got.buf)

  type_named : Bool → Outcome ℕ → Answer Text
  unfolding named_type
  type_named lib (ok t) = named_type lib t
  type_named lib (fail e) = raised (as_stale (code e))
  type_named lib diverge = unending

  unfoldable pub field_type_name : Bool → Route → ComStore core → Answer Text
  unfolding type_named
  field_type_name lib r st = bound (λ s. type_named lib (get_type core s r true)) st.held

  unfoldable pub field_is_null : Route → ComStore core → Answer Bool
  field_is_null r st = bound (λ s. stale_answer (get_null core s r true)) st.held

  unfoldable pub field_path : Route → ComStore core → Answer Text
  field_path r st = bound (λ s. stale_answer (read_string (get_path core s r))) st.held

  unfoldable pub field_pos : Route → ComStore core → Answer ℤ
  field_pos r st =
      bound (λ s. stale_answer (get_pos core s r true >>= λ n. ok (to_signed (2 ^ 64) n))) st.held

  unfoldable pub exists_child : Text → Route → ComStore core → Answer Bool
  exists_child name r st =
      bound
        (λ s.
          stale_answer
            (exists core s r scope_child (some name) >>= λ hr. ok (code hr == code s_ok)))
        st.held

  unfoldable pub child : Text → Route → ComStore core → Answer Route
  child name r st = bound (λ s. converted (get_child core s r scope_child (some name) true)) st.held

  -- The index is a LONG.
  child_at_index : ℤ → Route → Store core → Answer Route
  child_at_index (negsuc n) r s = raised c_range
  child_at_index (pos i) r s = converted (get_child_at core s r scope_child i true)

  unfoldable pub child_at : ℤ → Route → ComStore core → Answer Route
  unfolding child_at_index
  child_at i r st = bound (child_at_index i r) st.held

  unfoldable pub child_list : Text → Route → ComStore core → Answer Route
  child_list name r st =
      bound (λ s. typed_answer c_not_list (get_list core s r scope_child (some name) true)) st.held

  unfoldable pub child_vect : Text → Route → ComStore core → Answer Route
  child_vect name r st =
      bound (λ s. typed_answer c_not_vect (get_vect core s r scope_child (some name) true)) st.held

  -- `to_date`: EpochToDate, which computes with doubles.
  unfoldable pub field_time : {Date : Type 0} → (ℤ → Date) → Route → ComStore core → Answer Date
  field_time to_date r st =
      bound (λ s. stale_answer (get_time core s r true >>= λ t. ok (to_date t))) st.held

  unfoldable pub field_count : Route → ComStore core → Answer ℤ
  field_count r st =
      bound
        (λ s.
          stale_answer
            (get_child_count core s r scope_child true >>= λ n. ok (to_signed (2 ^ 32) n)))
        st.held

  -- IsList and IsVect, by the kind that they want.
  unfoldable pub field_is_kind : Kind → Route → ComStore core → Answer Bool
  field_is_kind want r st =
      bound (λ s. stale_answer (get_kind core s r true >>= λ kind. ok (kind_is want kind))) st.held

  -- A container has no collection, which is False.
  any_in : Outcome ℕ → Answer Bool
  any_in (ok n) = answered (not (n == 0))
  any_in (fail e) = if code e == code e_type then answered false else raised (as_stale (code e))
  any_in diverge = unending

  unfoldable pub is_attributed : Route → ComStore core → Answer Bool
  unfolding any_in
  is_attributed r st = bound (λ s. any_in (get_child_count core s r scope_attr true)) st.held

  unfoldable pub is_descendant : Route → ComStore core → Answer Bool
  unfolding any_in
  is_descendant r st = bound (λ s. any_in (get_child_count core s r scope_child true)) st.held

  unfoldable pub field_is_stacked : Route → ComStore core → Answer Bool
  field_is_stacked r st = bound (λ s. stale_answer (get_stacked core s r true)) st.held
