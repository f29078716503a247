-- ===== src/Com/Fields/Edits.antt =====
-- The methods of `CMsgField`, com/ComField.cpp, that write the node and declare children. A change that has
-- succeeded is counted by the CMsgStore.
use msg_facade.Prelude.{ℕ, ◌+◌, Bool, true, Option, none, some, leb, ◌==◌, if◌then◌else◌, Text}
use msg_facade.Prelude.Int.{ℤ, pos, negsuc}
use msg_facade.HResult.{HResult, s_ok, e_invalidarg}
use msg_facade.Outcome.{Outcome, ok, fail, diverge}
use msg_facade.Route.{Route, scope_child}
use msg_facade.Core.{Msgcore}
use msg_facade.Store.{Store}
use msg_facade.Node.{set_text}
use msg_facade.Node.Restructure.{set_time, truncate_scope}
use msg_facade.Node.Containers.{declare_list, declare_vect}
use msg_facade.Node.Stack.{push_value, pop_value, drop_value}
use msg_facade.Com.{Answer, answered, raised, unending, converted}
use msg_facade.Com.Codes.{code, c_closed, c_name, c_range}
use msg_facade.Com.Collections.{check_name}
use msg_facade.Com.Values.{
  Variant, Conversions, write_node_value, declare_variant, declare_typed_variant,
}
use msg_facade.Com.Cursor.{ComStore}
use msg_facade.Com.Fields.{as_stale, stale_answer}

module _ (core : Msgcore) where
  open core use {Real, Float}

  -- What a method leaves: the store of the facade, and the count, which has grown if it has succeeded.
  unfoldable pub counted_in : {A : Type 0} → ℕ → Answer A × Store core → Answer A × ComStore core
  counted_in n (answered a, s) = (answered a, record { held = some s; mutations = n + 1 })
  counted_in n (raised hr, s) = (raised hr, record { held = some s; mutations = n })
  counted_in n (unending, s) = (unending, record { held = some s; mutations = n })

  edit_in :
      {A : Type 0}
      → (Store core → Answer A × Store core)
      → ℕ
      → Option (Store core)
      → Answer A × ComStore core
  edit_in f n none = (raised c_closed, record { held = none; mutations = n })
  edit_in f n (some s) = counted_in n (f s)

  -- `Bind`, then the rest of a method that changes the store.
  unfoldable pub edit :
      {A : Type 0} → (Store core → Answer A × Store core) → ComStore core → Answer A × ComStore core
  unfolding edit_in
  edit f st = edit_in f st.mutations st.held

  -- The end of a call of the facade, with AsStale, and with FromFacade.
  unfoldable pub stale_both : {A : Type 0} → Outcome A × Store core → Answer A × Store core
  stale_both (r, s) = (stale_answer r, s)

  unfoldable pub from_facade_both : {A : Type 0} → Outcome A × Store core → Answer A × Store core
  from_facade_both (r, s) = (converted r, s)

  -- The code of WriteNodeValue is one of the facade.
  stale_code : {A : Type 0} → Answer A × Store core → Answer A × Store core
  stale_code (raised hr, s) = (raised (as_stale hr), s)
  stale_code r = r

  unfoldable pub put_value :
      Conversions Real Float
      → Route
      → Variant Real Float
      → ComStore core
      → Answer (Unit {0}) × ComStore core
  unfolding stale_code
  put_value change r v = edit λ s. stale_code (write_node_value core change r v s)

  unfoldable pub put_text : Route → Text → ComStore core → Answer (Unit {0}) × ComStore core
  put_text r text = edit λ s. stale_both (set_text core r (some text) s)

  unfoldable pub declare_of_field :
      Conversions Real Float
      → Route
      → Text
      → Variant Real Float
      → Bool
      → Bool
      → ComStore core
      → Answer (Option Route) × ComStore core
  declare_of_field change r name v update out = edit λ s.
      if check_name name
      then declare_variant core change r scope_child (some name) v update out s
      else (raised c_name, s)

  -- The type is a LONG, of which a byte is wanted.
  unfoldable pub byte_of : ℤ → Option ℕ
  byte_of (pos t) = if leb t 255 then some t else none
  byte_of (negsuc n) = none

  typed_child :
      Conversions Real Float
      → Route
      → Text
      → Variant Real Float
      → Option ℕ
      → Bool
      → Bool
      → Store core
      → Answer (Option Route) × Store core
  typed_child change r name v none update out s = (raised (code e_invalidarg), s)
  typed_child change r name v (some t) update out s =
      declare_typed_variant core change r scope_child (some name) v t update out s

  unfoldable pub declare_typed_child :
      Conversions Real Float
      → Route
      → Text
      → Variant Real Float
      → ℤ
      → Bool
      → Bool
      → ComStore core
      → Answer (Option Route) × ComStore core
  unfolding typed_child byte_of
  declare_typed_child change r name v t update out = edit λ s.
      if check_name name
      then typed_child change r name v (byte_of t) update out s
      else (raised c_name, s)

  unfoldable pub truncate_children : Route → ComStore core → Answer (Unit {0}) × ComStore core
  truncate_children r = edit λ s. stale_both (truncate_scope core r scope_child s)

  unfoldable pub declare_child_list : Route → Text → ComStore core → Answer Route × ComStore core
  declare_child_list r name = edit λ s.
      if check_name name
      then from_facade_both (declare_list core r scope_child (some name) true s)
      else (raised c_name, s)

  -- The count is a LONG, and is looked at before the type.
  child_vect_of : Route → Text → ℤ → Option ℕ → Store core → Answer Route × Store core
  child_vect_of r name (negsuc n) t s = (raised c_range, s)
  child_vect_of r name (pos n) none s = (raised (code e_invalidarg), s)
  child_vect_of r name (pos n) (some t) s =
      from_facade_both (declare_vect core r scope_child (some name) n t true s)

  unfoldable pub declare_child_vect :
      Route → Text → ℤ → ℤ → ComStore core → Answer Route × ComStore core
  unfolding child_vect_of byte_of
  declare_child_vect r name n t =
      edit λ s. if check_name name then child_vect_of r name n (byte_of t) s else (raised c_name, s)

  -- `to_epoch`: DateToEpoch, which computes with doubles.
  unfoldable pub put_time :
      {Date : Type 0} → (Date → ℤ) → Route → Date → ComStore core → Answer ℤ × ComStore core
  put_time to_epoch r date = edit λ s. stale_both (set_time core r (to_epoch date) s)

  -- -1 is now.
  unfoldable pub touch : Route → ComStore core → Answer ℤ × ComStore core
  touch r = edit λ s. stale_both (set_time core r (negsuc 0) s)

  unfoldable pub push_field : Route → ComStore core → Answer (Unit {0}) × ComStore core
  push_field r = edit λ s. stale_both (push_value core r s)

  -- S_FALSE is the answer false; the change is counted nevertheless.
  is_done : Outcome HResult × Store core → Answer Bool × Store core
  is_done (ok hr, s) = (answered (code hr == code s_ok), s)
  is_done (fail e, s) = (raised (as_stale (code e)), s)
  is_done (diverge, s) = (unending, s)

  unfoldable pub pop_field : Route → ComStore core → Answer Bool × ComStore core
  unfolding is_done
  pop_field r = edit λ s. is_done (pop_value core r s)

  unfoldable pub drop_field : Route → ComStore core → Answer Bool × ComStore core
  unfolding is_done
  drop_field r = edit λ s. is_done (drop_value core r s)
