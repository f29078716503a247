-- ===== src/Store.antt =====
-- `FacadeStore` of src/FacadeStore.cpp: its state, the closed test, and the route resolver.
pub mod Resolve
pub mod Life
pub mod Tree
pub mod Queries
pub mod Triggers
pub mod Search
use msg_facade.Prelude.{
  ℕ, ◌^◌, Bool, not, Option, none, some, [], ◌∷◌, ltb, leb, ◌==◌, if◌then◌else◌, Text, length,
}
use msg_facade.Prelude.Int.{pos, leb_ℤ}
use msg_facade.HResult.{e_closed, e_depth, e_type, e_range, e_no_item}
use msg_facade.Outcome.{Outcome, ok, fail, attempt, guard, ◌>>=◌, ◌>>◌}
use msg_facade.Types.{to_signed}
use msg_facade.Route.{Step, Route, scope_elem, scope_attr, max_depth}
use msg_facade.Core.{Msgcore}

-- `FacadeNode::Make`, as the route of the node that it makes.
unfoldable pub make_node : Route → Outcome Route
make_node r = if ltb max_depth (length r) then fail e_depth else ok r

module _ (core : Msgcore) where
  open core use {
    Mgr, Object, Cursor, root, is_vect, is_list, is_field, vect_count, elem_is_list, elem_is_vect,
    elem_is_field, elem_list, elem_vect, elem_item, cursor_child, cursor_attr, goto_name,
    cursor_object,
  }

  -- A sink of the client is known by a number; `none` is a NULL pointer.
  pub record Store : Type 0 where
    pub mgr : Option Mgr
    pub addr : ℕ
    pub initial : ℕ
    pub max : ℕ
    pub file : Text
    pub refs : ℕ
    pub closed : Bool
    pub events : Option ℕ
    pub paging : Option ℕ
    pub pushed : ℕ

  -- `StoreGuard::Failed`, with the manager that it has found.
  unfoldable pub open_store : Store → Outcome Mgr
  open_store s =
      if s.closed then fail e_closed else elim s.mgr [ none ↦ fail e_closed | some m ↦ ok m ]

  -- `ScopeCursor`
  unfoldable pub scope_cursor : Mgr → Object → ℕ → Option Cursor
  scope_cursor m field scope =
      if scope == scope_attr then cursor_attr m field else cursor_child m field

  -- A step to an element of a vect.
  unfoldable pub resolve_element : Mgr → Object → ℕ → Outcome Object
  resolve_element m cur index = do
    vect ← attempt (is_vect m cur)
    guard vect e_type
    let i = to_signed (2 ^ 32) index
    guard (leb_ℤ (pos 0) i) e_range
    n ← attempt (vect_count m cur)
    guard (not (leb_ℤ n i)) e_range
    list ← attempt (elem_is_list m cur i)
    if list then attempt (elem_list m cur i) else do
      nested ← attempt (elem_is_vect m cur i)
      if nested then attempt (elem_vect m cur i) else do
        field ← attempt (elem_is_field m cur i)
        if field then attempt (elem_item m cur i) else fail e_type

  -- A ScopeCursor that is sent to a name: the object there, `none` if there is no such name.
  unfoldable pub find_child : Mgr → Object → ℕ → Text → Outcome (Option Object)
  find_child m field scope name = do
    c ← attempt (scope_cursor m field scope)
    let (found, c') = goto_name m c name
    hit ← attempt found
    if hit then (do object ← attempt (cursor_object m c'); ok (some object)) else ok none

  -- A step to a named child.
  unfoldable pub resolve_child : Mgr → Object → ℕ → Text → Outcome Object
  resolve_child m cur scope name = do
    field ← attempt (is_field m cur)
    guard field e_type
    found ← find_child m cur scope name
    elim found [ none ↦ fail e_no_item | some object ↦ ok object ]

  unfoldable pub resolve_step : Mgr → Object → Step → Outcome Object
  resolve_step m cur t =
      if t.scope == scope_elem
      then resolve_element m cur t.index
      else resolve_child m cur t.scope t.name

  unfoldable pub resolve_from : Mgr → Object → Route → Outcome Object
  resolve_from m cur [] = ok cur
  resolve_from m cur (t ∷ r) = do next ← resolve_step m cur t; resolve_from m next r

  unfoldable pub resolve_object : Store → Route → Outcome Object
  resolve_object s r = do
    m ← open_store s
    guard (leb (length r) max_depth) e_depth
    cur ← attempt (root m)
    resolve_from m cur r

  unfoldable pub resolve_field : Store → Route → Outcome Object
  resolve_field s r = do
    m ← open_store s
    object ← resolve_object s r
    field ← attempt (is_field m object)
    guard field e_type
    ok object
