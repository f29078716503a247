-- ===== src/Node.antt =====
-- `FacadeNode` of src/FacadeNode.cpp: the methods of a node, which is a route into a store. A method
-- gives the store that it leaves, also where it fails. A pointer that only receives is a Boolean.
pub mod Declares
pub mod Refused
pub mod Restructure
pub mod Containers
pub mod Stack
use msg_facade.Prelude.{
  ℕ, ◌^◌, Bool, true, ◌||◌, Option, none, some, List, [], ◌∷◌, ◌++◌, ltb, ◌==◌, if◌then◌else◌, Text,
}
use msg_facade.Prelude.Int.{ℤ}
use msg_facade.HResult.{HResult, s_ok, s_false, e_pointer, e_scope, e_no_item, e_range}
use msg_facade.CopyOut.{Out, copy_out, answer}
use msg_facade.Types.{to_signed, to_unsigned}
use msg_facade.Outcome
use msg_facade.Outcome.{Outcome, ok, fail, diverge, attempt, guard, ◌>>=◌, ◌>>◌}
use msg_facade.Outcome.Act.{Act}
use msg_facade.Route.{Route, named, format_route, scope_child, scope_attr}
use msg_facade.Core.{Msgcore}
use msg_facade.Store.{Store, open_store, make_node, scope_cursor, resolve_object, resolve_field}
use msg_facade.Store.Life.{with_mgr, mark_dirty}
use msg_facade.Cursor.{Kind, kind_of}
use msg_facade.Values.{
  read_int, read_real, read_text, read_blob, read_guid_text, write_int, write_real, write_text,
  declare_zero,
}

-- `IsPublicScope`
unfoldable pub is_public_scope : ℕ → Bool
is_public_scope scope = scope == scope_child || scope == scope_attr

-- `RouteWith`
unfoldable pub route_with : Route → ℕ → Text → Route
route_with r scope name = r ++ named scope name ∷ []

module _ (core : Msgcore) where
  open core use {Mgr, Object, Cursor, Real, data_type, goto_name, goto_index, count, cursor_name}

  -- The guard, and the field that the node is, with the manager.
  unfoldable pub field_of : Store core → Route → Outcome (Mgr × Object)
  field_of s r = do m ← open_store core s; o ← resolve_field core s r; ok (m, o)

  -- `CopyOut` of an answer: where the answer is a failure, the buffer and the size stay.
  unfoldable pub get_path : Store core → Route → Option (List ℕ) → Option ℕ → Out
  get_path s r buf cch = answer buf cch (
      open_store core s >>= λ m.
      resolve_object core s r >>= λ o. ok (copy_out (some (format_route r)) buf cch))

  unfoldable pub get_kind : Store core → Route → Bool → Outcome Kind
  get_kind s r out = do
    m ← open_store core s
    guard out e_pointer
    o ← resolve_object core s r
    attempt (kind_of core m o)

  unfoldable pub get_type : Store core → Route → Bool → Outcome ℕ
  get_type s r out = do
    m ← open_store core s
    guard out e_pointer
    o ← resolve_object core s r
    attempt (data_type m o)

  unfoldable pub get_int : Store core → Route → Bool → Outcome (ℤ × Bool)
  get_int s r out = field_of s r >>= λ (m, o). read_int core m o out

  unfoldable pub get_real : Store core → Route → Bool → Outcome Real
  get_real s r out = field_of s r >>= λ (m, o). read_real core m o out

  unfoldable pub get_text : Store core → Route → Option (List ℕ) → Option ℕ → Out
  get_text s r buf cch = answer buf cch (field_of s r >>= λ (m, o). ok (read_text core m o buf cch))

  unfoldable pub get_blob : Store core → Route → Option (List ℕ) → Option ℕ → Out
  get_blob s r buf size =
      answer buf size (field_of s r >>= λ (m, o). ok (read_blob core m o buf size))

  unfoldable pub get_guid : Store core → Route → Option (List ℕ) → Option ℕ → Out
  get_guid s r buf cch =
      answer buf cch (field_of s r >>= λ (m, o). ok (read_guid_text core m o buf cch))

  -- A change of the core below an open field, then `MarkDirty` if it succeeded.
  unfoldable pub change_field :
      {A : Type 0} → (Object → Act Mgr A) → Mgr × Object → Store core → Outcome A × Store core
  change_field body (m, o) s =
      let (r, m') = body o m in
      (
        r,
        elim r [
          | ok _ ↦ mark_dirty core (with_mgr core s m')
          | fail _ ↦ with_mgr core s m'
          | diverge ↦ with_mgr core s m'
        ],
      )

  -- A method: what is asked before the change may refuse it, and then the store stays as it is.
  unfoldable pub if_allowed :
      {A B : Type 0}
      → Outcome B
      → (B → Store core → Outcome A × Store core)
      → Store core
      → Outcome A × Store core
  if_allowed asked body s = elim asked [
    | ok b ↦ body b s
    | fail e ↦ (fail e, s)
    | diverge ↦ (diverge, s)
  ]

  unfoldable pub set_int : Route → ℤ → Store core → Outcome (Unit {0}) × Store core
  set_int r v s = if_allowed (field_of s r) (change_field (λ o. write_int core o v)) s

  unfoldable pub set_real : Route → Real → Store core → Outcome (Unit {0}) × Store core
  set_real r v s = if_allowed (field_of s r) (change_field (λ o. write_real core o v)) s

  -- `WriteText` with its default: the cell may grow.
  unfoldable pub set_text : Route → Option Text → Store core → Outcome (Unit {0}) × Store core
  set_text r v s = if_allowed (field_of s r) (change_field (λ o. write_text core o v true)) s

  unfoldable pub exists : Store core → Route → ℕ → Option Text → Outcome HResult
  exists s r scope name = do
    opened ← open_store core s
    guard (is_public_scope scope) e_scope
    n ← (elim name [ none ↦ fail e_pointer | some n ↦ ok n ])
    (m, o) ← field_of s r
    c ← attempt (scope_cursor core m o scope)
    found ← attempt (goto_name m c n).0
    ok (if found then s_ok else s_false)

  -- The name that is stored for a child.
  unfoldable pub stored_name : Mgr → Object → ℕ → Text → Outcome Text
  stored_name m o scope name = do
    c ← attempt (scope_cursor core m o scope)
    let (found, d) = goto_name m c name
    hit ← attempt found
    guard hit e_no_item
    attempt (cursor_name m d)

  unfoldable pub get_child : Store core → Route → ℕ → Option Text → Bool → Outcome Route
  get_child s r scope name out = do
    opened ← open_store core s
    guard (is_public_scope scope) e_scope
    guard out e_pointer
    n ← (elim name [ none ↦ fail e_pointer | some n ↦ ok n ])
    (m, o) ← field_of s r
    stored ← stored_name m o scope n
    make_node (route_with r scope stored)

  -- The count is compared as an `unsigned int`, and the index goes to the core as an `int`.
  unfoldable pub get_child_at : Store core → Route → ℕ → ℕ → Bool → Outcome Route
  get_child_at s r scope index out = do
    opened ← open_store core s
    guard (is_public_scope scope) e_scope
    guard out e_pointer
    (m, o) ← field_of s r
    c ← attempt (scope_cursor core m o scope)
    n ← attempt (count m c)
    guard (ltb index (to_unsigned (2 ^ 32) n)) e_range
    let (moved, d) = goto_index m c (to_signed (2 ^ 32) index)
    hit ← attempt moved
    guard hit e_range
    stored ← attempt (cursor_name m d)
    make_node (route_with r scope stored)

  retype_asked : Store core → Route → ℕ → Option Text → Outcome (Text × (Mgr × Object))
  retype_asked s r scope name = do
    opened ← open_store core s
    guard (is_public_scope scope) e_scope
    n ← (elim name [ none ↦ fail e_pointer | some n ↦ ok n ])
    (m, o) ← field_of s r
    c ← attempt (scope_cursor core m o scope)
    found ← attempt (goto_name m c n).0
    guard found e_no_item
    ok (n, (m, o))

  unfoldable pub retype : Route → ℕ → Option Text → ℕ → Store core → Outcome (Unit {0}) × Store core
  unfolding retype_asked
  retype r scope name t s =
      if_allowed (retype_asked s r scope name)
        (λ (n, at). change_field (λ o. declare_zero core o scope n t) at) s
