-- ===== src/Node/Restructure.antt =====
-- The rest of the methods of `FacadeNode`, src/FacadeNode.cpp, on a node and its two collections: what
-- the node is, its time stamp, and Delete, Truncate, Rename and Move.
use msg_facade.Prelude.{
  ℕ, ◌%◌, ◌^◌, Bool, Option, none, some, List, [], ◌∷◌, ◌==◌, if◌then◌else◌, Text,
}
use msg_facade.Prelude.Int.{ℤ}
use msg_facade.HResult.{HResult, s_ok, s_false, e_pointer, e_scope, e_name, e_no_item, e_invalidarg}
use msg_facade.CopyOut.{Out, copy_out, answer}
use msg_facade.Outcome.{Outcome, ok, fail, attempt, guard, ◌>>=◌, ◌>>◌}
use msg_facade.Outcome.Act.{Act, change}
use msg_facade.Route.{Route, is_usable_name, scope_attr}
use msg_facade.Core.{Msgcore}
use msg_facade.Store.{Store, open_store, scope_cursor, resolve_object, resolve_field}
use msg_facade.Node.{is_public_scope, field_of, change_field, if_allowed}
use msg_facade.Cursor.{FacadeCursor, make_cursor}
use msg_facade.Walker.{FacadeWalker, make_walker}

-- The collection that the scope switch of the source takes: r_Attr, else r_Desc.
abbrev pub is_attr : ℕ → Bool
is_attr scope = scope == scope_attr

-- A pointer that must not be NULL.
abbrev pub given {ℓ} : {A : Type ℓ} → Option A → Outcome A
given none = fail e_pointer
given (some a) = ok a

module _ (core : Msgcore) where
  open core use {
    Mgr, Object, valid_itemname, same_ignoring_case, p2pos, goto_name, field_name, is_null,
    get_tstamp, set_tstamp, coll_count, coll_delete, coll_truncate, refactor_rename, refactor_move,
  }

  -- The root answers an empty name.
  unfoldable pub get_name : Store core → Route → Option (List ℕ) → Option ℕ → Out
  get_name s r buf cch = answer buf cch (
      open_store core s >>= λ m. resolve_object core s r >>= λ o. elim r [
        | [] ↦ ok (copy_out (some []) buf cch)
        | _ ∷ _ ↦ attempt (field_name m o) >>= λ name. ok (copy_out (some name) buf cch)
      ])

  unfoldable pub get_pos : Store core → Route → Bool → Outcome ℕ
  get_pos s r out = do
    m ← open_store core s
    guard out e_pointer
    o ← resolve_object core s r
    attempt (p2pos m o)

  unfoldable pub get_null : Store core → Route → Bool → Outcome Bool
  get_null s r out = do
    m ← open_store core s
    guard out e_pointer
    o ← resolve_object core s r
    attempt (is_null m o)

  unfoldable pub get_time : Store core → Route → Bool → Outcome ℤ
  get_time s r out = do
    opened ← open_store core s
    guard out e_pointer
    (m, o) ← field_of core s r
    attempt (get_tstamp m o)

  -- The time that the core has stored.
  unfoldable pub set_time : Route → ℤ → Store core → Outcome ℤ × Store core
  set_time r v s =
      if_allowed core (field_of core s r) (change_field core (λ o. change (set_tstamp o v))) s

  unfoldable pub get_child_count : Store core → Route → ℕ → Bool → Outcome ℕ
  get_child_count s r scope out = do
    opened ← open_store core s
    guard (is_public_scope scope) e_scope
    guard out e_pointer
    (m, o) ← field_of core s r
    n ← attempt (coll_count (is_attr scope) m o)
    ok (n % 2 ^ 32)

  -- What Delete and Truncate ask.
  asked_delete : Store core → Route → ℕ → Option Text → Outcome (Text × (Mgr × Object))
  asked_delete s r scope name = do
    opened ← open_store core s
    guard (is_public_scope scope) e_scope
    n ← given name
    at ← field_of core s r
    ok (n, at)

  delete_named : Bool → Text → Object → Act Mgr (Unit {0})
  delete_named attr name o m =
      let (gone, m') = coll_delete attr o name m in
      (attempt gone >>= λ done. guard done e_no_item, m')

  unfoldable pub delete_child :
      Route → ℕ → Option Text → Store core → Outcome (Unit {0}) × Store core
  unfolding asked_delete delete_named
  delete_child r scope name s =
      if_allowed core (asked_delete s r scope name)
        (λ (n, at). change_field core (delete_named (is_attr scope) n) at) s

  asked_truncate : Store core → Route → ℕ → Outcome (Mgr × Object)
  asked_truncate s r scope = do
    opened ← open_store core s
    guard (is_public_scope scope) e_scope
    field_of core s r

  unfoldable pub truncate_scope : Route → ℕ → Store core → Outcome (Unit {0}) × Store core
  unfolding asked_truncate
  truncate_scope r scope s =
      if_allowed core (asked_truncate s r scope)
        (change_field core (λ o. change (coll_truncate (is_attr scope) o))) s

  -- `if ( !oCurs->Goto ( name ) ) return MSGF_E_NO_ITEM;`
  unfoldable pub has_child : Mgr → Object → ℕ → Text → Outcome (Unit {0})
  has_child m o scope name = do
    c ← attempt (scope_cursor core m o scope)
    found ← attempt (goto_name m c name).0
    guard found e_no_item

  -- What Rename asks: `none` where the names are the same but for case.
  asked_rename :
      Store core
      → Route
      → ℕ
      → Option Text
      → Option Text
      → Outcome (Option (Text × (Text × (Mgr × Object))))
  asked_rename s r scope name new_name = do
    opened ← open_store core s
    guard (is_public_scope scope) e_scope
    old ← given name
    new ← given new_name
    guard (is_usable_name valid_itemname (some new)) e_name
    if same_ignoring_case old new
        then ok none
        else do (m, o) ← field_of core s r; has_child m o scope old; ok (some (old, (new, (m, o))))

  rename_at :
      ℕ → Option (Text × (Text × (Mgr × Object))) → Store core → Outcome HResult × Store core
  rename_at scope none s = (ok s_false, s)
  rename_at scope (some (old, (new, at))) s =
      let (done, s') =
        change_field core (λ o. change (refactor_rename (is_attr scope) o old new)) at s in
      (done >>= λ _. ok s_ok, s')

  unfoldable pub rename_child :
      Route → ℕ → Option Text → Option Text → Store core → Outcome HResult × Store core
  unfolding asked_rename rename_at
  rename_child r scope name new_name s =
      if_allowed core (asked_rename s r scope name new_name) (rename_at scope) s

  -- The other node of a Move: is it of this store, and its route.
  asked_move :
      Store core
      → Route
      → ℕ
      → Option Text
      → Option (Bool × Route)
      → Outcome (Text × (Object × (Mgr × Object)))
  asked_move s r scope name destin = do
    opened ← open_store core s
    guard (is_public_scope scope) e_scope
    n ← given name
    (same_store, to) ← given destin
    guard same_store e_invalidarg
    (m, o) ← field_of core s r
    below ← resolve_field core s to
    has_child m o scope n
    ok (n, (below, (m, o)))

  unfoldable pub move_child :
      Route → ℕ → Option Text → Option (Bool × Route) → Store core → Outcome (Unit {0}) × Store core
  unfolding asked_move
  move_child r scope name destin s =
      if_allowed core (asked_move s r scope name destin)
        (λ (n, (below, at)).
          change_field core (λ o. change (refactor_move (is_attr scope) o below n)) at)
        s

  -- OpenCursor and OpenWalker
  unfoldable pub open_cursor : Store core → Route → ℕ → Outcome (FacadeCursor core)
  open_cursor s r scope = do
    opened ← open_store core s
    guard (is_public_scope scope) e_scope
    make_cursor core s r scope

  unfoldable pub open_walker : Store core → Route → ℕ → Outcome (FacadeWalker core)
  open_walker s r scope = do
    opened ← open_store core s
    guard (is_public_scope scope) e_scope
    make_walker core s r scope
