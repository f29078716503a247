-- ===== src/Node/Declares.antt =====
-- The declares of `FacadeNode`, src/FacadeNode.cpp: the shared opening and ending around the declare of
-- the value layer.
use msg_facade.Prelude.{ℕ, Bool, Option, none, some, List, if◌then◌else◌, Text}
use msg_facade.Prelude.Int.{ℤ}
use msg_facade.HResult.{e_name, e_scope, e_exists}
use msg_facade.Outcome.{Outcome, ok, fail, attempt, guard, ◌>>=◌, ◌>>◌}
use msg_facade.Outcome.Act.{Act}
use msg_facade.Route.{Route, is_usable_name}
use msg_facade.Core.{Msgcore}
use msg_facade.Store.{Store, open_store, make_node, scope_cursor}
use msg_facade.Store.Life.{with_mgr, mark_dirty}
use msg_facade.Values.{declare_int, declare_real, declare_text, declare_blob, declare_guid}
use msg_facade.Node.{is_public_scope, route_with, field_of, if_allowed}

module _ (core : Msgcore) where
  open core use {Mgr, Object, Real, valid_itemname, goto_name}

  -- `BeginDeclare`, behind the guard: the name, and the field with its manager.
  unfoldable pub begin_declare :
      Store core → Route → ℕ → Option Text → Bool → Outcome (Text × (Mgr × Object))
  begin_declare s r scope name update = do
    opened ← open_store core s
    guard (is_public_scope scope) e_scope
    n ← (elim name [
      | none ↦ fail e_name
      | some n ↦ if is_usable_name valid_itemname (some n) then ok n else fail e_name
    ])
    (m, o) ← field_of core s r
    if update then ok (n, (m, o)) else do
      c ← attempt (scope_cursor core m o scope)
      found ← attempt (goto_name m c n).0
      if found then fail e_exists else ok (n, (m, o))

  -- `EndDeclare`: the route of the new node, if the caller asks for it.
  unfoldable pub end_declare :
      Route → ℕ → Text → Bool → Store core → Outcome (Option Route) × Store core
  end_declare r scope name out s = (
    if out then (make_node (route_with r scope name) >>= λ q. ok (some q)) else ok none,
    mark_dirty core s,
  )

  -- A declare of the value layer between the two.
  unfoldable pub declare :
      (Object → Text → Act Mgr Unit)
      → Route
      → ℕ
      → Option Text
      → Bool
      → Bool
      → Store core
      → Outcome (Option Route) × Store core
  declare body r scope name update out s =
      if_allowed core (begin_declare s r scope name update)
        (λ (n, (m, o)) t.
          let (done, m') = body o n m in
          if_allowed core done (λ _. end_declare r scope n out) (with_mgr core t m'))
        s

  unfoldable pub node_declare_int :
      Route
      → ℕ
      → Option Text
      → ℤ
      → ℕ
      → Bool
      → Bool
      → Store core
      → Outcome (Option Route) × Store core
  node_declare_int r scope name v type update out =
      declare (λ o n. declare_int core o scope n v type update) r scope name update out

  unfoldable pub node_declare_real :
      Route
      → ℕ
      → Option Text
      → Real
      → ℕ
      → Bool
      → Bool
      → Store core
      → Outcome (Option Route) × Store core
  node_declare_real r scope name v type update out =
      declare (λ o n. declare_real core o scope n v type update) r scope name update out

  unfoldable pub node_declare_text :
      Route
      → ℕ
      → Option Text
      → Option Text
      → Bool
      → Bool
      → Store core
      → Outcome (Option Route) × Store core
  node_declare_text r scope name v update out =
      declare (λ o n. declare_text core o scope n v update) r scope name update out

  unfoldable pub node_declare_blob :
      Route
      → ℕ
      → Option Text
      → Option (List ℕ)
      → ℕ
      → Bool
      → Bool
      → Store core
      → Outcome (Option Route) × Store core
  node_declare_blob r scope name v size update out =
      declare (λ o n. declare_blob core o scope n v size update) r scope name update out

  unfoldable pub node_declare_guid :
      Route
      → ℕ
      → Option Text
      → Option Text
      → Bool
      → Bool
      → Store core
      → Outcome (Option Route) × Store core
  node_declare_guid r scope name v update out =
      declare (λ o n. declare_guid core o scope n v update) r scope name update out
