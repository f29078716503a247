-- ===== src/Node/Stack.antt =====
-- The value stack of a node: PushValue, PopValue, DropValue and IsStacked of src/FacadeNode.cpp.
use msg_facade.Prelude.{Bool, if◌then◌else◌}
use msg_facade.HResult.{HResult, s_ok, s_false, e_pointer}
use msg_facade.Outcome.{Outcome, ok, attempt, guard, ◌>>=◌, ◌>>◌}
use msg_facade.Outcome.Act.{Act, change}
use msg_facade.Route.{Route}
use msg_facade.Core.{Msgcore}
use msg_facade.Store.{Store, open_store}
use msg_facade.Node.{field_of, change_field, if_allowed}

module _ (core : Msgcore) where
  open core use {Mgr, Object, stack_push, stack_pop, stack_drop}

  unfoldable pub push_value : Route → Store core → Outcome (Unit {0}) × Store core
  push_value r s =
      if_allowed core (field_of core s r) (change_field core (λ o. change (stack_push o))) s

  -- The field, and whether it is stacked.
  unfoldable pub stacked_of : Store core → Route → Outcome (Bool × (Mgr × Object))
  stacked_of s r = do
    (m, o) ← field_of core s r
    stacked ← attempt (core.is_stacked m o)
    ok (stacked, (m, o))

  -- S_FALSE for a node that is not stacked.
  take_off :
      (Object → Act Mgr (Unit {0}))
      → Bool × (Mgr × Object)
      → Store core
      → Outcome HResult × Store core
  take_off body (stacked, at) s =
      if stacked
      then (let (done, s') = change_field core body at s in (done >>= λ _. ok s_ok, s'))
      else (ok s_false, s)

  unfoldable pub pop_value : Route → Store core → Outcome HResult × Store core
  unfolding take_off
  pop_value r s = if_allowed core (stacked_of s r) (take_off (λ o. change (stack_pop o))) s

  unfoldable pub drop_value : Route → Store core → Outcome HResult × Store core
  unfolding take_off
  drop_value r s = if_allowed core (stacked_of s r) (take_off (λ o. change (stack_drop o))) s

  unfoldable pub get_stacked : Store core → Route → Bool → Outcome Bool
  get_stacked s r out = do
    opened ← open_store core s
    guard out e_pointer
    (stacked, at) ← stacked_of s r
    ok stacked
