-- ===== src/Store/Triggers.antt =====
-- Change notification and demand paging, src/FacadeStore.cpp: Arm, Disarm, Fire, PageIn, PageOut, and the
-- static functions by which the core calls a store back.
pub mod Callbacks
use Prim.Native.Nat.{bit_and}
use msg_facade.Prelude.{ℕ, Bool, false, ◌||◌, Option, none, some, ◌==◌, if◌then◌else◌}
use msg_facade.HResult.{HResult, s_ok, s_false, e_core, e_invalidarg}
use msg_facade.Outcome.{Outcome, ok, fail, attempt, ◌>>=◌}
use msg_facade.Core.{Msgcore}
use msg_facade.Store.{Store}
use msg_facade.Store.Life.{in_store, with_mgr}

-- MSGF_TRIG_ALL: insert, update and delete, with bit 3 for active.
abbrev pub trig_all : ℕ
trig_all = 15

module _ (core : Msgcore) where
  open core use {
    Mgr, create_trigger, drop_triggers, fire_trigger, page_dataset_in, page_dataset_out,
  }

  -- A call that changes the manager, and its result.
  on_mgr : {A : Type 0} → (Mgr → Option A × Mgr) → Mgr → Store core → Outcome A × Store core
  on_mgr f m s = let (done, m') = f m in (attempt done, with_mgr core s m')

  unfoldable pub arm : ℕ → ℕ → Store core → Outcome (Unit {0}) × Store core
  unfolding on_mgr
  arm mask target = in_store core λ m s.
      if bit_and mask trig_all == 0 || target == 0
      then (fail e_invalidarg, s)
      else on_mgr (create_trigger mask target) m s

  unfoldable pub disarm : ℕ → ℕ → Store core → Outcome (Unit {0}) × Store core
  unfolding on_mgr
  disarm mask target = in_store core (on_mgr (drop_triggers mask target))

  -- The number of triggers that have fired.
  unfoldable pub fire : ℕ → ℕ → Store core → Outcome ℕ × Store core
  unfolding on_mgr
  fire mask target = in_store core (on_mgr (fire_trigger target mask))

  -- S_FALSE where nothing was paged.
  paged : (Mgr → Option Bool × Mgr) → ℕ → Mgr → Store core → Outcome HResult × Store core
  unfolding on_mgr
  paged f target m s =
      if target == 0
      then (fail e_invalidarg, s)
      else let (done, s') = on_mgr f m s in
        (done >>= λ moved. ok (if moved then s_ok else s_false), s')

  unfoldable pub page_in : ℕ → Store core → Outcome HResult × Store core
  unfolding paged
  page_in target = in_store core (paged (page_dataset_in target) target)

  unfoldable pub page_out : ℕ → Bool → Store core → Outcome HResult × Store core
  unfolding paged
  page_out target flush = in_store core (paged (page_dataset_out target flush) target)

  -- `TriggerTramp`: the sink that hears of a change, if there is one. A raise of the sink is swallowed.
  unfoldable pub trigger_tramp : Store core → Option ℕ
  trigger_tramp s = if s.closed then none else s.events

  -- `PageInTramp` and `PageOutTramp`: the core is told FALSE where there is no sink, and where the sink
  -- raises; `ask` is the call of a sink.
  unfoldable pub paging_tramp : Store core → (ℕ → Option Bool) → Bool
  paging_tramp s ask = if s.closed then false else elim s.paging [
    | none ↦ false
    | some sink ↦ elim (ask sink) [ none ↦ false | some moved ↦ moved ]
  ]
