-- ===== src/Store/Triggers/Callbacks.antt =====
-- What the core's callbacks of a store do once it is released: src/FacadeStore.cpp.
use msg_facade.Prelude.{ℕ, ◌≡◌, refl, Bool, false, Option, none, List}
use msg_facade.Core.{Msgcore}
use msg_facade.Store.{Store}
use msg_facade.Store.Life.{close}
use msg_facade.Store.Life.Closed.{Method, run, run_closed, close-closed}
use msg_facade.Store.Triggers.{trigger_tramp, paging_tramp}

module _ (core : Msgcore) where
  -- After Release, and after any sequence of calls on the closed store, a trigger reaches no sink and
  -- the core is told that nothing was paged, whatever a sink would answer.
  pub tramp-close :
      (s : Store core) (ms : List (core.Files × Method)) (ask : ℕ → Option Bool)
      → (trigger_tramp core (run core ms (close core s)).1 ≡ none)
        × (paging_tramp core (run core ms (close core s)).1 ask ≡ false)
  unfolding trigger_tramp paging_tramp
  tramp-close s ms ask =
      rw (run_closed core ms (close core s) (close-closed core s)).0
        (rw (close-closed core s) (refl, refl))
