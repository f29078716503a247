-- ===== src/Com/Events/Dispatch.antt =====
-- The dispatch thread of `CMsgStore` beside the threads that push: `DispatchLoop`, `Push`, and the end that
-- FinalRelease asks for. A step is what a thread does under a lock or in one call of the system, so that
-- a push that has left the lock has its SetEvent still to come.
pub mod Quiet
pub mod Account
use msg_facade.Prelude.{
  ℕ, suc, ◌+◌, ◌≡◌, Bool, true, false, Option, none, some, List, [], ◌∷◌, ◌++◌, if◌then◌else◌,
}
use msg_facade.Com.Events.{StoreEvent, EventQueue, enqueue, pop_event, on_trigger}

-- Where the dispatch thread is: in WaitForSingleObject, in the inner loop, at the test of m_lQuit, or gone.
pub data Pc : Type 0 where
  waits drains tests ended : Pc

-- `signalled`: the auto-reset event m_hWake. `coming`: the calls of SetEvent that are still to come.
pub record Dispatch : Type 0 where
  pub queue : EventQueue
  pub signalled : Bool
  pub coming : ℕ
  pub quit : Bool
  pub pc : Pc

unfoldable pub begun : Dispatch
begun = record {
  queue = record { waiting = []; dropped = 0 };
  signalled = false;
  coming = 0;
  quit = false;
  pc = waits;
}

unfoldable pub offered : StoreEvent → Dispatch → Dispatch
offered ev s =
    let (wake, q) = enqueue ev s.queue in
    record s { queue = q; coming = if wake then s.coming + 1 else s.coming }

-- The dispatch thread has called Pop: what it has got goes to Fire.
unfoldable pub after_pop : Option StoreEvent → Pc
after_pop none = tests
after_pop (some ev) = drains

unfoldable pub popped : Dispatch → Dispatch
unfolding after_pop
popped s = let (got, q) = pop_event s.queue in record s { queue = q; pc = after_pop got }

unfoldable pub to_list : Option StoreEvent → List StoreEvent
to_list none = []
to_list (some ev) = ev ∷ []

unfoldable pub handed : Dispatch → List StoreEvent
unfolding to_list
handed s = to_list (pop_event s.queue).0

-- `Run pushed fired s`: the threads get to `s` by pushing the events `pushed` and firing the events
-- `fired`, in this order.
pub data Run : List StoreEvent → List StoreEvent → Dispatch → Type 0 where
  start : Run [] [] begun
  trigger :
      {pushed fired : List StoreEvent} {s : Dispatch} (kind target : ℕ)
      → Run pushed fired s
      → Run (pushed ++ on_trigger kind target ∷ []) fired (offered (on_trigger kind target) s)
  set_event :
      {pushed fired : List StoreEvent} {s : Dispatch} (n : ℕ)
      → s.coming ≡ suc n
      → Run pushed fired s
      → Run pushed fired (record s { signalled = true; coming = n })
  wake :
      {pushed fired : List StoreEvent} {s : Dispatch}
      → s.pc ≡ waits
      → s.signalled ≡ true
      → Run pushed fired s
      → Run pushed fired (record s { signalled = false; pc = drains })
  take_one :
      {pushed fired : List StoreEvent} {s : Dispatch}
      → s.pc ≡ drains
      → Run pushed fired s
      → Run pushed (fired ++ handed s) (popped s)
  go_on :
      {pushed fired : List StoreEvent} {s : Dispatch}
      → s.pc ≡ tests
      → s.quit ≡ false
      → Run pushed fired s
      → Run pushed fired (record s { pc = waits })
  leave :
      {pushed fired : List StoreEvent} {s : Dispatch}
      → s.pc ≡ tests
      → s.quit ≡ true
      → Run pushed fired s
      → Run pushed fired (record s { pc = ended })
  ask_to_quit :
      {pushed fired : List StoreEvent} {s : Dispatch}
      → Run pushed fired s
      → Run pushed fired (record s { quit = true; coming = s.coming + 1 })
