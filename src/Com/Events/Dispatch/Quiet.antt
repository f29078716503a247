-- ===== src/Com/Events/Dispatch/Quiet.antt =====
-- The wake-ups of the dispatch thread of com/ComStore.cpp.
use msg_facade.Prelude.{
  ℕ, ◌≡◌, refl, ap, inl, inr, true, false, Option, none, some, List, [], ◌∷◌, arith, leb, ◌==◌,
  leb→le, ==→eq, Bool-cases, length,
}
use msg_facade.Com.Events.{StoreEvent, EventQueue, enqueue, pop_event, max_queued, pop_from}
use msg_facade.Com.Events.Dispatch.{
  Dispatch, waits, tests, begun, offered, popped, Run, start, trigger, set_event, wake, take_one,
  go_on, leave, ask_to_quit, after_pop,
}

-- Nothing waits, and no drop is untold.
pub record IsSpent (q : EventQueue) : Type 0 where
  pub empty : q.waiting ≡ []
  pub told : q.dropped ≡ 0

-- Where no wake-up is on its way, the dispatch thread has nothing to do.
pub record IsAwake (s : Dispatch) : Type 0 where
  pub at_wait :
      s.pc ≡ waits → s.signalled ≡ false → s.coming ≡ 0 → IsSpent s.queue × (s.quit ≡ false)
  pub at_test : s.pc ≡ tests → s.signalled ≡ false → s.coming ≡ 0 → IsSpent s.queue

full-IsSpent : (q : EventQueue) → leb max_queued (length q.waiting) ≡ true → IsSpent q → ⊥
full-IsSpent q full spent = omega (arith, leb→le _ _ full, ap length spent.empty)

offered-IsAwake : (ev : StoreEvent) (s : Dispatch) → IsAwake s → IsAwake (offered ev s)
unfolding offered enqueue
offered-IsAwake ev s h = elim (Bool-cases (leb max_queued (length s.queue.waiting))) [
  | inl full ↦ rw full record {
    at_wait = λ w c n. absurd (full-IsSpent s.queue full (h.at_wait w c n).0);
    at_test = λ w c n. absurd (full-IsSpent s.queue full (h.at_test w c n));
  }
  | inr room ↦ rw room record {
    at_wait = λ w c n. absurd (omega (arith, n));
    at_test = λ w c n. absurd (omega (arith, n));
  }
]

pop-IsSpent : (xs : List StoreEvent) (n : ℕ) → (pop_from xs n).0 ≡ none → IsSpent (pop_from xs n).1
unfolding pop_from
pop-IsSpent (x ∷ xs) n h = cc
pop-IsSpent [] n h = elim (Bool-cases (n == 0)) [
  | inl z ↦ rw z record { empty = refl; told = ==→eq n 0 z }
  | inr nz ↦ absurd (ground arith)
]

after_pop_tests : (got : Option StoreEvent) → after_pop got ≡ tests → got ≡ none
unfolding after_pop
after_pop_tests none h = refl
after_pop_tests (some ev) h = cc

after_pop_waits : (got : Option StoreEvent) → after_pop got ≡ waits → ⊥
unfolding after_pop
after_pop_waits none h = cc
after_pop_waits (some ev) h = cc

popped-IsAwake : (s : Dispatch) → IsAwake (popped s)
unfolding popped pop_event
popped-IsAwake s = record {
  at_wait = λ w c n. absurd (after_pop_waits _ w);
  at_test = λ t c n. pop-IsSpent s.queue.waiting s.queue.dropped (after_pop_tests _ t);
}

pub Run-IsAwake : {pushed fired : List StoreEvent} {s : Dispatch} → Run pushed fired s → IsAwake s
Run-IsAwake start =
    unfold begun in
    record {
      at_wait = λ w c n. (record { empty = refl; told = refl }, refl);
      at_test = λ w c n. cc;
    }
Run-IsAwake (trigger kind target r) = offered-IsAwake _ _ (Run-IsAwake r)
Run-IsAwake (set_event n e r) = record { at_wait = λ w c n. cc; at_test = λ w c n. cc }
Run-IsAwake (wake w c r) = record { at_wait = λ w c n. cc; at_test = λ w c n. cc }
Run-IsAwake (take_one d r) = popped-IsAwake _
Run-IsAwake (go_on t q r) = record {
  at_wait = λ w c n. ((Run-IsAwake r).at_test t c n, q);
  at_test = λ w c n. cc;
}
Run-IsAwake (leave t q r) = record { at_wait = λ w c n. cc; at_test = λ w c n. cc }
Run-IsAwake (ask_to_quit r) = record {
  at_wait = λ w c n. absurd (omega (arith, n));
  at_test = λ w c n. absurd (omega (arith, n));
}

-- However the threads take turns, once the dispatch thread waits with its event not set and no SetEvent to
-- come, nothing is left in the queue, no drop is untold, and nobody has asked it to end.
pub Run-quiet :
    {pushed fired : List StoreEvent} {s : Dispatch}
    → Run pushed fired s
    → s.pc ≡ waits
    → s.signalled ≡ false
    → s.coming ≡ 0
    → (s.queue.waiting ≡ []) × (s.queue.dropped ≡ 0) × (s.quit ≡ false)
Run-quiet r w c n =
    let (spent, stays) = (Run-IsAwake r).at_wait w c n in (spent.empty, spent.told, stays)
