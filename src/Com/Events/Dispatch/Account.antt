-- ===== src/Com/Events/Dispatch/Account.antt =====
-- What becomes of the changes that a store of com/ComStore.cpp tells of.
use msg_facade.Prelude.{
  ℕ, ◌+◌, ◌≡◌, refl, sym, ap, inl, inr, List, [], ◌∷◌, ◌++◌, append_assoc, append-nil, arith, leb,
  ◌==◌, Bool-cases, length, length-append,
}
use mathlib.Core.Path.{subst}
use mathlib.Core.List.{Sublist, nil-sublist}
use mathlib.Core.List.Sublist.{refl as Sublist-refl}
use mathlib.Core.List.Sublist.{append as Sublist-append}
use msg_facade.Com.Events.{
  StoreEvent, change, error, EventQueue, enqueue, pop_event, pop_from, on_trigger, max_queued,
}
use msg_facade.Com.Events.Dispatch.{
  Dispatch, begun, offered, popped, handed, to_list, Run, start, trigger, set_event, wake, take_one,
  go_on, leave, ask_to_quit,
}

-- The changes among the events, and the drops of which the errors among them tell.
abbrev pub changes : List StoreEvent → List StoreEvent
changes [] = []
changes (change kind target path ∷ evs) = change kind target path ∷ changes evs
changes (error n ∷ evs) = changes evs

abbrev pub drops : List StoreEvent → ℕ
drops [] = 0
drops (change kind target path ∷ evs) = drops evs
drops (error n ∷ evs) = n + drops evs

changes-append : (xs ys : List StoreEvent) → changes (xs ++ ys) ≡ changes xs ++ changes ys
changes-append [] ys = refl
changes-append (change k p t ∷ xs) ys = ap (λ evs. change k p t ∷ evs) (changes-append xs ys)
changes-append (error n ∷ xs) ys = changes-append xs ys

drops-append : (xs ys : List StoreEvent) → drops (xs ++ ys) ≡ drops xs + drops ys
drops-append [] ys = omega arith
drops-append (change k p t ∷ xs) ys = drops-append xs ys
drops-append (error n ∷ xs) ys = omega (arith, drops-append xs ys)

-- `log`: what was fired, then what waits.
record Tally (pushed log : List StoreEvent) (dropped : ℕ) : Type 0 where
  kept : Sublist (changes log) pushed
  total : length pushed ≡ length (changes log) + drops log + dropped

Sublist-skip {ℓ} : {A : Type ℓ} {xs ys : List A} (a : A) → Sublist xs ys → Sublist xs (ys ++ a ∷ [])
Sublist-skip {xs = xs} {ys} a h =
    subst (λ zs. Sublist zs (ys ++ a ∷ [])) (append-nil xs)
      (Sublist-append h (nil-sublist (a ∷ [])))

module _ (pushed fired : List StoreEvent) (q : EventQueue)
    (h : Tally pushed (fired ++ q.waiting) q.dropped) where
  enqueue-Tally :
      (kind target : ℕ)
      → Tally
          (pushed ++ on_trigger kind target ∷ [])
          (fired ++ (enqueue (on_trigger kind target) q).1.waiting)
          (enqueue (on_trigger kind target) q).1.dropped
  unfolding enqueue on_trigger
  enqueue-Tally kind target = elim (Bool-cases (leb max_queued (length q.waiting))) [
    | inl full ↦ rw full record {
      kept = Sublist-skip _ h.kept;
      total = omega (arith, h.total, length-append pushed (change kind target [] ∷ []));
    }
    | inr room ↦
        rw (room, sym (append_assoc fired q.waiting (change kind target [] ∷ [])))
          record {
            kept =
                rw (changes-append (fired ++ q.waiting) (change kind target [] ∷ []))
                  (Sublist-append h.kept (Sublist-refl (change kind target [] ∷ [])));
            total =
                rw
                  (
                    changes-append (fired ++ q.waiting) (change kind target [] ∷ []),
                    drops-append (fired ++ q.waiting) (change kind target [] ∷ []),
                  )
                  (omega (
                    arith,
                    h.total,
                    length-append pushed (change kind target [] ∷ []),
                    length-append (changes (fired ++ q.waiting)) (change kind target [] ∷ []),
                  ));
          }
  ]

error-Tally :
    (pushed fired : List StoreEvent) (n : ℕ)
    → Tally pushed fired n
    → Tally pushed (fired ++ error n ∷ []) 0
error-Tally pushed fired n t = record {
  kept = rw (changes-append fired (error n ∷ []), append-nil (changes fired)) t.kept;
  total =
      rw
        (
          changes-append fired (error n ∷ []),
          append-nil (changes fired),
          drops-append fired (error n ∷ []),
        )
        (omega (arith, t.total));
}

pop-Tally :
    (pushed fired xs : List StoreEvent) (n : ℕ)
    → Tally pushed (fired ++ xs) n
    → Tally pushed
        ((fired ++ to_list (pop_from xs n).0) ++ (pop_from xs n).1.waiting)
        (pop_from xs n).1.dropped
unfolding pop_from to_list
pop-Tally pushed fired (x ∷ xs) n t = rw (append_assoc fired (x ∷ []) xs) t
pop-Tally pushed fired [] n t = elim (Bool-cases (n == 0)) [
  | inl z ↦ rw (z, append-nil fired) t
  | inr nz ↦
      rw (nz, append-nil (fired ++ error n ∷ []))
        (error-Tally pushed fired n (subst (λ xs. Tally pushed xs n) (append-nil fired) t))
]

offered-Tally :
    (pushed fired : List StoreEvent) (s : Dispatch) (kind target : ℕ)
    → Tally pushed (fired ++ s.queue.waiting) s.queue.dropped
    → Tally
        (pushed ++ on_trigger kind target ∷ [])
        (fired ++ (offered (on_trigger kind target) s).queue.waiting)
        (offered (on_trigger kind target) s).queue.dropped
unfolding offered
offered-Tally pushed fired s kind target h = enqueue-Tally pushed fired s.queue h kind target

popped-Tally :
    (pushed fired : List StoreEvent) (s : Dispatch)
    → Tally pushed (fired ++ s.queue.waiting) s.queue.dropped
    → Tally pushed ((fired ++ handed s) ++ (popped s).queue.waiting) (popped s).queue.dropped
unfolding popped handed pop_event
popped-Tally pushed fired s h = pop-Tally pushed fired s.queue.waiting s.queue.dropped h

Run-Tally :
    {pushed fired : List StoreEvent} {s : Dispatch}
    → Run pushed fired s
    → Tally pushed (fired ++ s.queue.waiting) s.queue.dropped
Run-Tally start = unfold begun in record { kept = Sublist-refl []; total = refl }
Run-Tally (trigger {pushed} {fired} {s} kind target r) =
    offered-Tally pushed fired s kind target (Run-Tally r)
Run-Tally (set_event n e r) = Run-Tally r
Run-Tally (wake w c r) = Run-Tally r
Run-Tally (take_one {pushed} {fired} {s} d r) = popped-Tally pushed fired s (Run-Tally r)
Run-Tally (go_on t q r) = Run-Tally r
Run-Tally (leave t q r) = Run-Tally r
Run-Tally (ask_to_quit r) = Run-Tally r

-- However the threads take turns, at every moment: what Fire has been handed and then what is in the queue
-- is, but for the error events, what the store has told of, in that order, with the rest left out; and the
-- rest are as many as the drops of which the error events tell and those that are not told yet.
pub Run-accounted :
    {pushed fired : List StoreEvent} {s : Dispatch}
    → Run pushed fired s
    → Sublist (changes (fired ++ s.queue.waiting)) pushed
      × (length pushed
          ≡ length (changes (fired ++ s.queue.waiting))
            + drops (fired ++ s.queue.waiting)
            + s.queue.dropped)
Run-accounted r = let t = Run-Tally r in (t.kept, t.total)
