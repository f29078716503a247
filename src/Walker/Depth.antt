-- ===== src/Walker/Depth.antt =====
-- How deep a walk can be, whatever the core does: the outermost level is never left, and no level is
-- opened below MAX_DEPTH.
use msg_facade.Prelude.{ℕ, ◌+◌, ◌≤◌, ◌<◌, ◌≡◌, refl, List, [], ◌∷◌, arith, length}
use msg_facade.HResult.{HResult, s_ok}
use msg_facade.Outcome.{Outcome, ok, fail, diverge, attempt, >>=-eq-ok}
use msg_facade.Route.{Route, max_depth}
use msg_facade.Core.{Msgcore}
use msg_facade.Store.{Store, open_store, scope_cursor, resolve_field}
use msg_facade.Walker.{
  Level, FacadeWalker, make_walker, next_levels, push_open, push_levels, pop_levels, break_levels,
  on_levels, next, push, pop, break, depth,
}

module _ (core : Msgcore) where
  open core use {Mgr, Cursor}

  -- At least the outermost level is open, and at most MAX_DEPTH levels below it.
  pub record IsOpen (ls : List (Level core)) : Type 0 where
    pub outermost : 0 < length ls
    pub bounded : length ls ≤ max_depth + 1

  next_levels-length :
      (m : Mgr) (ls : List (Level core))
      → (length (next_levels core m ls).1 ≤ length ls)
        × (0 < length ls → 0 < length (next_levels core m ls).1)
  unfolding next_levels
  next_levels-length m [] = omega arith
  next_levels-length m (top ∷ []) = ground arith
  next_levels-length m (top ∷ l ∷ rest) = ground (arith, next_levels-length m (l ∷ rest))

  push_open-length :
      (m : Mgr) (c : Cursor) (ls : List (Level core))
      → (length ls ≤ length (push_open core m c ls).1)
        × (length (push_open core m c ls).1 ≤ 1 + length ls)
  unfolding push_open
  push_open-length m c ls = ground arith

  push_levels-length :
      (m : Mgr) (ls : List (Level core))
      → (length ls ≤ max_depth + 1)
      → (length ls ≤ length (push_levels core m ls).1)
        × (length (push_levels core m ls).1 ≤ max_depth + 1)
  unfolding push_levels
  push_levels-length m [] h = omega arith
  push_levels-length m (top ∷ rest) h = ground (arith, push_open-length m top.curs (top ∷ rest))

  pop_levels-length :
      (ls : List (Level core))
      → 0 < length ls
      → (0 < length (pop_levels core ls).1) × (length (pop_levels core ls).1 ≤ length ls)
  unfolding pop_levels
  pop_levels-length [] h = absurd (omega arith)
  pop_levels-length (top ∷ []) h = omega arith
  pop_levels-length (top ∷ l ∷ rest) h = omega arith

  break_levels-length : (ls : List (Level core)) → 0 < length ls → length (break_levels core ls) ≡ 1
  unfolding break_levels
  break_levels-length [] h = absurd (omega arith)
  break_levels-length (top ∷ []) h = refl
  break_levels-length (top ∷ l ∷ rest) h = break_levels-length (l ∷ rest) (omega arith)

  transport_length :
      (w : FacadeWalker core) {v : FacadeWalker core}
      → ok v ≡ ok w
      → length v.levels ≡ 1
      → length w.levels ≡ 1
  transport_length w e one = cc

  transport-IsOpen :
      (w : FacadeWalker core) {v : FacadeWalker core}
      → ok v ≡ ok w
      → length v.levels ≡ 1
      → IsOpen w.levels
  transport-IsOpen w e one = record {
    outermost = omega (arith, transport_length w e one);
    bounded = omega (arith, transport_length w e one);
  }

  make_walker-IsOpen :
      (s : Store core) (owner : Route) (scope : ℕ) (w : FacadeWalker core)
      → make_walker core s owner scope ≡ ok w
      → IsOpen w.levels
  unfolding make_walker
  make_walker-IsOpen s owner scope w h =
      let (m, _, h1) = >>=-eq-ok (open_store core s) _ h in
      let (field, _, h2) = >>=-eq-ok (resolve_field core s owner) _ h1 in
      let (c, _, h3) = >>=-eq-ok (attempt (scope_cursor core m field scope)) _ h2 in
      transport-IsOpen w h3 refl

  -- The changing methods of a walk, and a walk after one and after a sequence of them.
  pub data Call : Type 0 where
    call_next call_push call_pop call_break : Call

  unfoldable pub after : Call → FacadeWalker core → FacadeWalker core
  after call_next w = (next core w).1
  after call_push w = (push core w).1
  after call_pop w = (pop core w).1
  after call_break w = (break core w).1

  unfoldable pub after_all : List Call → FacadeWalker core → FacadeWalker core
  after_all [] w = w
  after_all (c ∷ cs) w = after_all cs (after c w)

  -- `on_levels`, with what the guard answers as an argument.
  on_levels_of :
      (Mgr → List (Level core) → Outcome HResult × List (Level core))
      → FacadeWalker core
      → Outcome Mgr
      → Outcome HResult × FacadeWalker core
  on_levels_of f w o = elim o [
    | ok m ↦ let (r, ls) = f m w.levels in (r, record w { levels = ls })
    | fail e ↦ (fail e, w)
    | diverge ↦ (diverge, w)
  ]

  on_levels-IsOpen :
      (f : Mgr → List (Level core) → Outcome HResult × List (Level core)) (w : FacadeWalker core)
      → ((m : Mgr) → IsOpen w.levels → IsOpen (f m w.levels).1)
      → IsOpen w.levels
      → IsOpen (on_levels core f w).1.levels
  unfolding on_levels on_levels_of
  on_levels-IsOpen f w keeps h =
      elim (open_store core w.store) as (λ o. IsOpen (on_levels_of f w o).1.levels) [
        | ok m ↦ keeps m h
        | fail e ↦ h
        | diverge ↦ h
      ]

  after-IsOpen : (c : Call) (w : FacadeWalker core) → IsOpen w.levels → IsOpen (after c w).levels
  unfolding after next push pop break
  after-IsOpen call_next w = on_levels-IsOpen (next_levels core) w (λ m h. record {
    outermost = ground (arith, h.outermost, next_levels-length m w.levels);
    bounded = ground (arith, h.bounded, next_levels-length m w.levels);
  })
  after-IsOpen call_push w = on_levels-IsOpen (push_levels core) w (λ m h.
      let (more, less) = push_levels-length m w.levels h.bounded in
      record { outermost = ground (arith, h.outermost, more); bounded = less })
  after-IsOpen call_pop w =
      on_levels-IsOpen (λ m. pop_levels core) w
        (λ m h.
          let (more, less) = pop_levels-length w.levels h.outermost in
          record { outermost = more; bounded = ground (arith, h.bounded, less) })
  after-IsOpen call_break w =
      on_levels-IsOpen (λ m ls. (ok s_ok, break_levels core ls)) w
        (λ m h.
          let one = break_levels-length w.levels h.outermost in
          record { outermost = ground (arith, one); bounded = ground (arith, one) })

  pub after_all-IsOpen :
      (cs : List Call) (w : FacadeWalker core) → IsOpen w.levels → IsOpen (after_all cs w).levels
  unfolding after_all
  after_all-IsOpen [] w h = h
  after_all-IsOpen (c ∷ cs) w h = after_all-IsOpen cs (after c w) (after-IsOpen c w h)

  -- A walk that has been made stays open whatever methods are then called and whatever the core
  -- answers: its outermost level is never left, so Pop and Break cannot empty it, and its depth is at
  -- most MAX_DEPTH.
  pub depth_bounded :
      (s : Store core) (owner : Route) (scope : ℕ) (w : FacadeWalker core) (cs : List Call)
      → make_walker core s owner scope ≡ ok w
      → (0 < length (after_all cs w).levels) × (depth core (after_all cs w) ≤ max_depth)
  unfolding depth
  depth_bounded s owner scope w cs made =
      let open_w = after_all-IsOpen cs w (make_walker-IsOpen s owner scope w made) in
      (open_w.outermost, ground (arith, open_w.bounded))
