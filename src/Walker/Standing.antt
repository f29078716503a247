-- ===== src/Walker/Standing.antt =====
-- What a Push of `FacadeWalker` does for the calls that follow it: src/FacadeCursor.cpp.
use msg_facade.Prelude.{◌+◌, ◌<◌, ◌≡◌, refl, List, [], ◌∷◌, arith, length}
use msg_facade.HResult.{HResult, s_ok}
use msg_facade.Outcome.{Outcome, ok}
use msg_facade.Core.{Msgcore}
use msg_facade.Store.{open_store}
use msg_facade.Walker.{
  Level, FacadeWalker, step_level, next_levels, push_open, push_levels, pop_levels, on_levels, next,
  push, pop, depth,
}

module _ (core : Msgcore) where
  open core use {Mgr, Cursor}

  -- The levels that a Push leaves, seen by the calls that follow it.
  push_open-pop_levels :
      (m : Mgr) (c : Cursor) (top : Level core) (rest new : List (Level core))
      → push_open core m c (top ∷ rest) ≡ (ok s_ok, new)
      → pop_levels core new ≡ (ok s_ok, top ∷ rest)
  unfolding push_open pop_levels
  push_open-pop_levels m c top rest new h = ground arith

  push_open-next_levels :
      (m : Mgr) (c : Cursor) (ls new : List (Level core))
      → push_open core m c ls ≡ (ok s_ok, new)
      → ((next_levels core m new).0 ≡ ok s_ok) × (length (next_levels core m new).1 ≡ length ls + 1)
  unfolding push_open next_levels step_level
  push_open-next_levels m c ls new h = ground arith

  push_levels_pushed :
      (m : Mgr) (top : Level core) (rest new : List (Level core))
      → push_levels core m (top ∷ rest) ≡ (ok s_ok, new)
      → push_open core m top.curs (top ∷ rest) ≡ (ok s_ok, new)
  unfolding push_levels
  push_levels_pushed m top rest new h = ground arith

  -- The levels that a successful Push leaves.
  record Pushed (m : Mgr) (ls new : List (Level core)) : Type 0 where
    some_level : 0 < length ls
    popped : pop_levels core new ≡ (ok s_ok, ls)
    stands : (next_levels core m new).0 ≡ ok s_ok
    deeper : length (next_levels core m new).1 ≡ length ls + 1

  push_levels-Pushed :
      (m : Mgr) (ls new : List (Level core))
      → push_levels core m ls ≡ (ok s_ok, new)
      → Pushed m ls new
  push_levels-Pushed m [] new h = unfold push_levels in cc
  push_levels-Pushed m (top ∷ rest) new h =
      let opened = push_levels_pushed m top rest new h in
      let (stands, deeper) = push_open-next_levels m top.curs (top ∷ rest) new opened in
      record {
        some_level = omega arith;
        popped = push_open-pop_levels m top.curs top rest new opened;
        stands = stands;
        deeper = deeper;
      }

  on_levels_open :
      {A : Type 0} (body : Mgr → List (Level core) → Outcome A × List (Level core))
      (w : FacadeWalker core) (m : Mgr)
      → open_store core w.store ≡ ok m
      → on_levels core body w ≡ ((body m w.levels).0, record w { levels = (body m w.levels).1 })
  unfolding on_levels
  on_levels_open body w m o = rw (o, on_levels) refl

  same_levels :
      (w : FacadeWalker core) {r q : Outcome HResult} {ls new : List (Level core)}
      {p : Outcome HResult × FacadeWalker core}
      → p ≡ (r, record w { levels = ls })
      → p ≡ (q, record w { levels = new })
      → ◌≡◌ {A = Outcome HResult × List (Level core)} (r, ls) (q, new)
  same_levels w e h = cc

  -- After a Push over an open store that answers S_OK, Pop gives the walk back as it was before, and
  -- Next answers S_OK and goes to an element one level deeper.
  pub push_lem :
      (w : FacadeWalker core) (m : Mgr) (new : List (Level core))
      → open_store core w.store ≡ ok m
      → push core w ≡ (ok s_ok, record w { levels = new })
      → (pop core (record w { levels = new }) ≡ (ok s_ok, w))
        × ((next core (record w { levels = new })).0 ≡ ok s_ok)
        × (depth core (next core (record w { levels = new })).1 ≡ depth core w + 1)
  unfolding push pop next depth
  push_lem w m new o h =
      let v : FacadeWalker core = record w { levels = new } in
      let pushed =
        push_levels-Pushed m w.levels new
          (same_levels w (on_levels_open (push_levels core) w m o) h) in
      (
        rw (on_levels_open (λ m. pop_levels core) v m o) (rw pushed.popped refl),
        rw (on_levels_open (next_levels core) v m o) pushed.stands,
        rw (on_levels_open (next_levels core) v m o)
            (ground (arith, pushed.deeper, pushed.some_level)),
      )
