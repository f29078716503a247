-- ===== src/Com/Stores/Stale.antt =====
-- The count of mutations of `CMsgStore`, com/ComStore.cpp, by which a cursor knows that it is stale.
use msg_facade.Prelude.{
  ℕ, suc, ◌≤◌, ◌≡◌, ◌≢◌, inl, inr, true, Option, none, some, [], ◌∷◌, arith, Bool-cases,
  Option-cases, Text,
}
use msg_facade.Prelude.Int.{ℤ}
use msg_facade.HResult.{HResult}
use msg_facade.Outcome.{Outcome, ok, fail, diverge}
use msg_facade.Core.{Msgcore}
use msg_facade.Store.{Store}
use msg_facade.Store.Life.{load_store, create}
use msg_facade.Com.{Answer, answered}
use msg_facade.Com.Collections.{check_name}
use msg_facade.Com.Cursor.{ComCursor}
use msg_facade.Com.Stores.{
  MsgStore, bump, bumped, loaded, attach_store, release_store, in_held, on_store, open_path,
  clear_store, rename_root, sizes, replaced, created, in_library, create_new,
}

module _ (core : Msgcore) where
  -- Where a method has succeeded, the count has grown.
  abbrev IsCounted : MsgStore core → Answer (Unit {0}) × MsgStore core → Type 0
  IsCounted st (r, st') = r ≡ answered tt → suc st.mutations ≤ st'.mutations

  -- The cursor is not taken for current by Bind, which compares the two numbers, where the method has
  -- succeeded.
  abbrev pub IsStaleAfter : ComCursor core → Answer (Unit {0}) × MsgStore core → Type 0
  IsStaleAfter c (r, st') = r ≡ answered tt → st'.mutations ≢ c.seq

  in_held-IsCounted :
      (f : Store core → MsgStore core → Answer (Unit {0}) × MsgStore core) (o : Option (Store core))
      (st : MsgStore core)
      → ((s : Store core) → IsCounted st (f s st))
      → IsCounted st (in_held core f o st)
  unfolding in_held
  in_held-IsCounted f none st h = λ q. cc
  in_held-IsCounted f (some s) st h = h s

  on_store-IsCounted :
      (f : Store core → MsgStore core → Answer (Unit {0}) × MsgStore core) (st : MsgStore core)
      → ((s : Store core) → IsCounted st (f s st))
      → IsCounted st (on_store core f st)
  unfolding on_store
  on_store-IsCounted f st = in_held-IsCounted f st.held st

  bumped-IsCounted :
      (st : MsgStore core) (r : Outcome HResult × Store core) → IsCounted st (bumped core st r)
  unfolding bumped bump
  bumped-IsCounted st (ok hr, s) = λ q. omega arith
  bumped-IsCounted st (fail e, s) = λ q. cc
  bumped-IsCounted st (diverge, s) = λ q. cc

  loaded-IsCounted :
      (st : MsgStore core) (r : Outcome HResult × Store core) → IsCounted st (loaded core st r)
  unfolding loaded
  loaded-IsCounted st (ok hr, s) = bumped-IsCounted st (ok hr, s)
  loaded-IsCounted st (fail e, s) = λ q. cc
  loaded-IsCounted st (diverge, s) = bumped-IsCounted st (diverge, s)

  open_path-IsCounted :
      (files : core.Files) (path : Text) (st : MsgStore core)
      → IsCounted st (open_path core files path st)
  unfolding open_path
  open_path-IsCounted files [] st = on_store-IsCounted _ st (λ s q. cc)
  open_path-IsCounted files (c ∷ path) st =
      on_store-IsCounted _ st (λ s. loaded-IsCounted st (load_store core files (some (c ∷ path)) s))

  clear-IsCounted : (st : MsgStore core) → IsCounted st (clear_store core st)
  unfolding clear_store
  clear-IsCounted st = on_store-IsCounted _ st (λ s. bumped-IsCounted st _)

  rename-IsCounted : (name : Text) (st : MsgStore core) → IsCounted st (rename_root core name st)
  unfolding rename_root
  rename-IsCounted name st = elim (Bool-cases (check_name name)) [
    | inl good ↦ rw good (on_store-IsCounted _ st (λ s. bumped-IsCounted st _))
    | inr bad ↦ rw bad (on_store-IsCounted _ st (λ s q. cc))
  ]

  mutations-release_store : (st : MsgStore core) → st.mutations ≤ (release_store core st).mutations
  unfolding release_store bump
  mutations-release_store st = elim (Option-cases st.held) [
    | inl e ↦ rw e (omega arith)
    | inr (s, e) ↦ rw e (omega arith)
  ]

  replaced-IsCounted :
      (st : MsgStore core) (n : ℕ × (ℕ × ℕ)) (r : Outcome (Store core))
      → IsCounted st (replaced core st n r)
  unfolding replaced attach_store bump
  replaced-IsCounted st n (fail e) = λ q. cc
  replaced-IsCounted st n diverge = λ q. cc
  replaced-IsCounted st (addr, (initial, max)) (ok s) =
      λ q. omega (arith, mutations-release_store st)

  created-IsCounted :
      (st : MsgStore core) (n : Option (ℕ × (ℕ × ℕ))) → IsCounted st (created core st n)
  unfolding created
  created-IsCounted st none = λ q. cc
  created-IsCounted st (some (addr, (initial, max))) =
      replaced-IsCounted st (addr, (initial, max)) (create core true addr initial max)

  in_library-IsCounted :
      (f : MsgStore core → Answer (Unit {0}) × MsgStore core) (lib : Option ℕ) (st : MsgStore core)
      → IsCounted st (f st)
      → IsCounted st (in_library core f lib st)
  unfolding in_library
  in_library-IsCounted f none st h = λ q. cc
  in_library-IsCounted f (some lib) st h = h

  create_new-IsCounted :
      (addr initial max : ℤ) (st : MsgStore core)
      → IsCounted st (create_new core addr initial max st)
  unfolding create_new
  create_new-IsCounted addr initial max st =
      in_library-IsCounted _ st.lib st (created-IsCounted st (sizes core addr initial max))

  -- A cursor of the COM layer that was current is stale after each Open, Clear, RenameRoot or CreateNew
  -- that succeeds, whatever the store was.
  pub mutations-grow :
      (st : MsgStore core) (c : ComCursor core) (files : core.Files) (path : Text)
      (addr initial max : ℤ)
      → c.seq ≤ st.mutations
      → IsStaleAfter c (open_path core files path st)
        × IsStaleAfter c (clear_store core st)
        × IsStaleAfter c (rename_root core path st)
        × IsStaleAfter c (create_new core addr initial max st)
  mutations-grow st c files path addr initial max h = (
    grown (open_path core files path st) (open_path-IsCounted files path st),
    grown (clear_store core st) (clear-IsCounted st),
    grown (rename_root core path st) (rename-IsCounted path st),
    grown (create_new core addr initial max st) (create_new-IsCounted addr initial max st),
  )
    where
      grown : (p : Answer (Unit {0}) × MsgStore core) → IsCounted st p → IsStaleAfter c p
      grown p k q e = absurd (omega (arith, k q, e, h))
