-- ===== src/Com/Stores.antt =====
-- `CMsgStore` of com/ComStore.cpp: the store that it holds, from FinalConstruct to FinalRelease, and the
-- methods that open, save and replace it. An out-parameter is given; a NULL string is read as the empty
-- one. The count of mutations is without the wrap of a LONG.
pub mod Queries
pub mod Nodes
pub mod Notices
pub mod Closed
pub mod Stale
pub mod Handed
use msg_facade.Prelude.{
  ℕ, ◌+◌, true, false, ◌||◌, Option, none, some, [], ◌∷◌, ◌==◌, if◌then◌else◌, Text,
}
use msg_facade.Prelude.Int.{ℤ, pos, negsuc}
use msg_facade.HResult.{HResult, e_outofmemory, e_invalidarg, e_file}
use msg_facade.Outcome.{Outcome, ok, fail, diverge, ◌>>=◌}
use msg_facade.Core.{Msgcore}
use msg_facade.Store.{Store}
use msg_facade.Store.Life
use msg_facade.Store.Life.{create, set_events, set_paging, save_store, load_store}
use msg_facade.Library.{Process, abi_version, create_library}
use msg_facade.Library
use msg_facade.Com.{Answer, answered, raised, unending, converted}
use msg_facade.Com.Codes.{code, from_facade, c_closed, c_load, c_save, c_name}
use msg_facade.Com.Collections.{check_name}

-- The adapters m_events and m_paging, as the sinks of the facade's store.
abbrev pub events_adapter : ℕ
events_adapter = 0

abbrev pub paging_adapter : ℕ
paging_adapter = 1

module _ (core : Msgcore) where
  open core use {Files}

  -- `lib`: m_pLib. `apartment`: the thread that has registered the paging sink.
  pub record MsgStore : Type 0 where
    pub lib : Option ℕ
    pub held : Option (Store core)
    pub addr_mode : ℕ
    pub initial_bytes : ℕ
    pub max_bytes : ℕ
    pub mutations : ℕ
    pub paging_sink : Option ℕ
    pub apartment : ℕ

  unfoldable pub bump : MsgStore → MsgStore
  bump st = record st { mutations = st.mutations + 1 }

  unfoldable pub attach_store : Store core → MsgStore → MsgStore
  unfolding bump
  attach_store s st = bump (record st { held = some (set_events core (some events_adapter) s).1 })

  -- What is left of the store that `release_store` lets go: its sinks are cleared, and the reference is
  -- dropped.
  unfoldable pub let_go : Store core → ℕ × Option (Store core)
  let_go s = Life.release core (set_paging core none (set_events core none s).1).1

  unfoldable pub release_store : MsgStore → MsgStore
  unfolding bump
  release_store st = elim st.held [
    | none ↦ st
    | some s ↦ bump (record st { held = none; paging_sink = none; apartment = 0 })
  ]

  unfoldable pub constructed : MsgStore
  constructed = record {
    lib = none;
    held = none;
    addr_mode = 0;
    initial_bytes = 0;
    max_bytes = 0;
    mutations = 0;
    paging_sink = none;
    apartment = 0;
  }

  -- E_UNEXPECTED where there is no library and no failure is told, which the facade does not do.
  with_library : Outcome ℕ × Process → Answer (Unit {0}) × (MsgStore × Process)
  unfolding attach_store
  with_library (fail e, p) = (raised (code e), (constructed, p))
  with_library (diverge, p) = (unending, (constructed, p))
  with_library (ok lib, p) = elim (create core true 0 0 0) [
    | ok s ↦ (answered tt, (attach_store s (record constructed { lib = some lib }), p))
    | fail e ↦ (raised (code e_outofmemory), (constructed, (Library.release_ref lib p).1))
    | diverge ↦ (unending, (record constructed { lib = some lib }, p))
  ]

  -- `thread`: the failure of CreateEvent or of _beginthreadex, if there is one.
  unfoldable pub final_construct : Option ℕ → Process → Answer (Unit {0}) × (MsgStore × Process)
  unfolding with_library
  final_construct (some e) p = (raised e, (constructed, p))
  final_construct none p = with_library (create_library abi_version true p)

  unfoldable pub release_lib : Option ℕ → Process → Process
  release_lib none p = p
  release_lib (some lib) p = (Library.release_ref lib p).1

  unfoldable pub final_release : MsgStore → Process → MsgStore × Process
  unfolding release_lib
  final_release st p = (record (release_store st) { lib = none }, release_lib st.lib p)

  -- A method that wants the store: its body gets the store, and gives the one that the facade leaves.
  unfoldable pub in_held :
      {A : Type 0}
      → (Store core → MsgStore → Answer A × MsgStore)
      → Option (Store core)
      → MsgStore
      → Answer A × MsgStore
  in_held body none st = (raised c_closed, st)
  in_held body (some s) st = body s st

  unfoldable pub on_store :
      {A : Type 0} → (Store core → MsgStore → Answer A × MsgStore) → MsgStore → Answer A × MsgStore
  unfolding in_held
  on_store body st = in_held body st.held st

  abbrev pub with_store : MsgStore → Store core → MsgStore
  with_store st s = record st { held = some s }

  -- The end of a method that changes the store: a change is counted, a failure is converted.
  unfoldable pub bumped : MsgStore → Outcome HResult × Store core → Answer (Unit {0}) × MsgStore
  unfolding bump
  bumped st (ok hr, s) = (answered tt, bump (with_store st s))
  bumped st (fail e, s) = (raised (from_facade (code e)), with_store st s)
  bumped st (diverge, s) = (unending, with_store st s)

  -- The end of a method of which no change is counted.
  unfoldable pub answered_with :
      {A : Type 0} → MsgStore → Outcome A × Store core → Answer A × MsgStore
  answered_with st (r, s) = (converted r, with_store st s)

  -- MSGF_E_FILE is told apart, and has the number that FromFacade gives it.
  loaded : MsgStore → Outcome HResult × Store core → Answer (Unit {0}) × MsgStore
  unfolding bumped
  loaded st (fail e, s) =
      (raised (if code e == code e_file then c_load else from_facade (code e)), with_store st s)
  loaded st r = bumped st r

  unfoldable pub open_path : Files → Text → MsgStore → Answer (Unit {0}) × MsgStore
  unfolding on_store loaded
  open_path files [] = on_store λ s st. (raised c_load, st)
  open_path files (c ∷ path) =
      on_store λ s st. loaded st (load_store core files (some (c ∷ path)) s)

  saved : MsgStore → Outcome HResult × (Files × Store core) → Answer (Unit {0}) × (Files × MsgStore)
  saved st (ok hr, (files, s)) = (answered tt, (files, with_store st s))
  saved st (fail e, (files, s)) = (raised c_save, (files, with_store st s))
  saved st (diverge, (files, s)) = (unending, (files, with_store st s))

  -- A NULL name and an empty one are the name that the store has.
  unfoldable pub named_path : Text → Option Text
  named_path [] = none
  named_path (c ∷ path) = some (c ∷ path)

  unfoldable pub save_path : Text → Files × MsgStore → Answer (Unit {0}) × (Files × MsgStore)
  unfolding saved named_path
  save_path path (files, st) = elim st.held [
    | none ↦ (raised c_closed, (files, st))
    | some s ↦ saved st (save_store core (named_path path) false (files, s))
  ]

  unfoldable pub close_store : MsgStore → Answer (Unit {0}) × MsgStore
  unfolding release_store
  close_store st = (answered tt, release_store st)

  unfoldable pub clear_store : MsgStore → Answer (Unit {0}) × MsgStore
  unfolding on_store
  clear_store = on_store λ s st. bumped st (Life.clear core s)

  unfoldable pub rename_root : Text → MsgStore → Answer (Unit {0}) × MsgStore
  unfolding on_store
  rename_root name = on_store λ s st.
      if check_name name then bumped st (Life.rename core (some name) s) else (raised c_name, st)

  -- MSGF_ADDR_16, MSGF_ADDR_32 or MSGF_ADDR_64, and two numbers that are not negative.
  unfoldable pub sizes : ℤ → ℤ → ℤ → Option (ℕ × (ℕ × ℕ))
  sizes (pos addr) (pos initial) (pos max) =
      if addr == 1 || (addr == 2 || addr == 3) then some (addr, (initial, max)) else none
  sizes _ _ _ = none

  -- The old store goes only once the new one is there.
  replaced : MsgStore → ℕ × (ℕ × ℕ) → Outcome (Store core) → Answer (Unit {0}) × MsgStore
  replaced st n (fail e) = (raised (from_facade (code e)), st)
  replaced st n diverge = (unending, st)
  replaced st (addr, (initial, max)) (ok s) = (
    answered tt,
    attach_store s
        (record (release_store st) { addr_mode = addr; initial_bytes = initial; max_bytes = max }),
  )

  created : MsgStore → Option (ℕ × (ℕ × ℕ)) → Answer (Unit {0}) × MsgStore
  unfolding replaced
  created st none = (raised (code e_invalidarg), st)
  created st (some (addr, (initial, max))) =
      replaced st (addr, (initial, max)) (create core true addr initial max)

  unfoldable pub in_library :
      (MsgStore → Answer (Unit {0}) × MsgStore) → Option ℕ → MsgStore → Answer (Unit {0}) × MsgStore
  in_library f none st = (raised c_closed, st)
  in_library f (some lib) st = f st

  unfoldable pub create_new : ℤ → ℤ → ℤ → MsgStore → Answer (Unit {0}) × MsgStore
  unfolding created sizes in_library
  create_new addr initial max st = in_library (λ q. created q (sizes addr initial max)) st.lib st
