-- ===== src/Store/Life.antt =====
-- The life of a store in src/FacadeStore.cpp: it is created or opened, saved, loaded, cleared, renamed
-- and given sinks, and released. A method gives the store that it leaves, also where it fails. A raise
-- that the source swallows, `try { ... } catch ( ... ) { }`, is `quietly`.
pub mod Closed
pub mod Pushed
use msg_facade.Prelude.{
  ℕ, ◌+◌, ◌-◌, Bool, true, false, not, ◌&&◌, ◌||◌, Option, none, some, [], ◌∷◌, ltb, ◌==◌,
  if◌then◌else◌, Text,
}
use msg_facade.HResult.{HResult, s_ok, e_pointer, e_invalidarg, e_core, e_file, e_name, e_state}
use msg_facade.Outcome
use msg_facade.Outcome.{Outcome, ok, fail, diverge, attempt, caught, ◌>>=◌, ◌>>◌, guard}
use msg_facade.Route.{is_usable_name}
use msg_facade.Core.{Msgcore}
use msg_facade.Store.{Store, open_store}

abbrev pub is_some {ℓ} : {A : Type ℓ} → Option A → Bool
is_some none = false
is_some (some a) = true

abbrev pub addr_16 : ℕ
addr_16 = 1

abbrev pub addr_32 : ℕ
addr_32 = 2

abbrev pub addr_64 : ℕ
addr_64 = 3

abbrev pub min_initial : ℕ
min_initial = 512

module _ (core : Msgcore) where
  open core use {
    Mgr, Files, valid_itemname, new_default, new_sized, addr_default, file_valid, open_file,
    mgr_valid, save, load, set_dirty, set_root_name, trigger_sink, page_registration,
    registration_push, registration_pop,
  }

  -- `new P2PmsgMgr`: the default constructor for three zeros, else the sized one.
  unfoldable pub new_manager : ℕ → ℕ → ℕ → Option Mgr
  new_manager addr initial max =
      if addr == 0 && (initial == 0 && max == 0)
      then new_default
      else new_sized (if addr == 0 then addr_default else addr)
          (if initial == 0 then 2024 else initial) max

  unfoldable pub raise_initial : ℕ → ℕ
  raise_initial initial =
      if not (initial == 0) && ltb initial min_initial then min_initial else initial

  unfoldable pub create : Bool → ℕ → ℕ → ℕ → Outcome (Store core)
  create out addr initial max = do
    guard out e_pointer
    guard (addr == 0 || (addr == addr_16 || (addr == addr_32 || addr == addr_64))) e_invalidarg
    m ← attempt (new_manager addr (raise_initial initial) max)
    ok (record {
      mgr = some m;
      addr = addr;
      initial = raise_initial initial;
      max = max;
      file = [];
      refs = 1;
      closed = false;
      events = none;
      paging = none;
      pushed = 0;
    })

  -- A NULL filename and an empty one are refused alike.
  unfoldable pub given : Option Text → Option Text
  given none = none
  given (some []) = none
  given (some (c ∷ name)) = some (c ∷ name)

  unfoldable pub open_named : Files → Text → Outcome (Store core)
  open_named files name = do
    valid ← caught e_file (file_valid files name)
    guard valid e_file
    m ← caught e_file (open_file files name)
    alive ← caught e_file (mgr_valid m)
    guard alive e_file
    ok (record {
      mgr = some m;
      addr = 0;
      initial = 0;
      max = 0;
      file = name;
      refs = 1;
      closed = false;
      events = none;
      paging = none;
      pushed = 0;
    })

  unfoldable pub open_existing : Files → Option Text → Bool → Outcome (Store core)
  open_existing files name out =
      if not out
      then fail e_pointer
      else elim (given name) [ none ↦ fail e_invalidarg | some n ↦ open_named files n ]

  abbrev pub with_mgr : Store core → Mgr → Store core
  with_mgr s m = record s { mgr = some m }

  abbrev pub quietly : (Mgr → Option (Unit {0}) × Mgr) → Mgr → Mgr
  quietly f m = (f m).1

  -- Both sinks of the core are taken off the manager.
  unfoldable pub unhook : Mgr → Mgr
  unhook m = quietly (page_registration false) (quietly (trigger_sink false) m)

  -- A method that the guard opens: the body gets the manager.
  unfoldable pub in_store :
      {A : Type 0}
      → (Mgr → Store core → Outcome A × Store core)
      → Store core
      → Outcome A × Store core
  in_store body s = elim (open_store core s) [
    | ok m ↦ body m s
    | fail e ↦ (fail e, s)
    | diverge ↦ (diverge, s)
  ]

  unfoldable pub close : Store core → Store core
  close s = if s.closed then s else record s {
    closed = true;
    events = none;
    paging = none;
    mgr = elim s.mgr [ none ↦ none | some m ↦ some (unhook m) ];
  }

  -- `Release`: the count that is left, and the store unless that was the last reference.
  unfoldable pub release_ref : Store core → ℕ × Option (Store core)
  release_ref s =
      let left = s.refs - 1 in (left, if left == 0 then none else some (record s { refs = left }))

  unfoldable pub release : Store core → ℕ × Option (Store core)
  release s = release_ref (close s)

  unfoldable pub add_ref : Store core → Store core
  add_ref s = record s { refs = s.refs + 1 }

  -- A raise in `SetDirty` is swallowed.
  unfoldable pub mark_dirty : Store core → Store core
  mark_dirty s = elim s.mgr [ none ↦ s | some m ↦ with_mgr s (quietly (set_dirty true) m) ]

  -- The target of a save: the name that is given, else the store's own, else what was given.
  unfoldable pub save_target : Option Text → Text → Option Text
  save_target name own = elim (given name) [
    | some n ↦ some n
    | none ↦ elim (given (some own)) [ some n ↦ some n | none ↦ name ]
  ]

  save_body : Option Text → Bool → Files → Mgr → Store core → Outcome HResult × (Files × Store core)
  save_body name defragment files m s =
      let target = save_target name s.file in
      let (done, (files', m')) = save files target defragment m in
      let s' = with_mgr s m' in
      elim done [
        | none ↦ (fail e_file, (files', s'))
        | some false ↦ (fail e_file, (files', s'))
        | some true ↦
            (ok s_ok, (files', elim (given target) [ none ↦ s' | some n ↦ record s' { file = n } ]))
      ]

  unfoldable pub save_store :
      Option Text → Bool → Files × Store core → Outcome HResult × (Files × Store core)
  unfolding save_body
  save_store name defragment (files, s) = elim (open_store core s) [
    | ok m ↦ save_body name defragment files m s
    | fail e ↦ (fail e, (files, s))
    | diverge ↦ (diverge, (files, s))
  ]

  load_body : Files → Option Text → Mgr → Store core → Outcome HResult × Store core
  load_body files name m s = elim (given name) [
    | none ↦ (fail e_invalidarg, s)
    | some n ↦
        let (done, m') = load files n m in
        elim done [
          | some true ↦ (ok s_ok, record (with_mgr s m') { file = n })
          | _ ↦ (fail e_file, with_mgr s m')
        ]
  ]

  unfoldable pub load_store : Files → Option Text → Store core → Outcome HResult × Store core
  unfolding load_body
  load_store files name = in_store (load_body files name)

  -- One of the two calls that hook the sinks onto a manager, made only where there is a sink.
  abbrev pub hook : Bool → (Mgr → Option (Unit {0}) × Mgr) → Mgr → Option (Unit {0}) × Mgr
  hook wanted f m = if wanted then f m else (some tt, m)

  unfoldable pub hook_sinks : Store core → Mgr → Outcome HResult × Mgr
  hook_sinks s m =
      let (r, m') = hook (is_some s.events) (trigger_sink true) m in
      elim r [
        | none ↦ (fail e_core, m')
        | some _ ↦
            let (r', m'') = hook (is_some s.paging) (page_registration true) m' in
            elim r' [ none ↦ (fail e_core, m'') | some _ ↦ (ok s_ok, m'') ]
      ]

  -- `Clear`: the manager is replaced, and the old one goes only once the new one is there.
  clear_body : Mgr → Store core → Outcome HResult × Store core
  clear_body m s = elim (new_manager s.addr s.initial s.max) [
    | none ↦ (fail e_core, s)
    | some new ↦
        let (r, hooked) = hook_sinks s new in (r, record s { mgr = some hooked; pushed = 0 })
  ]

  unfoldable pub clear : Store core → Outcome HResult × Store core
  unfolding clear_body
  clear = in_store clear_body

  rename_body : Option Text → Mgr → Store core → Outcome HResult × Store core
  rename_body name m s =
      if not (is_usable_name valid_itemname name) then (fail e_name, s) else elim name [
        | none ↦ (fail e_name, s)
        | some n ↦
            let (r, m') = set_root_name n m in
            elim r [
              | none ↦ (fail e_core, with_mgr s m')
              | some _ ↦ (ok s_ok, mark_dirty (with_mgr s m'))
            ]
      ]

  unfoldable pub rename : Option Text → Store core → Outcome HResult × Store core
  unfolding rename_body
  rename name = in_store (rename_body name)

  unfoldable pub set_events : Option ℕ → Store core → Outcome HResult × Store core
  set_events sink = in_store λ m s.
      let (r, m') = trigger_sink (is_some sink) m in
      (caught e_core r >>= λ _. ok s_ok, record (with_mgr s m') { events = sink })

  unfoldable pub set_paging : Option ℕ → Store core → Outcome HResult × Store core
  set_paging sink = in_store λ m s.
      let (r, m') = page_registration (is_some sink) m in
      (caught e_core r >>= λ _. ok s_ok, record (with_mgr s m') { paging = sink })

  push_body : Mgr → Store core → Outcome HResult × Store core
  push_body m s =
      if not (s.pushed == 0)
      then (fail e_state, s)
      else if not (is_some s.paging)
      then (fail e_state, s)
      else let (done, m') = registration_push m in
        let (r, m'') = page_registration false m' in
        elim done [
          | some true ↦ elim r [
            | none ↦ (fail e_core, with_mgr s m'')
            | some _ ↦ (ok s_ok, record (with_mgr s m'') { pushed = s.pushed + 1 })
          ]
          | _ ↦ (fail e_core, with_mgr s m')
        ]

  unfoldable pub push_paging : Store core → Outcome HResult × Store core
  unfolding push_body
  push_paging = in_store push_body

  pop_body : Mgr → Store core → Outcome HResult × Store core
  pop_body m s =
      if s.pushed == 0
      then (fail e_state, s)
      else let (done, m') = registration_pop m in
        elim done [
          | none ↦ (fail e_core, with_mgr s m')
          | some b ↦
              (if b then ok s_ok else fail e_core, record (with_mgr s m') { pushed = s.pushed - 1 })
        ]

  unfoldable pub pop_paging : Store core → Outcome HResult × Store core
  unfolding pop_body
  pop_paging = in_store pop_body
