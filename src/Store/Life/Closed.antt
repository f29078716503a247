-- ===== src/Store/Life/Closed.antt =====
-- The methods of a store as one type, and what they do once the store is released.
use msg_facade.Prelude.{ℕ, ◌≡◌, refl, ap, Bool, true, Option, List, [], ◌∷◌, arith, Text, All}
use msg_facade.HResult.{HResult, s_ok, e_closed}
use msg_facade.Outcome.{Outcome, ok, fail, ◌>>=◌}
use msg_facade.Core.{Msgcore}
use msg_facade.Store.{Store, open_store}
use msg_facade.Store.Queries.{get_filename, get_rootname, get_dirty, put_dirty, get_size, get_valid}
use msg_facade.Store.Tree.{get_root, node_from_path, node_from_pos}
use msg_facade.Store.Triggers.{arm, disarm, fire, page_in, page_out}
use msg_facade.Store.Life.{
  in_store, close, save_store, load_store, clear, rename, set_events, set_paging, push_paging,
  pop_paging,
}

pub data Method : Type 0 where
  m_save : Option Text → Bool → Method
  m_load : Option Text → Method
  m_clear : Method
  m_rename : Option Text → Method
  m_events : Option ℕ → Method
  m_paging : Option ℕ → Method
  m_push : Method
  m_pop : Method
  m_dirty : Bool → Method
  m_arm : ℕ → ℕ → Method
  m_disarm : ℕ → ℕ → Method
  m_fire : ℕ → ℕ → Method
  m_page_in : ℕ → Method
  m_page_out : ℕ → Bool → Method

-- The HRESULT of a method that has an out-parameter as well, or none to tell of but S_OK.
abbrev pub coded : {A S : Type 0} → Outcome A × S → Outcome HResult × S
coded (r, s) = (r >>= (λ _. ok s_ok), s)

module _ (core : Msgcore) where
  unfoldable pub call : core.Files → Method → Store core → Outcome HResult × Store core
  call files (m_save name d) s =
      let (r, (files', s')) = save_store core name d (files, s) in (r, s')
  call files (m_load name) s = load_store core files name s
  call files m_clear s = clear core s
  call files (m_rename name) s = rename core name s
  call files (m_events sink) s = set_events core sink s
  call files (m_paging sink) s = set_paging core sink s
  call files m_push s = push_paging core s
  call files m_pop s = pop_paging core s
  call files (m_dirty d) s = coded (put_dirty core d s)
  call files (m_arm mask target) s = coded (arm core mask target s)
  call files (m_disarm mask target) s = coded (disarm core mask target s)
  call files (m_fire mask target) s = coded (fire core mask target s)
  call files (m_page_in target) s = page_in core target s
  call files (m_page_out target flush) s = page_out core target flush s

  -- A client that calls methods one after the other: the answers, and the store at the end. Each call
  -- finds the files as some other program has left them.
  unfoldable pub run : List (core.Files × Method) → Store core → List (Outcome HResult) × Store core
  run [] s = ([], s)
  run ((files, m) ∷ ms) s =
      let (r, s') = call files m s in let (rs, s'') = run ms s' in (r ∷ rs, s'')

  open_store_closed : (s : Store core) → s.closed ≡ true → open_store core s ≡ fail e_closed
  unfolding open_store
  open_store_closed s h = rw h refl

  in_store_closed :
      {A : Type 0} (body : core.Mgr → Store core → Outcome A × Store core) (s : Store core)
      → s.closed ≡ true
      → in_store core body s ≡ (fail e_closed, s)
  unfolding in_store
  in_store_closed body s h = rw (open_store_closed s h, in_store) refl

  call_closed :
      (files : core.Files) (m : Method) (s : Store core)
      → s.closed ≡ true
      → call files m s ≡ (fail e_closed, s)
  unfolding call load_store clear rename set_events set_paging push_paging pop_paging save_store
  call_closed files (m_save name d) s h = rw (open_store_closed s h, save_store) refl
  call_closed files (m_load name) s h = in_store_closed _ s h
  call_closed files m_clear s h = in_store_closed _ s h
  call_closed files (m_rename name) s h = in_store_closed _ s h
  call_closed files (m_events sink) s h = in_store_closed _ s h
  call_closed files (m_paging sink) s h = in_store_closed _ s h
  call_closed files m_push s h = in_store_closed _ s h
  call_closed files m_pop s h = in_store_closed _ s h
  call_closed files (m_dirty d) s h = unfold put_dirty in ap coded (in_store_closed _ s h)
  call_closed files (m_arm mask target) s h = unfold arm in ap coded (in_store_closed _ s h)
  call_closed files (m_disarm mask target) s h = unfold disarm in ap coded (in_store_closed _ s h)
  call_closed files (m_fire mask target) s h = unfold fire in ap coded (in_store_closed _ s h)
  call_closed files (m_page_in target) s h = unfold page_in in in_store_closed _ s h
  call_closed files (m_page_out target flush) s h = unfold page_out in in_store_closed _ s h

  pub close-closed : (s : Store core) → (close core s).closed ≡ true
  unfolding close
  close-closed s = ground arith

  pub run_closed :
      (ms : List (core.Files × Method)) (s : Store core)
      → s.closed ≡ true
      → ((run ms s).1 ≡ s) × All (λ r. r ≡ fail e_closed) (run ms s).0
  unfolding run
  run_closed [] s h = (refl, tt)
  run_closed ((files, m) ∷ ms) s h =
      rw (call_closed files m s h, run) ((run_closed ms s h).0, (refl, (run_closed ms s h).1))

  -- What a closed store answers to the methods that only read it.
  pub record IsShut (fuel : ℕ) (s : Store core) (buf : Option (List ℕ)) (cch : Option ℕ)
      (path : Option Text) (target : ℕ) (out : Bool) : Type 0 where
    pub filename : get_filename core s buf cch ≡ record { hr = e_closed; buf = buf; size = cch }
    pub rootname : get_rootname core s buf cch ≡ record { hr = e_closed; buf = buf; size = cch }
    pub dirty : get_dirty core s out ≡ fail e_closed
    pub size : get_size core s out ≡ fail e_closed
    pub valid : get_valid core s out ≡ fail e_closed
    pub top : get_root core s out ≡ fail e_closed
    pub at_path : node_from_path core s path out ≡ fail e_closed
    pub at_pos : node_from_pos core fuel s target out ≡ fail e_closed

  closed-IsShut :
      (fuel : ℕ) (s : Store core) (buf : Option (List ℕ)) (cch : Option ℕ) (path : Option Text)
      (target : ℕ) (out : Bool)
      → s.closed ≡ true
      → IsShut fuel s buf cch path target out
  unfolding get_filename get_rootname get_dirty get_size get_valid get_root node_from_path
      node_from_pos
  closed-IsShut fuel s buf cch path target out h =
      let e = open_store_closed s h in
      record {
        filename = rw e refl;
        rootname = rw e refl;
        dirty = rw e refl;
        size = rw e refl;
        valid = rw e refl;
        top = rw e refl;
        at_path = rw e refl;
        at_pos = rw e refl;
      }

  -- After Release every sequence of Save, Load, Clear, Rename, SetEvents, SetPaging, PushPaging, PopPaging,
  -- SetDirty, Arm, Disarm, Fire, PageIn and PageOut leaves the store as it is, and each of the calls
  -- answers MSGF_E_CLOSED. GetFilename, GetRootname, IsDirty, GetSize, IsValid, GetRoot, NodeFromPath and
  -- NodeFromPos then answer MSGF_E_CLOSED, too, and leave a buffer and its size alone.
  pub run-close :
      (s : Store core) (ms : List (core.Files × Method)) (fuel : ℕ) (buf : Option (List ℕ))
      (cch : Option ℕ) (path : Option Text) (target : ℕ) (out : Bool)
      → ((run ms (close core s)).1 ≡ close core s)
        × All (λ r. r ≡ fail e_closed) (run ms (close core s)).0
        × IsShut fuel (run ms (close core s)).1 buf cch path target out
  run-close s ms fuel buf cch path target out =
      let (same, all) = run_closed ms (close core s) (close-closed s) in
      (
        same,
        all,
        rw same (closed-IsShut fuel (close core s) buf cch path target out (close-closed s)),
      )
