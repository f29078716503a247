-- ===== src/Com/Stores/Closed.antt =====
-- `CMsgStore` of com/ComStore.cpp after Close: its methods on a store that it no longer holds.
use msg_facade.Prelude.{
  ℕ, ◌≡◌, refl, inl, inr, Bool, false, Option, none, some, List, [], ◌∷◌, Option-cases, Text,
}
use msg_facade.Prelude.Int.{ℤ}
use msg_facade.Core.{Msgcore}
use msg_facade.Store.{Store}
use msg_facade.Com.{Answer, answered, raised, unending}
use msg_facade.Com.Codes.{c_closed}
use msg_facade.Com.Values.{Variant, Conversions}
use msg_facade.Com.Stores.{
  MsgStore, release_store, on_store, close_store, open_path, save_path, clear_store, rename_root,
}
use msg_facade.Com.Stores.Queries.{
  file_name, root_name_of, is_dirty_store, set_dirty_store, size_of_store, is_valid_store,
}
use msg_facade.Com.Stores.Nodes.{root_of, field_at, path_of}
use msg_facade.Com.Stores.Notices.{
  arm_trigger, disarm_trigger, fire_triggers, set_paging_sink, page_in_at, page_out_at,
  push_registration, pop_registration,
}

module _ (core : Msgcore) (change : Conversions core.Real core.Float)
    (unsigned : Variant core.Real core.Float → Option ℕ) (fuel : ℕ) where
  open core use {Real, Float, Files}

  -- The calls of a client that may change the store, but for CreateNew.
  pub data Call : Type 0 where
    opens saves : Files → Text → Call
    clears closes pushes pops : Call
    renames : Text → Call
    dirties : Bool → Call
    arms disarms fires : ℤ → ℤ → Call
    hooks : Option ℕ → ℕ → Call
    pages_in : Variant Real Float → Call
    pages_out : Variant Real Float → Bool → Call

  unit : {A : Type 0} → Answer A × MsgStore core → Answer (Unit {0}) × MsgStore core
  unit (answered a, st) = (answered tt, st)
  unit (raised hr, st) = (raised hr, st)
  unit (unending, st) = (unending, st)

  -- What a call does, and whether it succeeds.
  unfoldable pub call : Call → MsgStore core → Answer (Unit {0}) × MsgStore core
  unfolding unit
  call (opens files path) st = open_path core files path st
  call (saves files path) st =
      let (done, (files', st')) = save_path core path (files, st) in (done, st')
  call clears st = clear_store core st
  call closes st = close_store core st
  call pushes st = push_registration core st
  call pops st = pop_registration core st
  call (renames name) st = rename_root core name st
  call (dirties dirty) st = set_dirty_store core dirty st
  call (arms mask target) st = arm_trigger core mask target st
  call (disarms mask target) st = disarm_trigger core mask target st
  call (fires mask target) st = unit (fire_triggers core mask target st)
  call (hooks sink thread) st = set_paging_sink core sink thread st
  call (pages_in v) st = unit (page_in_at core change unsigned v st)
  call (pages_out v flush) st = unit (page_out_at core change unsigned v flush st)

  unfoldable pub calls : List Call → MsgStore core → MsgStore core
  calls [] st = st
  calls (c ∷ cs) st = calls cs (call c st).1

  -- The one call that a closed store takes is Close.
  unfoldable pub shut : Call → Answer (Unit {0})
  shut closes = answered tt
  shut c = raised c_closed

  on_store-none :
      {A : Type 0} (f : Store core → MsgStore core → Answer A × MsgStore core) (st : MsgStore core)
      → st.held ≡ none
      → on_store core f st ≡ (raised c_closed, st)
  unfolding on_store
  on_store-none f st h = rw h refl

  call-none : (c : Call) (st : MsgStore core) → st.held ≡ none → call c st ≡ (shut c, st)
  unfolding call shut
  call-none (opens files []) st h = unfold open_path in on_store-none _ st h
  call-none (opens files (u ∷ path)) st h = unfold open_path in on_store-none _ st h
  call-none (saves files path) st h = unfold save_path in rw h refl
  call-none clears st h = unfold clear_store in on_store-none _ st h
  call-none closes st h = unfold close_store release_store in rw h refl
  call-none pushes st h = unfold push_registration in on_store-none _ st h
  call-none pops st h = unfold pop_registration in on_store-none _ st h
  call-none (renames name) st h = unfold rename_root in on_store-none _ st h
  call-none (dirties dirty) st h = unfold set_dirty_store in on_store-none _ st h
  call-none (arms mask target) st h = unfold arm_trigger in on_store-none _ st h
  call-none (disarms mask target) st h = unfold disarm_trigger in on_store-none _ st h
  call-none (fires mask target) st h = unfold fire_triggers in rw (on_store-none _ st h) refl
  call-none (hooks none thread) st h = unfold set_paging_sink in on_store-none _ st h
  call-none (hooks (some sink) thread) st h = unfold set_paging_sink in on_store-none _ st h
  call-none (pages_in v) st h = unfold page_in_at in rw (on_store-none _ st h) refl
  call-none (pages_out v flush) st h = unfold page_out_at in rw (on_store-none _ st h) refl

  calls-none : (cs : List Call) (st : MsgStore core) → st.held ≡ none → calls cs st ≡ st
  unfolding calls
  calls-none [] st h = refl
  calls-none (c ∷ cs) st h = rw (call-none c st h) (calls-none cs st h)

  held-close : (st : MsgStore core) → (close_store core st).1.held ≡ none
  unfolding close_store release_store
  held-close st = elim (Option-cases st.held) [
    | inl e ↦ rw (e, release_store) e
    | inr (s, e) ↦ rw (e, release_store) refl
  ]

  -- After Close, and after any further calls of Open, Save, Close, Clear, RenameRoot, SetDirty, Arm, Disarm,
  -- Fire, SetPagingSink, PageIn, PageOut, PushPaging and PopPaging, nothing has changed; every one of these
  -- but Close is refused with MSGC_E_CLOSED; IsValid is False; and Filename, RootName, Dirty, Size, Root,
  -- FieldAt and PathOf are refused with MSGC_E_CLOSED.
  pub calls-close :
      (st : MsgStore core) (cs : List Call) (c : Call) (v : Variant Real Float) (n : ℤ)
      → (call c (calls cs (close_store core st).1) ≡ (shut c, (close_store core st).1))
        × (is_valid_store core (calls cs (close_store core st).1) ≡ answered false)
        × (root_of core (calls cs (close_store core st).1) ≡ raised c_closed)
        × (field_at core change fuel v (calls cs (close_store core st).1) ≡ raised c_closed)
        × (path_of core fuel n (calls cs (close_store core st).1) ≡ raised c_closed)
        × (file_name core (calls cs (close_store core st).1) ≡ raised c_closed)
        × (root_name_of core (calls cs (close_store core st).1) ≡ raised c_closed)
        × (is_dirty_store core (calls cs (close_store core st).1) ≡ raised c_closed)
        × (size_of_store core (calls cs (close_store core st).1) ≡ raised c_closed)
  unfolding is_valid_store root_of field_at path_of file_name root_name_of is_dirty_store
      size_of_store
  calls-close st cs c v n =
      let shut_now = held-close st in
      rw (calls-none cs (close_store core st).1 shut_now) (
        call-none c _ shut_now,
        rw (shut_now, is_valid_store) refl,
        rw (shut_now, root_of) refl,
        rw (shut_now, field_at) refl,
        rw (shut_now, path_of) refl,
        rw (shut_now, file_name) refl,
        rw (shut_now, root_name_of) refl,
        rw (shut_now, is_dirty_store) refl,
        rw (shut_now, size_of_store) refl,
      )
