-- ===== src/Com/Cursor/Rebind.antt =====
-- Where a cursor of the COM layer stands after `Bind` of com/ComCursor.cpp has built it again.
use msg_facade.Prelude.{
  ℕ, ◌^◌, ◌<◌, ◌≡◌, refl, ◌∙◌, ◌≢◌, inl, inr, some, arith, ltb, ◌==◌, if◌then◌else◌, ne→==_false,
  Bool-cases,
}
use msg_facade.Prelude.Int.{pos}
use msg_facade.HResult.{s_ok}
use msg_facade.Outcome.{ok}
use msg_facade.Types.{to_signed}
use msg_facade.Core.{Msgcore}
use msg_facade.Store.{Store, open_store}
use msg_facade.Cursor.{FacadeCursor, goto_at, goto_at_body}
use msg_facade.Cursor.Moves.{Positions, guarded_open, item_cases, goto_at_past}
use msg_facade.Node.Restructure.{open_cursor}
use msg_facade.Com.{answered}
use msg_facade.Com.Cursor.{ComStore, ComCursor, sought, bind}

module _ (core : Msgcore) (m : core.Mgr) (p : Positions core m) where
  open p use {size, index}

  -- A cursor that is stale in an open store, whose collection can still be opened; a new cursor of the
  -- core stands on the first element.
  pub record IsStale (st : ComStore core) (c : ComCursor core) (s : Store core)
      (f : FacadeCursor core) : Type 0 where
    pub held : st.held ≡ some s
    pub old : st.mutations ≢ c.seq
    pub reopened : open_cursor core s c.owner c.scope ≡ ok f
    pub opened : open_store core f.store ≡ ok m
    pub first : index f.curs ≡ 0

  goto_at_body_hits :
      (c : core.Cursor) (i : ℕ)
      → i < size c
      → goto_at_body core i m c ≡ (ok s_ok, (core.goto_index m c (pos i)).1)
  unfolding goto_at_body
  goto_at_body_hits c i less =
      let (was, it) = item_cases core m p c in
      let (hit, _, _) = p.goto_is c i less in
      let e : to_signed (2 ^ 32) i ≡ pos i = unfold to_signed in ground (arith, p.fits c) in
      ground (arith, it, p.count_is c, hit, e)

  goto_at_hits :
      (f : FacadeCursor core) (i : ℕ)
      → open_store core f.store ≡ ok m
      → i < size f.curs
      → (index (goto_at core f i).1.curs ≡ i) × (size (goto_at core f i).1.curs ≡ size f.curs)
  unfolding goto_at
  goto_at_hits f i o less =
      let (_, there, same) = p.goto_is f.curs i less in
      rw (guarded_open core m p f (goto_at_body core i) o)
        (rw (goto_at_body_hits f.curs i less) (there, same))

  sought_at :
      (f : FacadeCursor core) (i : ℕ)
      → open_store core f.store ≡ ok m
      → index f.curs ≡ 0
      → i < 2 ^ 31
      → (index (sought core i f).curs ≡ (if ltb i (size f.curs) then i else 0))
        × (size (sought core i f).curs ≡ size f.curs)
  unfolding sought
  sought_at f i opened first small = elim (Bool-cases (ltb i (size f.curs))) [
    | inl less ↦ elim (Bool-cases (i == 0)) [
      | inl zeroth ↦ rw (zeroth, sought) (rw (less, sought) (ground (arith, first), refl))
      | inr later ↦ rw (later, sought) (rw (less, sought) (goto_at_hits f i opened (ground arith)))
    ]
    | inr past ↦ elim (Bool-cases (i == 0)) [
      | inl zeroth ↦ rw (zeroth, sought) (rw (past, sought) (first, refl))
      | inr later ↦
          let (_, same, kept) = goto_at_past core m p f i opened (ground arith) small in
          rw (later, sought) (rw (past, sought) (same ∙ first, kept))
    ]
  ]

  bind_stale :
      (st : ComStore core) (c : ComCursor core) (s : Store core) (f : FacadeCursor core)
      → IsStale st c s f
      → bind core st c
        ≡ (answered tt, record c { curs = (sought core c.index f).curs; seq = st.mutations })
  unfolding bind
  bind_stale st c s f h =
      rw (h.held, ne→==_false st.mutations c.seq h.old) (rw (h.reopened, bind) refl)

  -- Over a core whose cursors behave as documented, for a cursor that is stale in an open store,
  -- whose collection can be opened again and whose old index is below 2^31: after Bind it is current,
  -- it is over the collection as it is now, and stands at its old index, if that has an element still;
  -- otherwise it stands at index 0, which is the end only of a collection that has become empty.
  pub bind_lem :
      (st : ComStore core) (c : ComCursor core) (s : Store core) (f : FacadeCursor core)
      → IsStale st c s f
      → c.index < 2 ^ 31
      → ((bind core st c).0 ≡ answered tt)
        × ((bind core st c).1.seq ≡ st.mutations)
        × (index (bind core st c).1.curs ≡ (if ltb c.index (size f.curs) then c.index else 0))
        × (size (bind core st c).1.curs ≡ size f.curs)
  bind_lem st c s f h small =
      let (there, kept) = sought_at f c.index h.opened h.first small in
      rw (bind_stale st c s f h) (refl, refl, there, kept)
