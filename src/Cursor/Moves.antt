-- ===== src/Cursor/Moves.antt =====
-- Moving a cursor, over what the core's cursors are documented to do.
use msg_facade.Prelude.{
  ℕ, suc, ◌-◌, ◌^◌, ◌≤◌, ◌<◌, ◌≡◌, refl, ◌∙◌, inl, inr, Bool, true, false, some, arith, ltb, leb,
  ◌==◌, if◌then◌else◌, Bool-cases, Text,
}
use msg_facade.Prelude.Int.{ℤ, pos}
use msg_facade.HResult.{HResult, s_ok, s_false, e_range, e_no_item}
use msg_facade.Outcome.{Outcome, ok, fail}
use msg_facade.Types.{to_signed}
use msg_facade.CopyOut.{copy_out}
use msg_facade.Core.{Msgcore}
use msg_facade.Store.{open_store}
use msg_facade.Store.Search.{curs_at_end}
use msg_facade.Outcome.Act.{Act}
use msg_facade.Cursor.{
  guarded, at_end, is_end, get_name, next_body, goto_named_body, goto_at_body, FacadeCursor, next,
  back_to, goto_named, goto_at,
}

-- The documented behaviour of P3PmsgCurs over an unchanged manager: a cursor has a size and stands on
-- an index below it, or off the end. Off the end `Item` is INT_MAX - 1, an advance there is not used,
-- a move to an index off the end ends off the end, and a failed move to a name leaves any index.
pub record Positions (core : Msgcore) (m : core.Mgr) : Type 0 where
  pub size : core.Cursor → ℕ
  pub index : core.Cursor → ℕ
  pub fits : (c : core.Cursor) → (index c ≤ size c) × (size c < 2 ^ 31 - 1)
  pub count_is : (c : core.Cursor) → core.count m c ≡ some (pos (size c))
  pub item_is : (c : core.Cursor) → index c < size c → core.item m c ≡ some (pos (index c))
  pub item_off : (c : core.Cursor) → index c ≡ size c → core.item m c ≡ some (pos (2 ^ 31 - 2))
  pub seek_is :
      (c : core.Cursor)
      → ((core.seek m c).0 ≡ some tt)
        × (index (core.seek m c).1 ≡ 0)
        × (size (core.seek m c).1 ≡ size c)
  pub advance_is :
      (c : core.Cursor)
      → index c < size c
      → ((core.advance m c).0 ≡ some tt)
        × (index (core.advance m c).1 ≡ suc (index c))
        × (size (core.advance m c).1 ≡ size c)
  pub goto_is :
      (c : core.Cursor) (i : ℕ)
      → i < size c
      → ((core.goto_index m c (pos i)).0 ≡ some true)
        × (index (core.goto_index m c (pos i)).1 ≡ i)
        × (size (core.goto_index m c (pos i)).1 ≡ size c)
  pub goto_off :
      (c : core.Cursor) (i : ℕ)
      → size c ≤ i
      → ((core.goto_index m c (pos i)).0 ≡ some false)
        × (index (core.goto_index m c (pos i)).1 ≡ size c)
        × (size (core.goto_index m c (pos i)).1 ≡ size c)
  pub name_size : (c : core.Cursor) (n : Text) → size (core.goto_name m c n).1 ≡ size c

module _ (core : Msgcore) (m : core.Mgr) (p : Positions core m) where
  open p use {size, index}

  curs_at_end_in : (c : core.Cursor) → index c < size c → curs_at_end core m c ≡ some false
  unfolding curs_at_end
  curs_at_end_in c h =
      rw (p.count_is c, curs_at_end) (rw (p.item_is c h, curs_at_end) (ground arith))

  curs_at_end_off : (c : core.Cursor) → index c ≡ size c → curs_at_end core m c ≡ some true
  unfolding curs_at_end
  curs_at_end_off c h =
      rw (p.count_is c, curs_at_end) (rw (p.item_off c h, curs_at_end) (ground (arith, p.fits c)))

  -- A method in an open store is its `try` block.
  pub guarded_open :
      {A : Type 0} (f : FacadeCursor core) (body : core.Mgr → Act core.Cursor A)
      → open_store core f.store ≡ ok m
      → guarded core f body ≡ ((body m f.curs).0, record f { curs = (body m f.curs).1 })
  unfolding guarded
  guarded_open f body o = rw (o, guarded) refl

  next_body_off : (c : core.Cursor) → index c ≡ size c → next_body core m c ≡ (ok s_false, c)
  unfolding next_body
  next_body_off c h = ground (arith, curs_at_end_off c h)

  next_body_on :
      (c : core.Cursor)
      → index c < size c
      → next_body core m c
        ≡ (ok (if suc (index c) == size c then s_false else s_ok), (core.advance m c).1)
  unfolding next_body
  next_body_on c h =
      let (done, at, sz) = p.advance_is c h in
      let d = (core.advance m c).1 in
      elim (Bool-cases (suc (index c) == size c)) [
        | inl last ↦
            ground (arith, curs_at_end_in c h, curs_at_end_off d (ground (arith, p.advance_is c h)))
        | inr more ↦ ground (
          arith,
          curs_at_end_in c h,
          curs_at_end_in d (ground (arith, p.advance_is c h, p.fits d)),
        )
      ]

  -- Where Next answers and leaves a cursor, on an element and off the end.
  NextAt : FacadeCursor core → Outcome HResult × FacadeCursor core → Type 0
  NextAt f (r, g) =
      (r ≡ ok (if leb (size f.curs) (suc (index f.curs)) then s_false else s_ok))
      × (index g.curs
          ≡ (if ltb (index f.curs) (size f.curs) then suc (index f.curs) else index f.curs))
      × (size g.curs ≡ size f.curs)

  -- What IsEnd of a cursor over an open store answers.
  pub is_end_lem :
      (f : FacadeCursor core)
      → open_store core f.store ≡ ok m
      → (index f.curs < size f.curs → is_end core f true ≡ ok false)
        × (index f.curs ≡ size f.curs → is_end core f true ≡ ok true)
  unfolding is_end guarded at_end
  is_end_lem f o = (
    λ h. ground (arith, o, curs_at_end_in f.curs h),
    λ h. ground (arith, o, curs_at_end_off f.curs h),
  )

  -- What GetName of a cursor on an element answers.
  pub get_name_lem :
      (f : FacadeCursor core) (name : Text)
      → open_store core f.store ≡ ok m
      → index f.curs < size f.curs
      → core.cursor_name m f.curs ≡ some name
      → get_name core f ≡ copy_out (some name)
  unfolding get_name
  get_name_lem f name o h n = rw (o, get_name) (rw (curs_at_end_in f.curs h) (rw n refl))

  -- Next on an element moves the cursor of the core.
  pub next_moves :
      (f : FacadeCursor core)
      → open_store core f.store ≡ ok m
      → index f.curs < size f.curs
      → (next core f).1 ≡ record f { curs = (core.advance m f.curs).1 }
  unfolding next
  next_moves f o h = rw (guarded_open f (next_body core) o) (rw (next_body_on f.curs h) refl)

  NextAt-off : (f : FacadeCursor core) → index f.curs ≡ size f.curs → NextAt f (ok s_false, f)
  unfolding NextAt
  NextAt-off f h = ground arith

  NextAt-on :
      (f : FacadeCursor core)
      → index f.curs < size f.curs
      → NextAt f (
        ok (if suc (index f.curs) == size f.curs then s_false else s_ok),
        record f { curs = (core.advance m f.curs).1 },
      )
  unfolding NextAt
  NextAt-on f h = let (_, at, sz) = p.advance_is f.curs h in (ground arith, ground (arith, at), sz)

  -- Next of a cursor over an open store, at every position: it goes one element on, or stays where it
  -- is off the end; it answers S_FALSE exactly if it then stands off the end, and S_OK otherwise; the
  -- number of elements stays.
  pub next_lem :
      (f : FacadeCursor core)
      → open_store core f.store ≡ ok m
      → ((next core f).0 ≡ ok (if leb (size f.curs) (suc (index f.curs)) then s_false else s_ok))
        × (index (next core f).1.curs
            ≡ (if ltb (index f.curs) (size f.curs) then suc (index f.curs) else index f.curs))
        × (size (next core f).1.curs ≡ size f.curs)
  unfolding next NextAt
  next_lem f o = elim (Bool-cases (ltb (index f.curs) (size f.curs))) [
    | inl on ↦
        let at : index f.curs < size f.curs = ground (arith, on) in
        rw (guarded_open f (next_body core) o) (rw (next_body_on f.curs at) (NextAt-on f at))
    | inr off ↦
        let at : index f.curs ≡ size f.curs = ground (arith, off, p.fits f.curs) in
        rw (guarded_open f (next_body core) o) (rw (next_body_off f.curs at) (NextAt-off f at))
  ]

  -- Where GotoName and GotoIndex go back to: the index that the cursor stands on, or off the end.
  back_to_index :
      (c : core.Cursor) (was : ℤ)
      → core.item m c ≡ some was
      → back_to core was (pos (size c)) ≡ pos (index c)
  unfolding back_to
  back_to_index c was i = elim (Bool-cases (ltb (index c) (size c))) [
    | inl on ↦ let e : was ≡ pos (index c) = cc (p.item_is c (ground arith)) in rw e (ground arith)
    | inr off ↦
        let end : index c ≡ size c = ground (arith, p.fits c) in
        let e : was ≡ pos (2 ^ 31 - 2) = cc (p.item_off c end) in rw e (ground (arith, p.fits c))
  ]

  record Stays (c d : core.Cursor) : Type 0 where
    same_index : index d ≡ index c
    same_size : size d ≡ size c

  restored :
      (c d : core.Cursor)
      → size d ≡ size c
      → (hit : Bool) × ((core.goto_index m d (pos (index c))).0 ≡ some hit)
        × Stays c (core.goto_index m d (pos (index c))).1
  restored c d s = elim (Bool-cases (ltb (index c) (size c))) [
    | inl on ↦
        let (h, at, sz) = p.goto_is d (index c) (ground arith) in
        (true, h, record { same_index = at; same_size = sz ∙ s })
    | inr off ↦
        let (h, at, sz) = p.goto_off d (index c) (ground arith) in
        (false, h, record { same_index = ground (arith, p.fits c); same_size = sz ∙ s })
  ]

  pub item_cases : (c : core.Cursor) → (was : ℤ) × (core.item m c ≡ some was)
  item_cases c = elim (Bool-cases (ltb (index c) (size c))) [
    | inl on ↦ (pos (index c), p.item_is c (ground arith))
    | inr off ↦ (pos (2 ^ 31 - 2), p.item_off c (ground (arith, p.fits c)))
  ]

  goto_named_body_fails :
      (c : core.Cursor) (name : Text)
      → (core.goto_name m c name).0 ≡ some false
      → goto_named_body core name m c
        ≡ (fail e_no_item, (core.goto_index m (core.goto_name m c name).1 (pos (index c))).1)
  unfolding goto_named_body
  goto_named_body_fails c name miss =
      let (was, i) = item_cases c in
      let d = (core.goto_name m c name).1 in
      let (hit, h, _) = restored c d (p.name_size c name) in
      ground (arith, i, p.count_is c, back_to_index c was i, h)

  goto_at_body_fails :
      (c : core.Cursor) (i : ℕ)
      → size c ≤ i
      → i < 2 ^ 31
      → goto_at_body core i m c ≡ (fail e_range, (core.goto_index m c (pos (index c))).1)
  unfolding goto_at_body
  goto_at_body_fails c i past small =
      let (was, it) = item_cases c in
      let (hit, h, _) = restored c c refl in
      let e : to_signed (2 ^ 32) i ≡ pos i = unfold to_signed in ground arith in
      ground (arith, it, p.count_is c, back_to_index c was it, h, e)

  -- A GotoName over an open store that finds no such name answers MSGF_E_NO_ITEM and leaves the cursor
  -- at the index where it was.
  pub goto_named_missed :
      (f : FacadeCursor core) (name : Text)
      → open_store core f.store ≡ ok m
      → (core.goto_name m f.curs name).0 ≡ some false
      → ((goto_named core f (some name)).0 ≡ fail e_no_item)
        × (index (goto_named core f (some name)).1.curs ≡ index f.curs)
        × (size (goto_named core f (some name)).1.curs ≡ size f.curs)
  unfolding goto_named
  goto_named_missed f name o miss =
      let (_, _, w) = restored f.curs (core.goto_name m f.curs name).1 (p.name_size f.curs name) in
      rw (guarded_open f (goto_named_body core name) o)
        (rw (goto_named_body_fails f.curs name miss) (refl, w.same_index, w.same_size))

  -- A GotoIndex over an open store, for an index past the end and below 2^31, answers MSGF_E_RANGE and
  -- leaves the cursor at the index where it was.
  pub goto_at_past :
      (f : FacadeCursor core) (i : ℕ)
      → open_store core f.store ≡ ok m
      → size f.curs ≤ i
      → i < 2 ^ 31
      → ((goto_at core f i).0 ≡ fail e_range)
        × (index (goto_at core f i).1.curs ≡ index f.curs)
        × (size (goto_at core f i).1.curs ≡ size f.curs)
  unfolding goto_at
  goto_at_past f i o past small =
      let (_, _, w) = restored f.curs f.curs refl in
      rw (guarded_open f (goto_at_body core i) o)
        (rw (goto_at_body_fails f.curs i past small) (refl, w.same_index, w.same_size))
