-- ===== src/Com/Cursor.antt =====
-- `CMsgCursor` of com/ComCursor.cpp: a cursor of the facade that is built again after each change of the
-- store. Its store, owner and cursor are set from Make to FinalRelease.
pub mod Rebind
use msg_facade.Prelude.{
  ℕ, ◌+◌, ◌^◌, Bool, true, false, not, Option, none, some, ◌==◌, if◌then◌else◌, Text,
}
use msg_facade.Prelude.Int.{ℤ, pos, negsuc, pos_part, leb_ℤ}
use msg_facade.HResult.{HResult, s_ok, e_pointer, e_range, e_no_item}
use msg_facade.Types.{to_signed, to_unsigned}
use msg_facade.Outcome.{Outcome, ok, fail, diverge, ◌>>=◌}
use msg_facade.Route.{Route}
use msg_facade.Core.{Msgcore}
use msg_facade.Store.{Store}
use msg_facade.Store.Tree.{node_from_path}
use msg_facade.Cursor.{FacadeCursor, Kind}
use msg_facade.Com.Kinds.{kind_is}
use msg_facade.Cursor
use msg_facade.Node.{get_path}
use msg_facade.Node.Restructure.{open_cursor}
use msg_facade.Com.{Answer, answered, raised, unending, converted}
use msg_facade.Com.Codes.{code, from_facade, c_closed, c_kernel}
use msg_facade.Com.Strings.{read_string}

module _ (core : Msgcore) where
  -- Of `CMsgStore`: its store, which Close takes away, and its count of mutations, without
  -- the wrap of a LONG.
  pub record ComStore : Type 0 where
    pub held : Option (Store core)
    pub mutations : ℕ

  pub record ComCursor : Type 0 where
    pub owner : Route
    pub scope : ℕ
    pub curs : core.Cursor
    pub seq : ℕ
    pub index : ℕ

  -- `Make`, with the node of the owner opened again by its path.
  unfoldable pub reopen : Store core → Route → Outcome Route
  reopen s owner = do
    path ← read_string (get_path core s owner)
    node_from_path core s (some path) true

  made_in : Store core → ℕ → Route → ℕ → Outcome ComCursor
  made_in s now owner scope = do
    own ← reopen s owner
    f ← open_cursor core s own scope
    ok (record { owner = own; scope = scope; curs = f.curs; seq = now; index = 0 })

  unfoldable pub make : ComStore → Route → ℕ → Bool → Answer ComCursor
  unfolding made_in
  make st owner scope out = if not out then raised (code e_pointer) else elim st.held [
    | none ↦ raised (code e_pointer)
    | some s ↦ converted (made_in s st.mutations owner scope)
  ]

  -- `if ( m_uIndex != 0 ) spCurs->GotoIndex ( m_uIndex );`
  unfoldable pub sought : ℕ → FacadeCursor core → FacadeCursor core
  sought index f = if index == 0 then f else (Cursor.goto_at core f index).1

  rebuilt : ℕ → ComCursor → Outcome (FacadeCursor core) → Answer (Unit {0}) × ComCursor
  rebuilt now c (ok f) = (answered tt, record c { curs = (sought c.index f).curs; seq = now })
  rebuilt now c (fail e) = (raised (from_facade (code e)), c)
  rebuilt now c diverge = (unending, c)

  unfoldable pub bind : ComStore → ComCursor → Answer (Unit {0}) × ComCursor
  unfolding rebuilt
  bind st c = elim st.held [
    | none ↦ (raised c_closed, c)
    | some s ↦
        if st.mutations == c.seq
        then (answered tt, c)
        else rebuilt st.mutations c (open_cursor core s c.owner c.scope)
  ]

  -- The cursor of the facade, in the store as it is now.
  abbrev pub seen : Store core → ComCursor → FacadeCursor core
  seen s c = record { store = s; owner = c.owner; scope = c.scope; curs = c.curs }

  -- A method: Bind, then its body.
  after_bind :
      {A : Type 0}
      → (Store core → ComCursor → Answer A × ComCursor)
      → ComStore
      → ComCursor
      → Answer A × ComCursor
  after_bind body st c =
      let (r, c') = bind st c in
      elim r [
        | raised hr ↦ (raised hr, c')
        | unending ↦ (unending, c')
        | answered _ ↦ elim st.held [ none ↦ (raised c_closed, c') | some s ↦ body s c' ]
      ]

  -- `if ( SUCCEEDED ( m_pCurs->GetIndex ( &u ) ) ) m_uIndex = u;`
  unfoldable pub noted : FacadeCursor core → ComCursor → ComCursor
  noted f c = elim (Cursor.get_index core f true) [
    | ok u ↦ record c { curs = f.curs; index = to_unsigned (2 ^ 32) u }
    | _ ↦ record c { curs = f.curs }
  ]

  next_in : Store core → ComCursor → Answer HResult × ComCursor
  next_in s c =
      let (r, f) = Cursor.next core (seen s c) in
      elim r [
        | ok hr ↦ (answered hr, noted f c)
        | fail e ↦ (raised (from_facade (code e)), record c { curs = f.curs })
        | diverge ↦ (unending, record c { curs = f.curs })
      ]

  unfoldable pub next : ComStore → ComCursor → Answer HResult × ComCursor
  unfolding after_bind next_in
  next = after_bind next_in

  seek_in : Store core → ComCursor → Answer (Unit {0}) × ComCursor
  seek_in s c =
      let (r, f) = Cursor.rewind core (seen s c) in
      elim r [
        | ok hr ↦ (answered tt, record c { curs = f.curs; index = 0 })
        | fail e ↦ (raised (from_facade (code e)), record c { curs = f.curs })
        | diverge ↦ (unending, record c { curs = f.curs })
      ]

  unfoldable pub seek : ComStore → ComCursor → Answer (Unit {0}) × ComCursor
  unfolding after_bind seek_in
  seek = after_bind seek_in

  -- A miss is the answer false.
  missed : HResult → HResult → ComCursor → Answer Bool × ComCursor
  missed miss e c =
      if code e == code miss then (answered false, c) else (raised (from_facade (code e)), c)

  named_in : Text → Store core → ComCursor → Answer Bool × ComCursor
  unfolding missed
  named_in name s c =
      let (r, f) = Cursor.goto_named core (seen s c) (some name) in
      elim r [
        | ok hr ↦ (answered true, noted f c)
        | fail e ↦ missed e_no_item e (record c { curs = f.curs })
        | diverge ↦ (unending, record c { curs = f.curs })
      ]

  unfoldable pub goto_name : Text → ComStore → ComCursor → Answer Bool × ComCursor
  unfolding after_bind named_in
  goto_name name = after_bind (named_in name)

  -- The index is a LONG: a negative one is not looked for.
  at_in : ℤ → Store core → ComCursor → Answer Bool × ComCursor
  unfolding missed
  at_in (negsuc n) s c = (answered false, c)
  at_in (pos i) s c =
      let (r, f) = Cursor.goto_at core (seen s c) i in
      elim r [
        | ok hr ↦ (answered true, record c { curs = f.curs; index = i })
        | fail e ↦ missed e_range e (record c { curs = f.curs })
        | diverge ↦ (unending, record c { curs = f.curs })
      ]

  unfoldable pub goto_index : ℤ → ComStore → ComCursor → Answer Bool × ComCursor
  unfolding after_bind at_in
  goto_index i = after_bind (at_in i)

  -- A read of the facade's cursor.
  asked :
      {A : Type 0} → (FacadeCursor core → Answer A) → ComStore → ComCursor → Answer A × ComCursor
  unfolding after_bind
  asked f = after_bind (λ s c. (f (seen s c), c))

  unfoldable pub end_of_cursor : ComStore → ComCursor → Answer Bool × ComCursor
  unfolding asked
  end_of_cursor = asked (λ f. converted (Cursor.is_end core f true))

  -- On the first element: not at the end, and the index is 0.
  at_start : FacadeCursor core → Answer Bool
  at_start f = elim (Cursor.is_end core f true) [
    | fail e ↦ raised c_kernel
    | diverge ↦ unending
    | ok end ↦ elim (Cursor.get_index core f true) [
      | ok u ↦ answered (if end then false else to_unsigned (2 ^ 32) u == 0)
      | _ ↦ answered false
    ]
  ]

  unfoldable pub start_of_cursor : ComStore → ComCursor → Answer Bool × ComCursor
  unfolding asked at_start
  start_of_cursor = asked at_start

  unfoldable pub get_count : ComStore → ComCursor → Answer ℤ × ComCursor
  unfolding asked
  get_count = asked (λ f.
      converted
        (Cursor.get_count core f true >>= λ n. ok (to_signed (2 ^ 32) (to_unsigned (2 ^ 32) n))))

  -- Off the end the index is -1.
  index_of : FacadeCursor core → Answer ℤ
  index_of f = elim (Cursor.get_index core f true) [
    | ok u ↦ answered (to_signed (2 ^ 32) (to_unsigned (2 ^ 32) u))
    | fail e ↦ if code e == code e_range then answered (negsuc 0) else raised (from_facade (code e))
    | diverge ↦ unending
  ]

  unfoldable pub get_index : ComStore → ComCursor → Answer ℤ × ComCursor
  unfolding asked index_of
  get_index = asked index_of

  unfoldable pub get_name : ComStore → ComCursor → Answer Text × ComCursor
  unfolding asked
  get_name = asked (λ f. converted (read_string (Cursor.get_name core f)))

  -- The route of the field that get_Field makes.
  unfoldable pub get_field : ComStore → ComCursor → Answer Route × ComCursor
  unfolding asked
  get_field = asked (λ f. converted (Cursor.get_node core f true))

  -- IsItem, IsList and IsVect, by the kind that they want.
  unfoldable pub is_kind : Kind → ComStore → ComCursor → Answer Bool × ComCursor
  unfolding asked
  is_kind want =
      asked (λ f. converted (Cursor.get_kind core f true >>= λ kind. ok (kind_is want kind)))

  -- The cursor that deletes is not stale afterwards; every other one is.
  delete_in : ComStore → Store core → ComCursor → Answer (Unit {0}) × (ComStore × ComCursor)
  delete_in st s c =
      let (r, f) = Cursor.delete_current core (seen s c) in
      let now = st.mutations + 1 in
      elim r [
        | ok hr ↦ (
          answered tt,
          (
            record { held = some f.store; mutations = now },
            record c { curs = f.curs; seq = now; index = 0 },
          ),
        )
        | fail e ↦ (
          raised (from_facade (code e)),
          (record st { held = some f.store }, record c { curs = f.curs }),
        )
        | diverge ↦ (unending, (record st { held = some f.store }, record c { curs = f.curs }))
      ]

  unfoldable pub delete : ComStore → ComCursor → Answer (Unit {0}) × (ComStore × ComCursor)
  unfolding delete_in
  delete st c =
      let (r, c') = bind st c in
      elim r [
        | raised hr ↦ (raised hr, (st, c'))
        | unending ↦ (unending, (st, c'))
        | answered _ ↦ elim st.held [
          | none ↦ (raised c_closed, (st, c'))
          | some s ↦ delete_in st s c'
        ]
      ]
