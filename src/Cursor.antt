-- ===== src/Cursor.antt =====
-- `FacadeCursor` of src/FacadeCursor.cpp: one collection, one position.
-- The state is the store and the cursor of the core; `new FacadeCursor` is its construction by `make`.
pub mod Moves
use msg_facade.Prelude.{
  ℕ, ◌^◌, Bool, true, false, not, ◌||◌, Option, none, some, List, [], ◌∷◌, ◌++◌, if◌then◌else◌,
  Text,
}
use msg_facade.Prelude.Int.{ℤ, pos, leb_ℤ}
use msg_facade.HResult.{HResult, s_ok, s_false, e_core, e_pointer, e_range, e_no_item}
use msg_facade.CopyOut.{Out, copy_out, answer}
use msg_facade.Outcome
use msg_facade.Outcome.{Outcome, ok, fail, diverge, attempt}
use msg_facade.Outcome.Act.{Act, pure, raise, lift, require, ◌>>=◌, ◌>>◌}
use msg_facade.Types.{to_signed}
use msg_facade.Route.{Route, named}
use msg_facade.Core.{Msgcore}
use msg_facade.Store.{Store, make_node, open_store, scope_cursor, resolve_field}
use msg_facade.Store.Search.{curs_at_end}

-- MSGF_KIND_*
pub data Kind : Type 0 where
  item_kind list_kind vect_kind data_kind : Kind

module _ (core : Msgcore) where
  open core use {
    Mgr, Object, Cursor, is_vect, is_list, is_field, goto_name, goto_index, seek, advance, item,
    count, cursor_object, cursor_name, cursor_delete, set_dirty,
  }

  pub record FacadeCursor : Type 0 where
    pub store : Store core
    pub owner : Route
    pub scope : ℕ
    pub curs : Cursor

  -- `KindOf`
  unfoldable pub kind_of : Mgr → Object → Option Kind
  kind_of m o = elim (is_list m o) [
    | none ↦ none
    | some true ↦ some list_kind
    | some false ↦ elim (is_vect m o) [
      | none ↦ none
      | some true ↦ some vect_kind
      | some false ↦ elim (is_field m o) [
        | none ↦ none
        | some true ↦ some item_kind
        | some false ↦ some data_kind
      ]
    ]
  ]

  unfoldable pub make_cursor : Store core → Route → ℕ → Outcome FacadeCursor
  make_cursor s owner scope = Outcome.◌>>=◌ (open_store core s) λ m.
      Outcome.◌>>=◌ (resolve_field core s owner) λ field.
        Outcome.◌>>=◌ (attempt (scope_cursor core m field scope))
          λ c. ok (record { store = s; owner = owner; scope = scope; curs = c })

  -- A method that moves the cursor: `StoreGuard`, then the body on the core's cursor.
  unfoldable pub guarded :
      {A : Type 0} → FacadeCursor → (Mgr → Act Cursor A) → Outcome A × FacadeCursor
  guarded f body = elim (open_store core f.store) [
    | ok m ↦ let (r, c) = body m f.curs in (r, record f { curs = c })
    | fail e ↦ (fail e, f)
    | diverge ↦ (diverge, f)
  ]

  at_end : Mgr → Act Cursor Bool
  at_end m c = (attempt (curs_at_end core m c), c)

  move : {A : Type 0} → (Cursor → Option A × Cursor) → Act Cursor A
  move f c = let (r, c') = f c in (attempt r, c')

  observe : {A : Type 0} → (Cursor → Option A) → Act Cursor A
  observe f c = (attempt (f c), c)

  unfoldable pub rewind : FacadeCursor → Outcome HResult × FacadeCursor
  unfolding guarded move
  rewind f = guarded f λ m. do move (seek m); pure s_ok

  -- The `try` blocks of Next, GotoName and GotoIndex.
  unfoldable pub next_body : Mgr → Act Cursor HResult
  unfolding move at_end
  next_body m = do
    end ← at_end m
    if end
        then pure s_false
        else do move (advance m); over ← at_end m; pure (if over then s_false else s_ok)

  unfoldable pub next : FacadeCursor → Outcome HResult × FacadeCursor
  unfolding guarded
  next f = guarded f next_body

  -- `( nWas < 0 || nWas >= nCount ) ? nCount : nWas`
  unfoldable pub back_to : ℤ → ℤ → ℤ
  back_to was n = if not (leb_ℤ (pos 0) was) || leb_ℤ n was then n else was

  unfoldable pub goto_named_body : Text → Mgr → Act Cursor HResult
  unfolding move observe
  goto_named_body name m = do
    was ← observe (item m)
    n ← observe (count m)
    hit ← move (λ c. goto_name m c name)
    if hit
        then pure s_ok
        else do restored ← move (λ c. goto_index m c (back_to was n)); raise e_no_item

  unfoldable pub goto_named : FacadeCursor → Option Text → Outcome HResult × FacadeCursor
  unfolding guarded
  goto_named f none = guarded f λ m. raise e_pointer
  goto_named f (some name) = guarded f (goto_named_body name)

  -- `(int)index` is the signed reading of the 32 bits.
  unfoldable pub goto_at_body : ℕ → Mgr → Act Cursor HResult
  unfolding move observe
  goto_at_body index m =
      let i = to_signed (2 ^ 32) index in
      do
        was ← observe (item m)
        n ← observe (count m)
        hit ← (if leb_ℤ n i then pure false else move (λ c. goto_index m c i))
        if hit
            then pure s_ok
            else do restored ← move (λ c. goto_index m c (back_to was n)); raise e_range

  unfoldable pub goto_at : FacadeCursor → ℕ → Outcome HResult × FacadeCursor
  unfolding guarded
  goto_at f index = guarded f (goto_at_body index)

  -- Reads at the current element.
  abbrev looked : {A : Type 0} → FacadeCursor → Bool → (Mgr → Act Cursor A) → Outcome A
  looked f out body = (guarded f λ m. do require out e_pointer; body m).0

  unfoldable pub is_end : FacadeCursor → Bool → Outcome Bool
  unfolding guarded at_end
  is_end f out = looked f out at_end

  unfoldable pub get_count : FacadeCursor → Bool → Outcome ℤ
  unfolding guarded observe
  get_count f out = looked f out λ m. observe (count m)

  unfoldable pub get_index : FacadeCursor → Bool → Outcome ℤ
  unfolding guarded observe at_end
  get_index f out = looked f out λ m. do end ← at_end m; require (not end) e_range; observe (item m)

  unfoldable pub get_kind : FacadeCursor → Bool → Outcome Kind
  unfolding guarded observe at_end kind_of
  get_kind f out = looked f out λ m. do
    end ← at_end m
    require (not end) e_range
    o ← observe (cursor_object m)
    observe (λ _. kind_of m o)

  unfoldable pub get_name : FacadeCursor → Option (List ℕ) → Option ℕ → Out
  get_name f buf cch = answer buf cch (
      Outcome.◌>>=◌ (open_store core f.store) λ m.
        Outcome.◌>>=◌ (attempt (curs_at_end core m f.curs)) λ end.
          Outcome.◌>>◌ (Outcome.guard (not end) e_range) (
            Outcome.◌>>=◌ (attempt (cursor_name m f.curs))
              λ name. ok (copy_out (some name) buf cch)))

  -- The route of the node that GetNode makes.
  unfoldable pub get_node : FacadeCursor → Bool → Outcome Route
  unfolding guarded observe at_end
  get_node f out = looked f out λ m. do
    end ← at_end m
    require (not end) e_range
    name ← observe (cursor_name m)
    lift (make_node (f.owner ++ named f.scope name ∷ []))

  abbrev seated : FacadeCursor → Mgr → Cursor → FacadeCursor
  seated f m c = record f { store = record f.store { mgr = some m }; curs = c }

  -- The end of `Delete`: the core's delete and seek, and `MarkDirty`, which swallows a raise.
  remove_current : FacadeCursor → Mgr → Outcome HResult × FacadeCursor
  remove_current f m =
      let (r, (m₁, c₁)) = cursor_delete m f.curs in
      let (q, c₂) = seek m₁ c₁ in
      elim r [
        | none ↦ (fail e_core, seated f m₁ c₁)
        | some _ ↦ elim q [
          | none ↦ (fail e_core, seated f m₁ c₂)
          | some _ ↦ (ok s_ok, seated f (set_dirty true m₁).1 c₂)
        ]
      ]

  unfoldable pub delete_current : FacadeCursor → Outcome HResult × FacadeCursor
  unfolding remove_current
  delete_current f = elim (open_store core f.store) [
    | fail e ↦ (fail e, f)
    | diverge ↦ (diverge, f)
    | ok m ↦ elim (curs_at_end core m f.curs) [
      | none ↦ (fail e_core, f)
      | some true ↦ (fail e_range, f)
      | some false ↦ remove_current f m
    ]
  ]
