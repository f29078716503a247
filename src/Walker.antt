-- ===== src/Walker.antt =====
-- `FacadeWalker` of src/FacadeCursor.cpp: a subtree walk as an explicit stack of cursors. The list of
-- levels has the innermost level first, where the source's vector has it last.
pub mod Depth
pub mod Standing
use msg_facade.Prelude.{
  ℕ, ◌-◌, Bool, true, false, not, Option, none, some, List, [], ◌∷◌, ltb, if◌then◌else◌, Text,
  length,
}
use msg_facade.HResult.{HResult, s_ok, s_false, e_core, e_pointer, e_range, e_depth, e_type}
use msg_facade.CopyOut.{Out, copy_out, answer}
use msg_facade.Outcome
use msg_facade.Outcome.{Outcome, ok, fail, diverge, attempt}
use msg_facade.Outcome.Act.{Act, pure, read, require, ◌>>=◌, ◌>>◌}
use msg_facade.Route.{Route, max_depth}
use msg_facade.Core.{Msgcore}
use msg_facade.Store.{Store, open_store, scope_cursor, resolve_field}
use msg_facade.Store.Search.{curs_at_end}
use msg_facade.Cursor.{Kind, kind_of}

module _ (core : Msgcore) where
  open core use {
    Mgr, Cursor, advance, cursor_child, cursor_is_item, cursor_item, cursor_object, cursor_name,
  }

  pub record Level : Type 0 where
    pub curs : Cursor
    pub fresh : Bool

  pub record FacadeWalker : Type 0 where
    pub store : Store core
    pub owner : Route
    pub scope : ℕ
    pub levels : List Level

  unfoldable pub make_walker : Store core → Route → ℕ → Outcome FacadeWalker
  make_walker s owner scope = Outcome.◌>>=◌ (open_store core s) λ m.
      Outcome.◌>>=◌ (resolve_field core s owner) λ field.
        Outcome.◌>>=◌ (attempt (scope_cursor core m field scope)) λ c. ok (record {
          store = s;
          owner = owner;
          scope = scope;
          levels = record { curs = c; fresh = false } ∷ [];
        })

  -- One round of the loop of Next on the innermost level: does the level stand on an element now?
  -- A fresh level is stepped onto, any other one is advanced unless it is at its end.
  unfoldable pub step_level : Mgr → Level → Outcome Bool × Level
  step_level m l = elim (curs_at_end core m l.curs) [
    | none ↦ (fail e_core, record l { fresh = false })
    | some true ↦ (ok false, record l { fresh = false })
    | some false ↦
        if l.fresh
        then (ok true, record l { fresh = false })
        else let (done, c) = advance m l.curs in
          elim done [
            | none ↦ (fail e_core, record l { curs = c })
            | some _ ↦ elim (curs_at_end core m c) [
              | none ↦ (fail e_core, record l { curs = c })
              | some over ↦ (ok (not over), record l { curs = c })
            ]
          ]
  ]

  -- The loop of Next: a level that has come to its end is left for the one above it, but the outermost
  -- one is never left.
  unfoldable pub next_levels : Mgr → List Level → Outcome HResult × List Level
  next_levels m [] = (ok s_false, [])
  next_levels m (top ∷ rest) =
      let (r, top') = step_level m top in
      let up = next_levels m rest in
      elim r [
        | fail e ↦ (fail e, top' ∷ rest)
        | diverge ↦ (diverge, top' ∷ rest)
        | ok true ↦ (ok s_ok, top' ∷ rest)
        | ok false ↦ elim rest [ [] ↦ (ok s_false, top' ∷ []) | _ ∷ _ ↦ up ]
      ]

  -- The `try` block of Push; the depth that it reports is the number of levels below the new one.
  unfoldable pub push_open : Mgr → Cursor → Act (List Level) HResult
  push_open m c = do
    end ← read (λ _. curs_at_end core m c)
    require (not end) e_range
    item ← read (λ _. cursor_is_item m c)
    require item e_type
    below ← read (λ _. cursor_item m c)
    new ← read (λ _. cursor_child m below)
    empty ← read (λ _. curs_at_end core m new)
    if empty then pure s_false else (λ ls. (ok s_ok, record { curs = new; fresh = true } ∷ ls))

  unfoldable pub push_levels : Mgr → Act (List Level) HResult
  push_levels m [] = (fail e_range, [])
  push_levels m (top ∷ rest) =
      if ltb max_depth (length (top ∷ rest))
      then (fail e_depth, top ∷ rest)
      else push_open m top.curs (top ∷ rest)

  unfoldable pub pop_levels : Act (List Level) HResult
  pop_levels [] = (fail e_range, [])
  pop_levels (top ∷ []) = (fail e_range, top ∷ [])
  pop_levels (top ∷ next ∷ rest) = (ok s_ok, next ∷ rest)

  -- `while ( m_aLevels.size ( ) > 1 ) pop`
  unfoldable pub break_levels : List Level → List Level
  break_levels [] = []
  break_levels (top ∷ []) = top ∷ []
  break_levels (top ∷ next ∷ rest) = break_levels (next ∷ rest)

  -- A method: the guard, then the body on the levels.
  unfoldable pub on_levels :
      {A : Type 0}
      → (Mgr → List Level → Outcome A × List Level)
      → FacadeWalker
      → Outcome A × FacadeWalker
  on_levels body w = elim (open_store core w.store) [
    | ok m ↦ let (r, ls) = body m w.levels in (r, record w { levels = ls })
    | fail e ↦ (fail e, w)
    | diverge ↦ (diverge, w)
  ]

  unfoldable pub next : FacadeWalker → Outcome HResult × FacadeWalker
  next = on_levels next_levels

  unfoldable pub push : FacadeWalker → Outcome HResult × FacadeWalker
  push = on_levels push_levels

  unfoldable pub pop : FacadeWalker → Outcome HResult × FacadeWalker
  pop = on_levels (λ m. pop_levels)

  unfoldable pub break : FacadeWalker → Outcome HResult × FacadeWalker
  break = on_levels (λ m ls. (ok s_ok, break_levels ls))

  -- `m_aLevels.empty ( ) ? 0 : m_aLevels.size ( ) - 1`
  unfoldable pub depth : FacadeWalker → ℕ
  depth w = length w.levels - 1

  end_of : Mgr → List Level → Outcome Bool × List Level
  end_of m [] = (ok true, [])
  end_of m (top ∷ rest) = (attempt (curs_at_end core m top.curs), top ∷ rest)

  unfoldable pub is_end : FacadeWalker → Bool → Outcome Bool
  unfolding on_levels end_of
  is_end w out = (on_levels (λ m ls. if out then end_of m ls else (fail e_pointer, ls)) w).0

  kind_at : Mgr → List Level → Outcome Kind × List Level
  kind_at m [] = (fail e_range, [])
  kind_at m (top ∷ rest) = (
    Outcome.◌>>=◌ (attempt (curs_at_end core m top.curs)) λ end.
        Outcome.◌>>◌ (Outcome.guard (not end) e_range)
          (Outcome.◌>>=◌ (attempt (cursor_object m top.curs)) λ o. attempt (kind_of core m o)),
    top ∷ rest,
  )

  unfoldable pub get_kind : FacadeWalker → Bool → Outcome Kind
  unfolding on_levels kind_at
  get_kind w out = (on_levels (λ m ls. if out then kind_at m ls else (fail e_pointer, ls)) w).0

  -- The name of the innermost level's element.
  unfoldable pub name_at : Mgr → List Level → Outcome Text
  name_at m [] = fail e_range
  name_at m (top ∷ rest) =
      Outcome.◌>>=◌ (attempt (curs_at_end core m top.curs))
        λ end. Outcome.◌>>◌ (Outcome.guard (not end) e_range) (attempt (cursor_name m top.curs))

  unfoldable pub get_name : FacadeWalker → Option (List ℕ) → Option ℕ → Out
  get_name w buf cch = answer buf cch (
      Outcome.◌>>=◌ (open_store core w.store)
        λ m. Outcome.◌>>=◌ (name_at m w.levels) λ name. ok (copy_out (some name) buf cch))
