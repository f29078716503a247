-- ===== src/Container/Lists.antt =====
-- `FacadeList` of src/FacadeContainer.cpp: a route to a list of the core, and the walk along its chain.
pub mod Chain
pub mod Probe
use msg_facade.Prelude.{
  ℕ, zero, suc, ◌^◌, Bool, true, false, not, Option, none, some, List, leb, ◌==◌, if◌then◌else◌,
  Text, length,
}
use msg_facade.Prelude.Int.{ℤ, pos, negsuc, leb_ℤ}
use msg_facade.HResult.{HResult, e_pointer, e_type, e_limit, e_range}
use msg_facade.CopyOut.{Out, answer}
use msg_facade.Types.{
  Literal, float_cell, double_cell, text_cell, is_int_type, is_real_type, int_fits, int_literal,
  int32, float, double, to_unsigned,
}
use msg_facade.Outcome.{Outcome, ok, fail, attempt, guard, ◌>>=◌, ◌>>◌}
use msg_facade.Outcome.Act.{Act, change}
use msg_facade.Route.{Route}
use msg_facade.Core.{Msgcore}
use msg_facade.Store.{Store, open_store, resolve_object}
use msg_facade.Values.{max_text, read_int, read_real, read_text, write_int, write_real, write_text}
use msg_facade.Node.{if_allowed, change_field}
use msg_facade.Container.{done_or_range}

module _ (core : Msgcore) where
  open core use {
    Mgr, Object, Real, Float, to_float, is_list, data_type, list_count, list_head, list_next,
    list_add, list_drop, list_delete, list_truncate,
  }

  -- The guard and `Resolve`: the list, with the manager.
  unfoldable pub list_of : Store core → Route → Outcome (Mgr × Object)
  list_of s r = do
    m ← open_store core s
    o ← resolve_object core s r
    list ← attempt (is_list m o)
    guard list e_type
    ok (m, o)

  -- `for ( i = 0; i < nIndex && aPos; ++i ) GetNext ( aPos )`
  unfoldable pub walk_to : Mgr → Object → ℕ → ℕ → Outcome ℕ
  walk_to m o zero at = ok at
  walk_to m o (suc steps) at = elim (at == 0) [
    | true ↦ ok at
    | false ↦ attempt (list_next m o at) >>= λ (cell, after). walk_to m o steps after
  ]

  -- `ListCellAt`: `none` is nullptr.
  unfoldable pub list_cell_at : Mgr → Object → ℕ → Outcome (Option Object)
  list_cell_at m o index = do
    head ← attempt (list_head m o)
    at ← walk_to m o index head
    if at == 0 then ok none else do (cell, after) ← attempt (list_next m o at); ok (some cell)

  unfoldable pub get_count : Store core → Route → Bool → Outcome ℕ
  get_count s r out = do
    opened ← open_store core s
    guard out e_pointer
    (m, o) ← list_of s r
    n ← attempt (list_count m o)
    ok (to_unsigned (2 ^ 32) n)

  -- MSGF_TYPE_NULL, which is 0, and S_OK past the end.
  unfoldable pub get_type_at : Store core → Route → ℕ → Bool → Outcome ℕ
  get_type_at s r index out = do
    opened ← open_store core s
    guard out e_pointer
    (m, o) ← list_of s r
    found ← list_cell_at m o index
    elim found [ none ↦ ok 0 | some cell ↦ attempt (data_type m cell) ]

  -- The opening of every read and write of a cell.
  unfoldable pub cell_of : Store core → Route → ℕ → Outcome (Mgr × Object)
  cell_of s r index = do
    (m, o) ← list_of s r
    found ← list_cell_at m o index
    elim found [ none ↦ fail e_range | some cell ↦ ok (m, cell) ]

  unfoldable pub get_int_at : Store core → Route → ℕ → Bool → Outcome (ℤ × Bool)
  get_int_at s r index out = cell_of s r index >>= λ (m, cell). read_int core m cell out

  unfoldable pub get_real_at : Store core → Route → ℕ → Bool → Outcome Real
  get_real_at s r index out = cell_of s r index >>= λ (m, cell). read_real core m cell out

  unfoldable pub get_text_at : Store core → Route → ℕ → Option (List ℕ) → Option ℕ → Out
  get_text_at s r index buf cch =
      answer buf cch (cell_of s r index >>= λ (m, cell). ok (read_text core m cell buf cch))

  unfoldable pub set_int_at : Route → ℕ → ℤ → Store core → Outcome (Unit {0}) × Store core
  set_int_at r index v s =
      if_allowed core (cell_of s r index) (change_field core (λ cell. write_int core cell v)) s

  unfoldable pub set_real_at : Route → ℕ → Real → Store core → Outcome (Unit {0}) × Store core
  set_real_at r index v s =
      if_allowed core (cell_of s r index) (change_field core (λ cell. write_real core cell v)) s

  -- A list cell cannot grow.
  unfoldable pub set_text_at :
      Route → ℕ → Option Text → Store core → Outcome (Unit {0}) × Store core
  set_text_at r index v s =
      if_allowed core (cell_of s r index) (change_field core (λ cell. write_text core cell v false))
        s

  -- What an Add asks first, and the literal that it adds.
  abbrev Asked : Type 0
  Asked = Literal Real Float × (Mgr × Object)

  add : Bool → Outcome Asked → Store core → Outcome (Unit {0}) × Store core
  add head asked s =
      if_allowed core asked (λ (l, at). change_field core (λ o. change (list_add head o l)) at) s

  asked_int : Store core → Route → ℤ → ℕ → Outcome Asked
  asked_int s r v type = do
    opened ← open_store core s
    let t = if type == 0 then int32 else type
    guard (is_int_type t) e_type
    guard (int_fits v t) e_limit
    at ← list_of s r
    elim (int_literal t v) [ none ↦ fail e_type | some l ↦ ok (l, at) ]

  unfoldable pub add_int : Route → ℤ → ℕ → Bool → Store core → Outcome (Unit {0}) × Store core
  unfolding add asked_int
  add_int r v type head s = add head (asked_int s r v type) s

  asked_real : Store core → Route → Real → ℕ → Outcome Asked
  asked_real s r v type = do
    opened ← open_store core s
    let t = if type == 0 then double else type
    guard (is_real_type t) e_type
    at ← list_of s r
    ok (if t == float then float_cell (to_float v) else double_cell v, at)

  unfoldable pub add_real : Route → Real → ℕ → Bool → Store core → Outcome (Unit {0}) × Store core
  unfolding add asked_real
  add_real r v type head s = add head (asked_real s r v type) s

  asked_text : Store core → Route → Option Text → Outcome Asked
  asked_text s r v = do
    opened ← open_store core s
    text ← (elim v [ none ↦ fail e_pointer | some t ↦ ok t ])
    guard (leb (length text) max_text) e_limit
    at ← list_of s r
    ok (text_cell text, at)

  unfoldable pub add_text :
      Route → Option Text → Bool → Store core → Outcome (Unit {0}) × Store core
  unfolding add asked_text
  add_text r v head s = add head (asked_text s r v) s

  asked_drop : Store core → Route → Outcome (Mgr × Object)
  asked_drop s r = do
    (m, o) ← list_of s r
    n ← attempt (list_count m o)
    guard (not (leb_ℤ n (pos 0))) e_range
    ok (m, o)

  unfoldable pub drop_cell : Route → Bool → Store core → Outcome (Unit {0}) × Store core
  unfolding asked_drop
  drop_cell r head s =
      if_allowed core (asked_drop s r) (change_field core (λ o. change (list_drop head o))) s

  -- The position of the cell at an index, with the list.
  unfoldable pub position_of : Store core → Route → ℕ → Outcome (ℕ × (Mgr × Object))
  position_of s r index = do
    (m, o) ← list_of s r
    head ← attempt (list_head m o)
    at ← walk_to m o index head
    guard (not (at == 0)) e_range
    ok (at, (m, o))

  delete_pos : ℕ → Object → Act Mgr (Unit {0})
  delete_pos at o m = let (done, m') = list_delete o at m in (done_or_range done, m')

  unfoldable pub delete_at : Route → ℕ → Store core → Outcome (Unit {0}) × Store core
  unfolding position_of delete_pos
  delete_at r index s =
      if_allowed core (position_of s r index) (λ (at, list). change_field core (delete_pos at) list)
        s

  unfoldable pub truncate : Route → Store core → Outcome (Unit {0}) × Store core
  truncate r s = if_allowed core (list_of s r) (change_field core (λ o. change (list_truncate o))) s
