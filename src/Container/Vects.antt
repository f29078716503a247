-- ===== src/Container/Vects.antt =====
-- `FacadeVect` of src/FacadeContainer.cpp: a route to a vect of the core, and its elements by index.
pub mod Index
use msg_facade.Prelude.{
  ℕ, ◌^◌, Bool, true, not, Option, some, List, [], ◌∷◌, ◌++◌, if◌then◌else◌, Text,
}
use msg_facade.Prelude.Int.{ℤ, leb_ℤ}
use msg_facade.HResult.{e_pointer, e_type, e_range}
use msg_facade.CopyOut.{Out, copy_out, answer}
use msg_facade.Types.{to_signed, to_unsigned}
use msg_facade.Outcome.{Outcome, ok, fail, attempt, guard, ◌>>=◌, ◌>>◌}
use msg_facade.Outcome.Act.{Act, change}
use msg_facade.Route.{Route, Step, scope_elem}
use msg_facade.Core.{Msgcore}
use msg_facade.Store.{Store, open_store, resolve_object}
use msg_facade.Values.{read_int, read_real, read_text, write_int, write_real, write_text}
use msg_facade.Cursor.{Kind, list_kind, vect_kind, item_kind, data_kind}
use msg_facade.Node.{if_allowed, change_field}
use msg_facade.Container.{done_or_range}

-- `RouteWith`: a step to an element has no name.
unfoldable pub route_with_elem : Route → ℕ → Route
route_with_elem r index = r ++ record { scope = scope_elem; name = []; index = index } ∷ []

module _ (core : Msgcore) where
  open core use {
    Mgr, Object, Real, is_vect, vect_count, elem_is_list, elem_is_vect, elem_is_field, elem_data,
    elem_name, vect_delete, vect_truncate, data_type,
  }

  -- The guard and `Resolve`.
  unfoldable pub vect_of : Store core → Route → Outcome (Mgr × Object)
  vect_of s r = do
    m ← open_store core s
    o ← resolve_object core s r
    vect ← attempt (is_vect m o)
    guard vect e_type
    ok (m, o)

  -- `(int)index >= (int)GetCount ( )`, and the index as an `int`.
  unfoldable pub is_past : ℕ → ℤ → Bool
  is_past index n = leb_ℤ n (to_signed (2 ^ 32) index)

  -- The opening of every method that wants an element: the vect, and the index as an `int`.
  unfoldable pub elem_of : Store core → Route → ℕ → Outcome (ℤ × (Mgr × Object))
  unfolding is_past
  elem_of s r index = do
    (m, o) ← vect_of s r
    n ← attempt (vect_count m o)
    guard (not (is_past index n)) e_range
    ok (to_signed (2 ^ 32) index, (m, o))

  unfoldable pub get_count : Store core → Route → Bool → Outcome ℕ
  get_count s r out = do
    opened ← open_store core s
    guard out e_pointer
    (m, o) ← vect_of s r
    n ← attempt (vect_count m o)
    ok (to_unsigned (2 ^ 32) n)

  unfoldable pub get_kind_at : Store core → Route → ℕ → Bool → Outcome Kind
  get_kind_at s r index out = do
    opened ← open_store core s
    guard out e_pointer
    (i, (m, o)) ← elem_of s r index
    list ← attempt (elem_is_list m o i)
    if list then ok list_kind else do
      vect ← attempt (elem_is_vect m o i)
      if vect
          then ok vect_kind
          else do field ← attempt (elem_is_field m o i); ok (if field then item_kind else data_kind)

  -- MSGF_TYPE_NULL, which is 0, and S_OK past the end.
  unfoldable pub get_type_at : Store core → Route → ℕ → Bool → Outcome ℕ
  unfolding is_past
  get_type_at s r index out = do
    opened ← open_store core s
    guard out e_pointer
    (m, o) ← vect_of s r
    n ← attempt (vect_count m o)
    if is_past index n then ok 0 else do
      cell ← attempt (elem_data m o (to_signed (2 ^ 32) index))
      attempt (data_type m cell)

  unfoldable pub get_name_at : Store core → Route → ℕ → Option (List ℕ) → Option ℕ → Out
  get_name_at s r index buf cch = answer buf cch (
      elem_of s r index >>= λ (i, (m, o)).
      attempt (elem_name m o i) >>= λ name. ok (copy_out (some name) buf cch))

  -- `r_data` of the element.
  unfoldable pub cell_of : Store core → Route → ℕ → Outcome (Mgr × Object)
  cell_of s r index = do
    (i, (m, o)) ← elem_of s r index
    cell ← attempt (elem_data m o i)
    ok (m, cell)

  unfoldable pub get_int_at : Store core → Route → ℕ → Bool → Outcome (ℤ × Bool)
  get_int_at s r index out = cell_of s r index >>= λ (m, cell). read_int core m cell out

  unfoldable pub get_real_at : Store core → Route → ℕ → Bool → Outcome Real
  get_real_at s r index out = cell_of s r index >>= λ (m, cell). read_real core m cell out

  unfoldable pub get_text_at : Store core → Route → ℕ → Option (List ℕ) → Option ℕ → Out
  get_text_at s r index buf cch =
      answer buf cch (cell_of s r index >>= λ (m, cell). ok (read_text core m cell buf cch))

  unfoldable pub set_int_at : Route → ℕ → ℤ → Store core → Outcome (Unit {0}) × Store core
  set_int_at r index v s =
      if_allowed core (cell_of s r index) (change_field core (λ cell. write_int core cell v)) s

  unfoldable pub set_real_at : Route → ℕ → Real → Store core → Outcome (Unit {0}) × Store core
  set_real_at r index v s =
      if_allowed core (cell_of s r index) (change_field core (λ cell. write_real core cell v)) s

  unfoldable pub set_text_at :
      Route → ℕ → Option Text → Store core → Outcome (Unit {0}) × Store core
  set_text_at r index v s =
      if_allowed core (cell_of s r index) (change_field core (λ cell. write_text core cell v true))
        s

  -- The route of a container inside the vect.
  unfoldable pub get_list_at : Store core → Route → ℕ → Bool → Outcome Route
  get_list_at s r index out = do
    opened ← open_store core s
    guard out e_pointer
    (i, (m, o)) ← elem_of s r index
    list ← attempt (elem_is_list m o i)
    guard list e_type
    ok (route_with_elem r index)

  unfoldable pub get_vect_at : Store core → Route → ℕ → Bool → Outcome Route
  get_vect_at s r index out = do
    opened ← open_store core s
    guard out e_pointer
    (i, (m, o)) ← elem_of s r index
    vect ← attempt (elem_is_vect m o i)
    guard vect e_type
    ok (route_with_elem r index)

  delete_elem : ℤ → Object → Act Mgr (Unit {0})
  delete_elem i o m = let (done, m') = vect_delete o i m in (done_or_range done, m')

  unfoldable pub delete_at : Route → ℕ → Store core → Outcome (Unit {0}) × Store core
  unfolding delete_elem
  delete_at r index s =
      if_allowed core (elem_of s r index) (λ (i, vect). change_field core (delete_elem i) vect) s

  unfoldable pub truncate : Route → Store core → Outcome (Unit {0}) × Store core
  truncate r s = if_allowed core (vect_of s r) (change_field core (λ o. change (vect_truncate o))) s
