-- ===== src/Store/Search.antt =====
-- `SearchPos` and `RouteOfPos` of src/FacadeStore.cpp: from a position to a route.
pub mod Sound
use msg_facade.Prelude.{
  ℕ, zero, suc, Bool, not, ◌||◌, Option, none, some, List, [], ◌∷◌, ◌++◌, map, ◌==◌, if◌then◌else◌,
  Text,
}
use mathlib.Core.Option
use msg_facade.Prelude.Int.{ℤ, pos, negsuc, leb_ℤ}
use msg_facade.HResult.{e_no_pos}
use msg_facade.Outcome.{Outcome, ok, fail, diverge, attempt, guard, ◌>>=◌, ◌>>◌}
use msg_facade.Route.{Step, Route, named, scope_child, scope_attr, max_depth}
use msg_facade.Core.{Msgcore}
use msg_facade.Store.{Store, open_store, scope_cursor, find_child}

module _ (core : Msgcore) where
  open core use {
    Mgr, Object, Cursor, root, is_field, p2pos, goto_name, goto_index, seek, item, count,
    cursor_object, cursor_name,
  }

  -- `CursAtEnd` of src/FacadeInternal.h
  unfoldable pub curs_at_end : Mgr → Cursor → Option Bool
  curs_at_end m c = elim (count m c) [
    | none ↦ none
    | some n ↦ elim (item m c) [
      | none ↦ none
      | some i ↦ some (leb_ℤ n (pos 0) || not (leb_ℤ (pos 0) i) || leb_ℤ n i)
    ]
  ]

  -- nItem + 1
  abbrev succ_int : ℤ → ℤ
  succ_int (pos n) = pos (suc n)
  succ_int (negsuc zero) = pos 0
  succ_int (negsuc (suc n)) = negsuc n

  -- The `while` loop that collects the names of a scope; the core decides how long it runs.
  unfoldable pub collect_loop : ℕ → Mgr → Cursor → List Text → Outcome (List Text)
  collect_loop zero m c names = diverge
  collect_loop (suc fuel) m c names = do
    end ← attempt (curs_at_end m c)
    let more = λ (d : Cursor) (ns : List Text). collect_loop fuel m d ns
    if end then ok names else do
      name ← attempt (cursor_name m c)
      i ← attempt (item m c)
      let (moved, d) = goto_index m c (succ_int i)
      on ← attempt moved
      if on then more d (names ++ name ∷ []) else ok (names ++ name ∷ [])

  unfoldable pub collect_names : ℕ → Mgr → Object → ℕ → Outcome (List Text)
  collect_names fuel m parent scope = do
    c ← attempt (scope_cursor core m parent scope)
    let (sought, d) = seek m c
    attempt sought
    collect_loop fuel m d []

  -- One child: it is the target, or the search goes on below it. `deeper` is the recursive call.
  -- The result is the rest of the route behind `parent`, which the source pushes on `rRoute`.
  unfoldable pub search_child :
      (Object → Outcome (Option Route)) → Mgr → ℕ → Step → Object → Outcome (Option Route)
  search_child deeper m target step child = do
    here ← attempt (p2pos m child)
    if here == target then ok (some (step ∷ [])) else do
      field ← attempt (is_field m child)
      if field
          then (do below ← deeper child; ok (Option.map (λ (r : Route). step ∷ r) below))
          else ok none

  -- The `for` loop over the names of one scope.
  unfoldable pub search_names :
      (Object → Outcome (Option Route)) → Mgr → Object → ℕ → ℕ → List Text → Outcome (Option Route)
  search_names deeper m parent target scope [] = ok none
  search_names deeper m parent target scope (name ∷ names) =
      let rest = search_names deeper m parent target scope names in
      do
        found ← find_child core m parent scope name
        below ← elim found [
          | none ↦ ok none
          | some child ↦ search_child deeper m target (named scope name) child
        ]
        elim below [ none ↦ rest | some r ↦ ok (some r) ]

  -- `left` is MAX_DEPTH - uDepth. The descendants are searched before the attributes.
  unfoldable pub search_pos : ℕ → ℕ → Mgr → ℕ → Object → Outcome (Option Route)
  search_pos zero fuel m target parent = ok none
  search_pos (suc left) fuel m target parent =
      let deeper = search_pos left fuel m target in
      do
        children ← collect_names fuel m parent scope_child
        below ← search_names deeper m parent target scope_child children
        elim below [
          | some r ↦ ok (some r)
          | none ↦ do
            attrs ← collect_names fuel m parent scope_attr
            search_names deeper m parent target scope_attr attrs
        ]

  unfoldable pub route_of_pos : ℕ → Store core → ℕ → Outcome Route
  route_of_pos fuel s target = do
    m ← open_store core s
    guard (not (target == 0)) e_no_pos
    top ← attempt (root m)
    here ← attempt (p2pos m top)
    if here == target then ok [] else do
      found ← search_pos max_depth fuel m target top
      elim found [ none ↦ fail e_no_pos | some r ↦ ok r ]
