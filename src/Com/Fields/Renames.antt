-- ===== src/Com/Fields/Renames.antt =====
-- The methods of `CMsgField`, com/ComField.cpp, that take a child away, rename, move and retype it: where
-- the facade finds no item, they answer False.
use msg_facade.Prelude.{
  ℕ, ◌+◌, Bool, true, false, not, ◌&&◌, Option, none, some, ◌==◌, if◌then◌else◌, Text,
}
use msg_facade.Prelude.Int.{ℤ}
use msg_facade.HResult.{e_pointer, e_no_item, e_invalidarg}
use msg_facade.Outcome.{Outcome, ok, fail, diverge}
use msg_facade.Route.{Route, scope_child}
use msg_facade.Core.{Msgcore}
use msg_facade.Store.{Store}
use msg_facade.Node.{retype}
use msg_facade.Node.Restructure.{get_pos, delete_child, rename_child, move_child}
use msg_facade.Com.{Answer, answered, raised, unending}
use msg_facade.Com.Codes.{code, from_facade, c_closed, c_name, c_foreign, c_stale}
use msg_facade.Com.Collections.{check_name}
use msg_facade.Com.Cursor.{ComStore}
use msg_facade.Com.Fields.Edits.{byte_of}

module _ (core : Msgcore) where
  -- The end of such a method, with the count of mutations.
  unfoldable pub found_or_not :
      {A : Type 0} → ℕ → Outcome A × Store core → Answer Bool × ComStore core
  found_or_not n (ok a, s) = (answered true, record { held = some s; mutations = n + 1 })
  found_or_not n (fail e, s) = (
    if code e == code e_no_item then answered false else raised (from_facade (code e)),
    record { held = some s; mutations = n },
  )
  found_or_not n (diverge, s) = (unending, record { held = some s; mutations = n })

  attempt_in :
      {A : Type 0}
      → (ℕ → Store core → Answer A × ComStore core)
      → ℕ
      → Option (Store core)
      → Answer A × ComStore core
  attempt_in f n none = (raised c_closed, record { held = none; mutations = n })
  attempt_in f n (some s) = f n s

  -- `Bind`, then the rest of the method.
  unfoldable pub attempt_edit :
      {A : Type 0}
      → (ℕ → Store core → Answer A × ComStore core)
      → ComStore core
      → Answer A × ComStore core
  unfolding attempt_in
  attempt_edit f st = attempt_in f st.mutations st.held

  -- The method ends before a call of the facade.
  unfoldable pub ended_with : {A : Type 0} → Answer A → ℕ → Store core → Answer A × ComStore core
  ended_with a n s = (a, record { held = some s; mutations = n })

  unfoldable pub delete_of_field : Route → Text → ComStore core → Answer Bool × ComStore core
  delete_of_field r name =
      attempt_edit λ n s. found_or_not n (delete_child core r scope_child (some name) s)

  unfoldable pub rename_of_field : Route → Text → Text → ComStore core → Answer Bool × ComStore core
  rename_of_field r old new = attempt_edit λ n s.
      if check_name new
      then found_or_not n (rename_child core r scope_child (some old) (some new) s)
      else ended_with (raised c_name) n s

  retype_byte : Route → Text → Option ℕ → ℕ → Store core → Answer Bool × ComStore core
  retype_byte r name none n s = ended_with (raised (code e_invalidarg)) n s
  retype_byte r name (some t) n s = found_or_not n (retype core r scope_child (some name) t s)

  unfoldable pub retype_of_field : Route → Text → ℤ → ComStore core → Answer Bool × ComStore core
  unfolding retype_byte
  retype_of_field r name t = attempt_edit (retype_byte r name (byte_of core t))

  -- Both nodes have a position, and the same one.
  unfoldable pub same_place : Outcome ℕ → Outcome ℕ → Bool
  same_place (ok p) (ok q) = not (p == 0) && p == q
  same_place _ _ = false

  -- S_FALSE where the destination is the node itself: nothing is moved, nor counted. `none` stands for it.
  move_in : Route → Text → Route → ℕ → Store core → Answer (Option Bool) × ComStore core
  move_in r name to n s =
      if same_place (get_pos core s r true) (get_pos core s to true)
      then ended_with (answered none) n s
      else let (a, st) =
          found_or_not n (move_child core r scope_child (some name) (some (true, to)) s) in
        (
          elim a [
            | answered moved ↦ answered (some moved)
            | raised hr ↦ raised hr
            | unending ↦ unending
          ],
          st,
        )

  -- The destination: whether it is a field of this CMsgStore, and its node, if it has one.
  move_to :
      Route → Text → Bool × Option Route → ℕ → Store core → Answer (Option Bool) × ComStore core
  unfolding move_in
  move_to r name (false, to) n s = ended_with (raised c_foreign) n s
  move_to r name (true, none) n s = ended_with (raised c_stale) n s
  move_to r name (true, some to) n s = move_in r name to n s

  unfoldable pub move_of_field :
      Route
      → Text
      → Option (Bool × Option Route)
      → ComStore core
      → Answer (Option Bool) × ComStore core
  unfolding move_to
  move_of_field r name none st = (raised (code e_pointer), st)
  move_of_field r name (some destination) st = attempt_edit (move_to r name destination) st
