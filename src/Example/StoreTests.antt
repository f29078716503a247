-- ===== src/Example/StoreTests.antt =====
-- Concrete inputs for the stores, fields, vects and events of the COM layer.
use msg_facade.Prelude.{
  ℕ, ◌+◌, ◌^◌, ◌≡◌, refl, ◌≢◌, inl, inr, true, false, none, some, List, [], ◌∷◌, ◌++◌, map, arith,
  codes, length, All, text_eq,
}
use mathlib.Core.List.{Sublist}
use msg_facade.Prelude.Int.{ℤ, pos}
use msg_facade.Types.{to_signed, to_unsigned}
use msg_facade.Outcome.{ok}
use msg_facade.Route.{Route, named, format_route, format_step, is_usable_name}
use msg_facade.Route.Parse.{IsNamed}
use msg_facade.Store.{
  open_store, resolve_object, resolve_from, resolve_step, resolve_child, find_child, scope_cursor,
}
use msg_facade.Store.Tree.{node_from_path}
use msg_facade.Node.Restructure.{get_pos}
use msg_facade.Cursor.{data_kind}
use msg_facade.Com.{answered, raised}
use msg_facade.Com.Codes.{c_closed, c_stale, c_no_field, c_range}
use msg_facade.Com.Values.{vt_small, vt_large, vt_empty, vt_bstr}
use msg_facade.Com.Cursor.{ComStore, ComCursor}
use msg_facade.Fn.Handles.{
  no_handles, take_out, put_in, reset_handle, construct, take_over, move_assign, handed_over, Life,
  no_life, constructs, move_assigns, resets,
}
use msg_facade.Fn.Handles.Once.{holders, times, Life-balanced}
use msg_facade.Com.Events.{StoreEvent, change, on_trigger, enqueue, pop_event, pop_from, fire_event}
use msg_facade.Com.Events.Dispatch.{
  Dispatch, Run, start, trigger, set_event, wake, take_one, go_on, begun, offered, popped, handed,
  after_pop, to_list, waits,
}
use msg_facade.Com.Events.Dispatch.Quiet.{Run-quiet}
use msg_facade.Com.Events.Dispatch.Account.{changes, drops, Run-accounted}
use msg_facade.Com.Events.Sinks.{
  no_sinks, advise, unadvise, register_sink, find_sink, set_sink, erase_sink,
}
use msg_facade.Com.Events.Sinks.Fresh.{
  Call, advises, unadvises, after_call, after_calls, IsGiven, unadvise-advise,
}
use msg_facade.Com.Fields.{
  field_value, field_text, field_type, field_type_name, field_time, field_count, field_is_kind,
  is_attributed, is_descendant, field_is_stacked, child_at, child_list, child_vect, field_is_null,
  field_path, field_name_of, field_pos, exists_child, child,
}
use msg_facade.Com.Fields.Edits.{
  put_value, put_text, put_time, touch, push_field, pop_field, drop_field, truncate_children,
}
use msg_facade.Com.Fields.Renames.{delete_of_field}
use msg_facade.Com.Fields.Stale.{IsGone, stale_lem}
use msg_facade.Com.Vects.{vect_item, elem_kind_is, vect_type_at, vect_name_at, remove_elem}
use msg_facade.Com.Vects.Past.{past_lem}
use msg_facade.Com.Vects.Split.{IsBelow}
use msg_facade.Com.Stores.{MsgStore, close_store, open_path, clear_store, rename_root, create_new}
use msg_facade.Com.Stores.Queries.{
  is_valid_store, file_name, root_name_of, is_dirty_store, size_of_store,
}
use msg_facade.Com.Stores.Nodes.{root_of, field_at, path_of}
use msg_facade.Com.Stores.Closed
use msg_facade.Com.Stores.Stale.{IsStaleAfter, mutations-grow}
use msg_facade.Com.Stores.Handed.{IsAt, reached, field_at-path_of, fire_lem}
use msg_facade.Example.{toy, on_a}
use msg_facade.Example.Tests.{a_store, opened, plain-IsNameUnit, root_is_field}
use msg_facade.Example.TreeTests.{found_at}
use msg_facade.Example.ContainerTests.{with_vect, vect_store, the_list, stored-IsVect}
use msg_facade.Example.ComTests.{conversions}

-- One change is pushed, the dispatch thread wakes, fires it, finds nothing more, and waits again.
abbrev heard : StoreEvent
heard = change 1 11 []

abbrev at_rest : Dispatch
at_rest = record {
  queue = record { waiting = []; dropped = 0 };
  signalled = false;
  coming = 0;
  quit = false;
  pc = waits;
}

rested : Run (heard ∷ []) (heard ∷ []) at_rest
unfolding begun offered enqueue on_trigger popped handed pop_event pop_from after_pop to_list
rested =
    go_on refl refl
      (take_one refl (take_one refl (wake refl refl (set_event 0 refl (trigger 1 11 start)))))

accounted_example :
    Sublist (changes ((heard ∷ []) ++ at_rest.queue.waiting)) (heard ∷ [])
    × (length (heard ∷ [])
        ≡ length (changes ((heard ∷ []) ++ at_rest.queue.waiting))
          + drops ((heard ∷ []) ++ at_rest.queue.waiting)
          + at_rest.queue.dropped)
accounted_example = Run-accounted rested

quiet_example : (at_rest.queue.waiting ≡ []) × (at_rest.queue.dropped ≡ 0) × (at_rest.quit ≡ false)
quiet_example = Run-quiet rested refl refl refl

abbrev two_calls : List Call
two_calls = advises (some (true, true)) (some (inr 7)) true ∷ unadvises 1 ∷ []

second_cookie :
    (advise (some (false, true)) (some (inr 8)) true (after_calls two_calls no_sinks)).0
    ≡ answered 2
unfolding advise register_sink unadvise find_sink set_sink erase_sink after_call after_calls
    no_sinks
second_cookie = refl

unadvise_example :
    IsGiven 2
      (after_calls two_calls no_sinks)
      (advise (some (false, true)) (some (inr 8)) true (after_calls two_calls no_sinks)).1
unadvise_example =
    unadvise-advise two_calls (some (false, true)) (some (inr 8)) true 2 (omega arith) second_cookie

abbrev at_a : Route
at_a = named 0 (codes "A") ∷ []

a-IsNamed : IsNamed toy.valid_itemname (named 0 (codes "A"))
unfolding is_usable_name
a-IsNamed = record { in_scope = inl refl; usable = refl; no_index = refl }

a_path_no_zero : All (λ c. c ≢ 0) (format_route at_a)
unfolding format_route format_step
a_path_no_zero = (omega arith, (omega arith, tt))

a-IsAt : IsAt toy 10 a_store 11 at_a
a-IsAt = record {
  root_field = root_is_field;
  units = plain-IsNameUnit;
  found = found_at;
  route = record { steps = (a-IsNamed, tt); depth = omega arith };
  no_zero = a_path_no_zero;
}

abbrev a_com_store : MsgStore toy
a_com_store = record {
  lib = some 7;
  held = some a_store;
  addr_mode = 0;
  initial_bytes = 0;
  max_bytes = 0;
  mutations = 2;
  paging_sink = none;
  apartment = 0;
}

same_pos : to_unsigned (2 ^ 64) (pos 11) ≡ 11
unfolding to_unsigned
same_pos = refl

field_at_example :
    (path_of toy 10 (pos 11) a_com_store ≡ answered (format_route at_a))
    × (field_at toy conversions 10 (vt_bstr (format_route at_a)) a_com_store ≡ answered at_a)
    × (get_pos toy a_store at_a true ≡ ok 11)
field_at_example =
    field_at-path_of toy 10 a_store 11 at_a a-IsAt conversions a_com_store (pos 11) refl same_pos

abbrev a_held : ComStore toy
a_held = record { held = some a_store; mutations = 2 }

abbrev one_sink : List (ℕ × ℕ)
one_sink = (1, 7) ∷ []

fire_example :
    (fire_event toy 10 (some (λ git. some git)) a_held one_sink (on_trigger 1 11)
      ≡ ok (
          map
            (λ sink. (
              sink,
              (
                1,
                vt_bstr (format_route at_a)
                    ∷ vt_large (to_signed (2 ^ 64) 11)
                    ∷ vt_small (to_signed (2 ^ 32) 1)
                    ∷ [],
              ),
            ))
            (reached (λ git. some git) (map (λ (cookie, git). git) one_sink))))
    × (node_from_path toy a_store (some (format_route at_a)) true ≡ ok at_a)
    × (get_pos toy a_store at_a true ≡ ok 11)
fire_example =
    fire_lem toy 10 a_store 11 at_a a-IsAt a_held (λ git. some git) one_sink 1 refl (omega arith)

abbrev some_calls : List (Closed.Call toy conversions (λ v. none) 10)
some_calls = Closed.Call.clears ∷ Closed.Call.dirties true ∷ []

closed_calls_example :
    (Closed.call toy conversions
        (λ v. none)
        10
        Closed.Call.clears
        (Closed.calls toy conversions (λ v. none) 10 some_calls (close_store toy a_com_store).1)
      ≡ (raised c_closed, (close_store toy a_com_store).1))
    × (is_valid_store toy
          (Closed.calls toy conversions (λ v. none) 10 some_calls (close_store toy a_com_store).1)
        ≡ answered false)
    × (root_of toy
          (Closed.calls toy conversions (λ v. none) 10 some_calls (close_store toy a_com_store).1)
        ≡ raised c_closed)
    × (field_at toy conversions 10
          (vt_small (pos 11))
          (Closed.calls toy conversions (λ v. none) 10 some_calls (close_store toy a_com_store).1)
        ≡ raised c_closed)
    × (path_of toy 10
          (pos 11)
          (Closed.calls toy conversions (λ v. none) 10 some_calls (close_store toy a_com_store).1)
        ≡ raised c_closed)
    × (file_name toy
          (Closed.calls toy conversions (λ v. none) 10 some_calls (close_store toy a_com_store).1)
        ≡ raised c_closed)
    × (root_name_of toy
          (Closed.calls toy conversions (λ v. none) 10 some_calls (close_store toy a_com_store).1)
        ≡ raised c_closed)
    × (is_dirty_store toy
          (Closed.calls toy conversions (λ v. none) 10 some_calls (close_store toy a_com_store).1)
        ≡ raised c_closed)
    × (size_of_store toy
          (Closed.calls toy conversions (λ v. none) 10 some_calls (close_store toy a_com_store).1)
        ≡ raised c_closed)
unfolding Closed.shut
closed_calls_example =
    Closed.calls-close toy conversions (λ v. none) 10 a_com_store some_calls Closed.Call.clears
      (vt_small (pos 11)) (pos 11)

abbrev a_com_cursor : ComCursor toy
a_com_cursor = record { owner = []; scope = 0; curs = on_a; seq = 2; index = 0 }

mutations_example :
    IsStaleAfter toy a_com_cursor (open_path toy 0 (codes "f") a_com_store)
    × IsStaleAfter toy a_com_cursor (clear_store toy a_com_store)
    × IsStaleAfter toy a_com_cursor (rename_root toy (codes "f") a_com_store)
    × IsStaleAfter toy a_com_cursor (create_new toy (pos 2) (pos 0) (pos 0) a_com_store)
mutations_example =
    mutations-grow toy a_com_store a_com_cursor 0 (codes "f") (pos 2) (pos 0) (pos 0) (omega arith)

abbrev at_b : Route
at_b = named 0 (codes "B") ∷ []

b-IsGone : IsGone toy a_held a_store at_b
unfolding open_store resolve_object resolve_from resolve_step resolve_child find_child scope_cursor
    text_eq
b-IsGone = record { m = pos 5; held = refl; opened = refl; gone = refl }

stale_example :
    ((field_value toy at_b a_held ≡ raised c_stale)
      × (field_text toy conversions at_b a_held ≡ raised c_stale)
      × (field_type toy at_b a_held ≡ raised c_stale)
      × (field_type_name toy true at_b a_held ≡ raised c_stale)
      × (field_is_null toy at_b a_held ≡ raised c_stale)
      × (field_path toy at_b a_held ≡ raised c_stale)
      × (field_name_of toy at_b a_held ≡ raised c_stale)
      × (field_pos toy at_b a_held ≡ raised c_stale)
      × (field_time toy (λ (t : ℤ). t) at_b a_held ≡ raised c_stale)
      × (field_count toy at_b a_held ≡ raised c_stale)
      × (field_is_kind toy data_kind at_b a_held ≡ raised c_stale)
      × (is_attributed toy at_b a_held ≡ raised c_stale)
      × (is_descendant toy at_b a_held ≡ raised c_stale)
      × (field_is_stacked toy at_b a_held ≡ raised c_stale))
    × ((put_value toy conversions at_b (vt_small (pos 1)) a_held ≡ (raised c_stale, a_held))
        × (put_text toy at_b (codes "t") a_held ≡ (raised c_stale, a_held))
        × (put_time toy (λ (t : ℤ). t) at_b (pos 9) a_held ≡ (raised c_stale, a_held))
        × (touch toy at_b a_held ≡ (raised c_stale, a_held))
        × (push_field toy at_b a_held ≡ (raised c_stale, a_held))
        × (pop_field toy at_b a_held ≡ (raised c_stale, a_held))
        × (drop_field toy at_b a_held ≡ (raised c_stale, a_held))
        × (truncate_children toy at_b a_held ≡ (raised c_stale, a_held)))
    × ((child toy (codes "C") at_b a_held ≡ raised c_no_field)
        × (child_at toy (pos 0) at_b a_held ≡ raised c_no_field)
        × (child_list toy (codes "C") at_b a_held ≡ raised c_no_field)
        × (child_vect toy (codes "C") at_b a_held ≡ raised c_no_field)
        × (exists_child toy (codes "C") at_b a_held ≡ raised c_stale)
        × (delete_of_field toy at_b (codes "C") a_held ≡ (answered false, a_held)))
stale_example =
    stale_lem toy a_held a_store at_b b-IsGone (λ t. t) (λ t. t) conversions (vt_small (pos 1)) true
      data_kind (codes "t") (codes "C") (pos 9) 0

vect_opened : open_store with_vect vect_store ≡ ok (pos 5)
unfolding open_store
vect_opened = refl

past_example :
    (vect_item with_vect vect_store the_list (pos 2) ≡ answered vt_empty)
    × (elem_kind_is with_vect data_kind vect_store the_list (pos 2) ≡ raised c_range)
    × (vect_type_at with_vect vect_store the_list (pos 2) ≡ raised c_range)
    × (vect_name_at with_vect vect_store the_list (pos 2) ≡ raised c_range)
    × (remove_elem with_vect the_list (pos 2) (vect_store, 4) ≡ (answered false, (vect_store, 4)))
past_example =
    past_lem with_vect vect_store the_list (pos 5) 2 2 2 vect_opened stored-IsVect (omega arith)
      (omega arith) (omega arith) 4 data_kind

abbrev at_l : Route
at_l = named 0 (codes "L") ∷ []

l_there : resolve_object toy a_store at_l ≡ ok 2
unfolding resolve_object resolve_from resolve_step open_store resolve_child find_child scope_cursor
    text_eq
l_there = refl

l-IsNamed : IsNamed toy.valid_itemname (named 0 (codes "L"))
unfolding is_usable_name
l-IsNamed = record { in_scope = inl refl; usable = refl; no_index = refl }

l_path_no_zero : All (λ c. c ≢ 0) (format_route at_l)
unfolding format_route format_step
l_path_no_zero = (omega arith, (omega arith, tt))

abbrev below_l : IsBelow toy a_store [] (named 0 (codes "L"))
below_l = record {
  m = pos 5;
  o = 2;
  units = plain-IsNameUnit;
  opened = opened;
  there = l_there;
  parent = record { steps = tt; depth = omega arith };
  named = l-IsNamed;
  depth = omega arith;
  no_zero = l_path_no_zero;
}

-- Two handles, of which the one with 8 is moved over the one with 7 and then reset.
moved-Life :
    Life
      (8 ∷ 7 ∷ [])
      (reset_handle 1 (move_assign 1 0 (construct (some 8) (construct (some 7) no_handles))))
unfolding construct no_handles move_assign take_over reset_handle take_out put_in handed_over
moved-Life = resets 1 (omega arith) (
    move_assigns 1 0 (omega arith) (omega arith)
      (constructs (some 8) (constructs (some 7) no_life)))

balanced_example :
    times 7 (8 ∷ 7 ∷ [])
    ≡ holders 7
        (reset_handle 1
          (move_assign 1 0 (construct (some 8) (construct (some 7) no_handles)))).slots
      + times 7
          (reset_handle 1
            (move_assign 1 0 (construct (some 8) (construct (some 7) no_handles)))).released
balanced_example = Life-balanced 7 moved-Life
