-- ===== src/Example/Tests.antt =====
-- Concrete inputs for the properties, on the instance of the core that `Example` defines.
use msg_facade.Prelude.{
  ℕ, zero, suc, ◌+◌, ◌≤◌, ◌<◌, ◌≡◌, refl, ◌≢◌, ◌↔◌, ◌⊎◌, inl, true, false, none, some, List, [],
  ◌∷◌, ◌++◌, arith, Text, codes, length, All, text_eq,
}
use msg_facade.Prelude.Int.{ℤ, pos, negsuc}
use msg_facade.HResult.{e_closed, s_ok, s_false}
use msg_facade.CopyOut.{copy_out}
use msg_facade.CopyOut.Protocol.{two_calls, text_at, size_of, two_calls_lem, copy_out-size_of}
use msg_facade.Types.{is_int_type, int16, int_fits, cast_int, type_to_name, type_from_name}
use msg_facade.Types.Casts.{int_fits-iff-cast_int}
use msg_facade.Types.Names.{type_from_name-type_to_name}
use msg_facade.Guid.{Guid, is_space, parse_guid, format_guid}
use msg_facade.Guid.RoundTrip.{IsGuid}
use msg_facade.Guid.Trim.{IsSpace, enclose, parse_guid-format_guid}
use msg_facade.Route.{
  parse_loop, take_name, scope_of, is_usable_name, named, max_depth, parse_route, format_route,
}
use msg_facade.Route.Parse.{IsRoute, parse_route-ne-none, format_route-parse_route}
use msg_facade.Route.Format.{IsNameUnit, parse_route-format_route}
use msg_facade.Outcome.{ok, fail}
use msg_facade.Store.{
  Store, resolve_step, resolve_child, find_child, open_store, resolve_field, scope_cursor,
  resolve_object, resolve_from,
}
use msg_facade.Store.Search.{
  route_of_pos, search_pos, search_names, search_child, collect_names, collect_loop, curs_at_end,
}
use msg_facade.Store.Search.Sound.{route_of_pos_sound}
use msg_facade.Cursor.{FacadeCursor, next}
use msg_facade.Cursor.Moves.{next_lem}
use msg_facade.Walker
use msg_facade.Walker.{
  Level, push, pop, on_levels, push_levels, push_open, FacadeWalker, make_walker, depth,
}
use msg_facade.Walker.Standing.{push_lem}
use msg_facade.Walker.Depth.{call_next, call_push, call_pop, after_all, depth_bounded}
use msg_facade.Store.Life.{close}
use msg_facade.Store.Life.Closed.{
  Method, m_save, m_clear, m_paging, m_push, m_pop, run, IsShut, run-close,
}
use msg_facade.Node.{is_public_scope}
use msg_facade.Node.Refused.{IsField, IsTaken}
use msg_facade.Core.{Msgcore}
use msg_facade.Example.{place_index, place_size, on_a, on_l, plain, toy, toy_positions}

two_calls_example :
    ((two_calls (codes "AB") 0 (λ n. 7 ∷ 7 ∷ 7 ∷ [])).hr ≡ s_ok)
    × ((two_calls (codes "AB") 0 (λ n. 7 ∷ 7 ∷ 7 ∷ [])).size ≡ some 3)
    × (text_at (two_calls (codes "AB") 0 (λ n. 7 ∷ 7 ∷ 7 ∷ [])).buf ≡ some (codes "AB"))
two_calls_example =
    two_calls_lem (codes "AB") 0 (λ n. 7 ∷ 7 ∷ 7 ∷ []) (omega arith)
      (omega arith, (omega arith, tt))

copy_out-size_of_example :
    size_of (copy_out (some (codes "A")) (some (7 ∷ 7 ∷ 7 ∷ [])) (some 2)).buf ≡ 3
copy_out-size_of_example =
    copy_out-size_of (codes "A") (some (7 ∷ 7 ∷ 7 ∷ [])) 2 (omega arith) (omega arith)

int_fits_example :
    (int_fits (negsuc 32767) int16 ≡ true) ↔ (cast_int int16 (negsuc 32767) ≡ negsuc 32767)
unfolding is_int_type
int_fits_example = int_fits-iff-cast_int int16 (negsuc 32767) refl (omega arith) (omega arith)

type_name_example :
    (type_from_name (some (type_to_name int16)) ≡ int16)
    ⊎ ((type_to_name int16 ≡ codes "UNKNOWN") × (type_from_name (some (type_to_name int16)) ≡ 0xFF))
type_name_example = type_from_name-type_to_name int16

abbrev some_guid : Guid
some_guid = record {
  data1 = 0x12AB;
  data2 = 1;
  data3 = 0xFFFF;
  data4 = 0 ∷ 1 ∷ 2 ∷ 3 ∷ 4 ∷ 5 ∷ 6 ∷ 255 ∷ [];
}

some_guid-IsGuid : IsGuid some_guid
some_guid-IsGuid = record {
  data1_fits = omega arith;
  data2_fits = omega arith;
  data3_fits = omega arith;
  data4_length = refl;
  data4_fits = omega arith;
}

one-IsSpace : All IsSpace (b' ' ∷ [])
unfolding is_space
one-IsSpace = (refl, tt)

guid_example :
    parse_guid (some ((b' ' ∷ []) ++ (enclose true (format_guid some_guid) ++ (b' ' ∷ []))))
    ≡ some some_guid
guid_example =
    parse_guid-format_guid some_guid (b' ' ∷ []) (b' ' ∷ []) true some_guid-IsGuid one-IsSpace
      one-IsSpace

path_example :
    IsRoute plain (named 0 (codes "A") ∷ named 1 (codes "b") ∷ [])
    × (format_route (named 0 (codes "A") ∷ named 1 (codes "b") ∷ []) ≡ codes ".A@b")
unfolding parse_route parse_loop take_name scope_of is_usable_name
path_example =
    format_route-parse_route plain (codes ".A@b") (named 0 (codes "A") ∷ named 1 (codes "b") ∷ [])
      refl

total_example : parse_route plain (some (codes ".A@")) ≢ none
total_example = parse_route-ne-none plain (some (codes ".A@"))

pub plain-IsNameUnit : (n : Text) → plain n ≡ true → All IsNameUnit n
plain-IsNameUnit [] h = tt
plain-IsNameUnit (c ∷ n) h = ground (arith, plain-IsNameUnit n)

route_example :
    parse_route plain (some (format_route (named 0 (codes "A") ∷ [])))
    ≡ some (record { hr = s_ok; out = named 0 (codes "A") ∷ [] })
route_example = parse_route-format_route plain plain-IsNameUnit (named 0 (codes "A") ∷ []) (record {
  steps =
      (record { in_scope = inl refl; usable = unfold is_usable_name in refl; no_index = refl }, tt);
  depth = omega arith;
})

abbrev pub a_store : Store toy
a_store = record {
  mgr = some (pos 5);
  addr = 0;
  initial = 0;
  max = 0;
  file = [];
  refs = 1;
  closed = false;
  events = none;
  paging = none;
  pushed = 0;
}

pub root_is_field :
    (m : ℤ) (top : ℕ)
    → a_store.mgr ≡ some m
    → toy.root m ≡ some top
    → toy.is_field m top ≡ some true
root_is_field m zero h k = refl
root_is_field m (suc n) h k = cc

pub searched : route_of_pos toy 10 a_store 11 ≡ ok (named 0 (codes "A") ∷ [])
unfolding route_of_pos search_pos search_names search_child collect_names collect_loop curs_at_end
    open_store find_child scope_cursor text_eq
searched = refl

pos_example :
    (m : ℤ) × (object : ℕ) × (a_store.mgr ≡ some m)
    × (resolve_object toy a_store (named 0 (codes "A") ∷ []) ≡ ok object)
    × (some (object + 10) ≡ some 11)
pos_example = route_of_pos_sound toy 10 a_store 11 (named 0 (codes "A") ∷ []) root_is_field searched

abbrev a_cursor : FacadeCursor toy
a_cursor = record { store = a_store; owner = []; scope = 0; curs = on_l }

pub opened : open_store toy a_store ≡ ok (pos 5)
unfolding open_store
opened = refl

next_example :
    ((next toy a_cursor).0 ≡ ok s_false)
    × (place_index (next toy a_cursor).1.curs ≡ 2)
    × (place_size (next toy a_cursor).1.curs ≡ 2)
unfolding toy_positions
next_example = next_lem toy (pos 5) (toy_positions (pos 5)) a_cursor opened

abbrev pub a_walker : FacadeWalker toy
a_walker = record {
  store = a_store;
  owner = [];
  scope = 0;
  levels = record { curs = on_a; fresh = false } ∷ [];
}

made : make_walker toy a_store [] 0 ≡ ok a_walker
unfolding make_walker open_store resolve_field resolve_object resolve_from scope_cursor
made = refl

depth_example :
    (0 < length (after_all toy (call_push ∷ call_next ∷ call_pop ∷ call_pop ∷ []) a_walker).levels)
    × (depth toy (after_all toy (call_push ∷ call_next ∷ call_pop ∷ call_pop ∷ []) a_walker)
        ≤ max_depth)
depth_example =
    depth_bounded toy a_store [] 0 a_walker (call_push ∷ call_next ∷ call_pop ∷ call_pop ∷ []) made

abbrev pub some_calls : List (ℕ × Method)
some_calls =
    (0, m_paging (some 1))
    ∷ (0, m_push)
    ∷ (0, m_push)
    ∷ (0, m_save none true)
    ∷ (0, m_clear)
    ∷ (0, m_pop)
    ∷ []

closed_example :
    ((run toy some_calls (close toy a_store)).1 ≡ close toy a_store)
    × All (λ r. r ≡ fail e_closed) (run toy some_calls (close toy a_store)).0
    × IsShut toy 10
        (run toy some_calls (close toy a_store)).1
        (some (9 ∷ 9 ∷ []))
        (some 2)
        (some (codes ".A"))
        11
        true
closed_example =
    run-close toy a_store some_calls 10 (some (9 ∷ 9 ∷ [])) (some 2) (some (codes ".A")) 11 true

-- A store with a paging sink, and calls that keep what a PushPaging has saved.
abbrev paged_store : Store toy
paged_store = record a_store { paging = some 1 }

abbrev keeping_calls : List (ℕ × Method)
keeping_calls = (0, m_push) ∷ (0, m_paging (some 2)) ∷ (0, m_save none true) ∷ []

pub root-IsField : IsField toy a_store [] (pos 5) 0
unfolding open_store resolve_field resolve_object resolve_from
root-IsField = record { opened = refl; resolved = refl }

pub child-IsField : IsField toy a_store (named 0 (codes "A") ∷ []) (pos 5) 1
unfolding open_store resolve_field resolve_object resolve_from resolve_step resolve_child find_child
    scope_cursor text_eq
child-IsField = record { opened = refl; resolved = refl }

pub a-IsTaken : IsTaken toy (pos 5) 0 0 (codes "A")
unfolding is_public_scope is_usable_name scope_cursor text_eq
a-IsTaken = record { public = refl; usable = refl; curs = on_a; seated = refl; found = refl }

-- A core in which every item holds the children of the root again, so that a walk can go down.
abbrev nested : Msgcore
nested = record toy { cursor_child = λ m o. some on_a }

abbrev nested_walk : FacadeWalker nested
nested_walk = record {
  store = record {
    mgr = some (pos 5);
    addr = 0;
    initial = 0;
    max = 0;
    file = [];
    refs = 1;
    closed = false;
    events = none;
    paging = none;
    pushed = 0;
  };
  owner = [];
  scope = 0;
  levels = record { curs = on_a; fresh = false } ∷ [];
}

abbrev two_levels : List (Level nested)
two_levels = record { curs = on_a; fresh = true } ∷ record { curs = on_a; fresh = false } ∷ []

nested_opened : open_store nested nested_walk.store ≡ ok (pos 5)
unfolding open_store
nested_opened = refl

walked_down : push nested nested_walk ≡ (ok s_ok, record nested_walk { levels = two_levels })
unfolding push on_levels push_levels push_open open_store curs_at_end
walked_down = refl

push_example :
    (pop nested (record nested_walk { levels = two_levels }) ≡ (ok s_ok, nested_walk))
    × ((Walker.next nested (record nested_walk { levels = two_levels })).0 ≡ ok s_ok)
    × (depth nested (Walker.next nested (record nested_walk { levels = two_levels })).1
        ≡ depth nested nested_walk + 1)
push_example = push_lem nested nested_walk (pos 5) two_levels nested_opened walked_down
