-- ===== src/Example/ContainerTests.antt =====
-- Concrete inputs for lists and vects: the list of the small core, and a core with a vect.
use msg_facade.Prelude.{
  ℕ, ◌^◌, ◌≤◌, ◌<◌, ◌≡◌, refl, ◌≢◌, ◌↔◌, true, false, none, some, [], ◌∷◌, arith, ◌==◌, codes,
  text_eq,
}
use msg_facade.Prelude.Int.{pos}
use msg_facade.HResult.{e_range}
use msg_facade.CopyOut.{answer}
use msg_facade.Types.{int32}
use msg_facade.Outcome.{ok, fail}
use msg_facade.Route.{Route, named}
use msg_facade.Core.{Msgcore}
use msg_facade.Store.{
  Store, open_store, resolve_object, resolve_from, resolve_step, resolve_child, find_child,
  scope_cursor,
}
use msg_facade.Values.{read_int, read_real, read_text}
use msg_facade.Container.Lists
use msg_facade.Container.Lists.{list_of}
use msg_facade.Container.Lists.Chain.{IsList, get_at_lem}
use msg_facade.Container.Lists.Probe.{probe, probe_lem}
use msg_facade.Container.Vects.{vect_of, elem_of}
use msg_facade.Container.Vects.Index.{IsVect, elem_of-range}
use msg_facade.Example.{toy}
use msg_facade.Example.Tests.{a_store}

abbrev pub the_list : Route
the_list = named 0 (codes "L") ∷ []

ne_zero : (n : ℕ) → 0 < n → n ≢ 0
ne_zero n h e = omega arith

stored-IsList : IsList toy a_store the_list (pos 5) 2 (1 ∷ 1 ∷ [])
unfolding open_store list_of resolve_object resolve_from resolve_step resolve_child find_child
    scope_cursor text_eq
stored-IsList = record {
  opened = refl;
  listed = refl;
  head = 20;
  starts = refl;
  chain = (21, ne_zero 20 (omega arith), refl, (0, ne_zero 21 (omega arith), refl, refl));
}

get_at_example :
    (Lists.get_int_at toy a_store the_list 1 true ≡ read_int toy (pos 5) 1 true)
    × (Lists.get_real_at toy a_store the_list 1 true ≡ read_real toy (pos 5) 1 true)
    × (Lists.get_text_at toy a_store the_list 1 none (some 0)
        ≡ answer none (some 0) (ok (read_text toy (pos 5) 1 none (some 0))))
get_at_example =
    get_at_lem toy a_store the_list (pos 5) 2 (1 ∷ 1 ∷ []) 1 true none (some 0) stored-IsList

probe_example : probe toy a_store the_list 3 0 ≡ ok (int32 ∷ int32 ∷ [])
probe_example =
    probe_lem toy a_store the_list (pos 5) 2 (1 ∷ 1 ∷ []) (int32 ∷ int32 ∷ []) 3 stored-IsList
      (refl, ne_zero int32 (omega arith), (refl, ne_zero int32 (omega arith), tt)) (omega arith)

-- The same core, with a vect of two elements at L.
abbrev pub with_vect : Msgcore
with_vect = record toy {
  is_list = λ m o. some false;
  is_vect = λ m o. some (o == 2);
  vect_count = λ m o. some (pos 2);
}

abbrev pub vect_store : Store with_vect
vect_store = record {
  mgr = some (pos 5);
  addr = 0;
  initial = 0;
  max = 0;
  file = [];
  refs = 1;
  closed = false;
  events = none;
  paging = none;
  pushed = 0;
}

pub stored-IsVect : IsVect with_vect vect_store the_list (pos 5) 2 2
unfolding open_store vect_of resolve_object resolve_from resolve_step resolve_child find_child
    scope_cursor text_eq
stored-IsVect = record { found = refl; counted = refl }

elem_of_example :
    (elem_of with_vect vect_store the_list (2 ^ 31) ≡ fail e_range)
    ↔ ((2 ≤ 2 ^ 31) × (2 ^ 31 < 2 ^ 31))
elem_of_example =
    elem_of-range with_vect vect_store the_list (pos 5) 2 2 (2 ^ 31) stored-IsVect (omega arith)
      (omega arith)
