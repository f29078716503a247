-- ===== src/Example/TreeTests.antt =====
-- Concrete inputs for the paths, positions and callbacks of a store, and for the lifetime of the library.
use msg_facade.Prelude.{◌≡◌, refl, true, some, [], ◌∷◌, codes}
use msg_facade.Outcome.{ok}
use msg_facade.Route.{named}
use msg_facade.Store.{make_node}
use msg_facade.Store.Tree.{node_from_pos}
use msg_facade.Library.{Process, refs_of, add_ref, instantiate, acquire, release_ref, set_refs}
use msg_facade.Library.Singleton.{Reach, start, acquired, released, IsCounted, Reach-IsCounted}
use msg_facade.Example.{toy}
use msg_facade.Example.Tests.{a_store, opened, searched}

pub found_at : node_from_pos toy 10 a_store 11 true ≡ ok (named 0 (codes "A") ∷ [])
unfolding node_from_pos make_node
found_at = rw (opened, searched) refl

-- Acquired twice, and released once.
abbrev twice : Process
twice = record { instance_of = some 7; alive = (7, 1) ∷ []; fresh = 8 }

twice-Reach : Reach 1 twice
unfolding acquire instantiate add_ref refs_of set_refs release_ref
twice-Reach = released 7 2 refl (acquired (acquired (start 7)))

singleton_example : IsCounted 1 twice
singleton_example = Reach-IsCounted 1 twice twice-Reach
