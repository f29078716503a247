-- ===== src/Store/Tree/Paths.antt =====
-- Paths and positions that are handed out and handed back: NodeFromPath, GetPath, NodeFromPos and GetPos
-- together, over the parser, the printer, the resolver and the search.
use msg_facade.Prelude.{ℕ, ◌≡◌, refl, ◌⊎◌, true, Option, none, some, List, arith, Text, All}
use msg_facade.HResult.{s_ok, failed}
use msg_facade.CopyOut.{copy_out}
use msg_facade.Outcome.{ok, >>=-eq-ok}
use msg_facade.Route.{Route, Parsed, format_route}
use msg_facade.Route.Parse.{IsRoute}
use msg_facade.Route.Format.{IsNameUnit, parse_route-format_route}
use msg_facade.Core.{Msgcore}
use msg_facade.Store.{Store, open_store, make_node, resolve_object}
use msg_facade.Store.Resolve.{open_store-eq-ok}
use msg_facade.Store.Search.{route_of_pos}
use msg_facade.Store.Search.Sound.{route_of_pos_sound}
use msg_facade.Store.Tree.{parsed_route, node_from_path, node_from_pos}
use msg_facade.Node.{get_path}
use msg_facade.Node.Restructure.{get_pos}

-- The codes of ParseRoute: S_OK, or a failure.
abbrev IsCode : Option Parsed → Type 0
IsCode none = Unit {0}
IsCode (some p) = (p.hr ≡ s_ok) ⊎ (failed p.hr ≡ true)

pub make_node-eq-ok : (r q : Route) → make_node r ≡ ok q → r ≡ q
unfolding make_node
make_node-eq-ok r q h = ground arith

module _ (core : Msgcore) where
  pub get_path-format_route :
      (s : Store core) (m : core.Mgr) (r : Route) (o : core.Object) (buf : Option (List ℕ))
      (cch : Option ℕ)
      → open_store core s ≡ ok m
      → resolve_object core s r ≡ ok o
      → get_path core s r buf cch ≡ copy_out (some (format_route r)) buf cch
  unfolding get_path
  get_path-format_route s m r o buf cch opened there = rw (opened, there) refl

  -- A route of usable names that resolves in an open store is the node that NodeFromPath makes from its
  -- path, if the core admits no name with '.' or '@'.
  pub node_from_path-format_route :
      (s : Store core) (m : core.Mgr) (r : Route) (o : core.Object)
      → ((n : Text) → core.valid_itemname n ≡ true → All IsNameUnit n)
      → open_store core s ≡ ok m
      → IsRoute core.valid_itemname r
      → resolve_object core s r ≡ ok o
      → node_from_path core s (some (format_route r)) true ≡ ok r
  unfolding node_from_path parsed_route make_node
  node_from_path-format_route s m r o units opened named_well there =
      rw (opened, parse_route-format_route core.valid_itemname units r named_well, there)
        (ground (arith, named_well.depth))

  owner : {m n : core.Mgr} {held : Option core.Mgr} → held ≡ some m → held ≡ some n → n ≡ m
  owner h k = cc

  get_pos_at :
      (s : Store core) (m : core.Mgr) (r : Route) (o : core.Object) (target : ℕ)
      → open_store core s ≡ ok m
      → resolve_object core s r ≡ ok o
      → core.p2pos m o ≡ some target
      → get_pos core s r true ≡ ok target
  unfolding get_pos
  get_pos_at s m r o target opened there here = rw (opened, there) (rw here refl)

  -- What a node that NodeFromPos makes resolves to.
  pub node_from_pos-eq-ok :
      (fuel : ℕ) (s : Store core) (target : ℕ) (r : Route)
      → ((m : core.Mgr) (top : core.Object)
          → s.mgr ≡ some m
          → core.root m ≡ some top
          → core.is_field m top ≡ some true)
      → node_from_pos core fuel s target true ≡ ok r
      → (m : core.Mgr) × (o : core.Object) × (open_store core s ≡ ok m)
        × (resolve_object core s r ≡ ok o)
        × (core.p2pos m o ≡ some target)
  unfolding node_from_pos
  node_from_pos-eq-ok fuel s target r field h =
      let (m, opened, h₁) = >>=-eq-ok (open_store core s) _ h in
      let (q, found, h₂) = >>=-eq-ok (route_of_pos core fuel s target) _ h₁ in
      let same = make_node-eq-ok q r h₂ in
      let (n, o, owned, there, here) = route_of_pos_sound core fuel s target q field found in
      let (_, mine) = open_store-eq-ok core s m opened in
      rw (← same) (n, o, rw (owner mine owned) opened, there, here)

  -- If the root of the store is a field, as it is for every manager, then a node that NodeFromPos makes
  -- is at the position that was given: GetPos answers it.
  pub get_pos-node_from_pos :
      (fuel : ℕ) (s : Store core) (target : ℕ) (r : Route)
      → ((m : core.Mgr) (top : core.Object)
          → s.mgr ≡ some m
          → core.root m ≡ some top
          → core.is_field m top ≡ some true)
      → node_from_pos core fuel s target true ≡ ok r
      → get_pos core s r true ≡ ok target
  get_pos-node_from_pos fuel s target r field h =
      let (m, o, opened, there, here) = node_from_pos-eq-ok fuel s target r field h in
      get_pos_at s m r o target opened there here
