-- ===== src/Store/Tree.antt =====
-- How a client gets into the tree: GetRoot, NodeFromPath and NodeFromPos of src/FacadeStore.cpp.
pub mod Paths
use msg_facade.Prelude.{ℕ, Bool, Option, none, some, [], if◌then◌else◌, Text}
use msg_facade.HResult.{failed, e_pointer}
use msg_facade.Outcome.{Outcome, ok, fail, diverge, guard, ◌>>=◌, ◌>>◌}
use msg_facade.Route.{Route, Parsed, parse_route}
use msg_facade.Core.{Msgcore}
use msg_facade.Store.{Store, open_store, make_node, resolve_object}
use msg_facade.Store.Search.{route_of_pos}

-- What the source makes of the code that ParseRoute returns.
unfoldable pub parsed_route : Option Parsed → Outcome Route
parsed_route none = diverge
parsed_route (some p) = if failed p.hr then fail p.hr else ok p.out

module _ (core : Msgcore) where
  open core use {valid_itemname}

  unfoldable pub get_root : Store core → Bool → Outcome Route
  get_root s out = do opened ← open_store core s; guard out e_pointer; make_node []

  unfoldable pub node_from_path : Store core → Option Text → Bool → Outcome Route
  node_from_path s path out = do
    opened ← open_store core s
    guard out e_pointer
    r ← parsed_route (parse_route valid_itemname path)
    o ← resolve_object core s r
    make_node r

  -- The fuel is that of the position search.
  unfoldable pub node_from_pos : ℕ → Store core → ℕ → Bool → Outcome Route
  node_from_pos fuel s target out = do
    opened ← open_store core s
    guard out e_pointer
    r ← route_of_pos core fuel s target
    make_node r
