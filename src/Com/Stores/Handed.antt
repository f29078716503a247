-- ===== src/Com/Stores/Handed.antt =====
-- The paths that PathOf of com/ComStore.cpp, and the event path, hand out.
use msg_facade.Prelude.{
  ℕ, ◌^◌, ◌≡◌, refl, ap, ◌∙◌, ◌≢◌, inl, inr, true, Option, none, some, List, [], ◌∷◌, map, arith,
  ne→==_false, Option-cases, Text, All,
}
use mathlib.Core.Path.{fun_ext}
use msg_facade.Prelude.Int.{ℤ}
use msg_facade.Types.{to_unsigned, to_signed}
use msg_facade.Outcome.{ok}
use msg_facade.Route.{Route, format_route}
use msg_facade.Route.Parse.{IsRoute}
use msg_facade.Route.Format.{IsNameUnit, format_route-length}
use msg_facade.Core.{Msgcore}
use msg_facade.Store.{Store, open_store, resolve_object}
use msg_facade.Store.Tree.{node_from_path, node_from_pos}
use msg_facade.Store.Tree.Paths.{
  get_pos-node_from_pos, node_from_path-format_route, get_path-format_route, node_from_pos-eq-ok,
}
use msg_facade.Node.{get_path}
use msg_facade.Node.Restructure.{get_pos}
use msg_facade.Com.{answered}
use msg_facade.Com.Strings.{read_string, read_string-copy_out}
use msg_facade.Com.Values.{vt_bstr, Conversions, vt_large, vt_small}
use msg_facade.Com.Cursor.{ComStore}
use msg_facade.Com.Events.{
  path_of_pos, path_for, or_no_path, on_trigger, arguments, invoke, fire_event,
}
use msg_facade.Com.Stores.{MsgStore}
use msg_facade.Com.Stores.Nodes.{field_at, node_at, path_of}

-- The sinks that the table gives for its cookies, in their order.
abbrev pub reached : (ℕ → Option ℕ) → List ℕ → List ℕ
reached fetch [] = []
reached fetch (git ∷ gits) =
    let rest = reached fetch gits in elim (fetch git) [ none ↦ rest | some sink ↦ sink ∷ rest ]

module _ (core : Msgcore) where
  invoke-map :
      {A : Type 0} (fetch : ℕ → Option ℕ) (gits : List ℕ) (a : A)
      → invoke core fetch gits a ≡ map (λ sink. (sink, a)) (reached fetch gits)
  unfolding invoke
  invoke-map fetch [] a = refl
  invoke-map fetch (git ∷ gits) a = elim (Option-cases (fetch git)) [
    | inl e ↦ rw (e, invoke, reached) (invoke-map fetch gits a)
    | inr (sink, e) ↦
        rw (e, invoke, reached) (ap (λ calls. (sink, a) ∷ calls) (invoke-map fetch gits a))
  ]

  -- A position of the store where the search finds a node: the root of the store is a field, as it is for
  -- every manager, the core admits no name with '.' or '@', the route has usable names, and no name has a
  -- NUL in it.
  pub record IsAt (fuel : ℕ) (s : Store core) (target : ℕ) (r : Route) : Type 0 where
    pub root_field :
        (m : core.Mgr) (top : core.Object)
        → s.mgr ≡ some m
        → core.root m ≡ some top
        → core.is_field m top ≡ some true
    pub units : (n : Text) → core.valid_itemname n ≡ true → All IsNameUnit n
    pub found : node_from_pos core fuel s target true ≡ ok r
    pub route : IsRoute core.valid_itemname r
    pub no_zero : All (λ c. c ≢ 0) (format_route r)

  -- GetPath of a node that is there, by the two calls of ReadString.
  pub read_string-get_path :
      (s : Store core) (m : core.Mgr) (r : Route) (o : core.Object)
      → ((n : Text) → core.valid_itemname n ≡ true → All IsNameUnit n)
      → open_store core s ≡ ok m
      → resolve_object core s r ≡ ok o
      → IsRoute core.valid_itemname r
      → All (λ c. c ≢ 0) (format_route r)
      → read_string (get_path core s r) ≡ ok (format_route r)
  read_string-get_path s m r o units opened there route no_zero =
      ap read_string
        (fun_ext λ buf. fun_ext λ cch. get_path-format_route core s m r o buf cch opened there)
      ∙ read_string-copy_out (format_route r)
          (omega (arith, format_route-length core.valid_itemname units r route.steps, route.depth))
          no_zero

  module _ (fuel : ℕ) (s : Store core) (target : ℕ) (r : Route) (h : IsAt fuel s target r) where
    read_path : read_string (get_path core s r) ≡ ok (format_route r)
    read_path =
        let (m, o, opened, there, _) =
          node_from_pos-eq-ok core fuel s target r h.root_field h.found in
        read_string-get_path s m r o h.units opened there h.route h.no_zero

    pub path_of_pos_lem :
        (path_of_pos core fuel s target ≡ ok (format_route r))
        × (node_from_path core s (some (format_route r)) true ≡ ok r)
        × (get_pos core s r true ≡ ok target)
    unfolding path_of_pos
    path_of_pos_lem =
        let (m, o, opened, there, _) =
          node_from_pos-eq-ok core fuel s target r h.root_field h.found in
        (
          rw (h.found) read_path,
          node_from_path-format_route core s m r o h.units opened h.route there,
          get_pos-node_from_pos core fuel s target r h.root_field h.found,
        )

    -- For a position at which the search finds a node in a store whose root is a field, if the core admits no
    -- name with '.' or '@', and the names on the way to the node are usable and without a NUL: PathOf answers
    -- the path of that node, FieldAt of this path makes the field of the same node, and the node is at the
    -- position.
    pub field_at-path_of :
        (change : Conversions core.Real core.Float) (st : MsgStore core) (n : ℤ)
        → st.held ≡ some s
        → to_unsigned (2 ^ 64) n ≡ target
        → (path_of core fuel n st ≡ answered (format_route r))
          × (field_at core change fuel (vt_bstr (format_route r)) st ≡ answered r)
          × (get_pos core s r true ≡ ok target)
    unfolding path_of field_at node_at
    field_at-path_of change st n held same =
        let (_, back, at) = path_of_pos_lem in
        (rw (held, same, h.found) (rw read_path refl), rw (held, back) refl, at)

    -- For a position other than 0 at which the search finds a node in a store whose root is a field, if the
    -- core admits no name with '.' or '@', and the names on the way to the node are usable and without a NUL:
    -- of a change there that is dispatched while the store is held and there is the table of the sinks, every
    -- sink that the table gives is called once, in the order of the sinks, and each is told OnChange
    -- with the bit, the position and a path; from this path NodeFromPath makes the node at the position.
    pub fire_lem :
        (st : ComStore core) (fetch : ℕ → Option ℕ) (sinks : List (ℕ × ℕ)) (kind : ℕ)
        → st.held ≡ some s
        → target ≢ 0
        → (fire_event core fuel (some fetch) st sinks (on_trigger kind target)
            ≡ ok (
                map
                  (λ sink. (
                    sink,
                    (
                      1,
                      vt_bstr (format_route r)
                          ∷ vt_large (to_signed (2 ^ 64) target)
                          ∷ vt_small (to_signed (2 ^ 32) kind)
                          ∷ [],
                    ),
                  ))
                  (reached fetch (map (λ (cookie, git). git) sinks))))
          × (node_from_path core s (some (format_route r)) true ≡ ok r)
          × (get_pos core s r true ≡ ok target)
    unfolding fire_event path_for on_trigger arguments
    fire_lem st fetch sinks kind held positive =
        let (path, back, at) = path_of_pos_lem in
        (
          rw (ne→==_false target 0 positive, held, path)
              (unfold or_no_path in ap ok (invoke-map fetch (map (λ (cookie, git). git) sinks) _)),
          back,
          at,
        )
