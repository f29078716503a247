-- ===== src/Com/Walk/Paths.antt =====
-- The paths that a walk of com/ComWalk.cpp hands out.
use msg_facade.Prelude.{
  ℕ, zero, suc, ◌+◌, ◌≤◌, ◌≡◌, refl, sym, ap, ◌∙◌, true, false, some, List, [], ◌∷◌, ◌++◌, arith,
  Text, length, take, drop, length-append, All,
}
use msg_facade.Outcome.{ok}
use msg_facade.Route.{Route, named, format_step, format_route}
use msg_facade.Route.Parse.{IsRoute, format_route-append}
use msg_facade.Route.Format.{IsNameUnit, format_route_one}
use msg_facade.Core.{Msgcore}
use msg_facade.Store.{open_store, resolve_object}
use msg_facade.Store.Tree.Paths.{node_from_path-format_route}
use msg_facade.Store.Tree.{node_from_path}
use msg_facade.Walker
use msg_facade.Com.{answered, converted}
use msg_facade.Com.Walk.{
  MsgRecurs, join, current_path, get_field, node_of_stop, resize, stop_name, track,
}

-- The steps to children of these names.
abbrev pub children : List Text → Route
children [] = []
children (name ∷ names) = named 0 name ∷ children names

child_path : (name : Text) → format_route (named 0 name ∷ []) ≡ b'.' ∷ name
unfolding format_step
child_path name = format_route_one (named 0 name)

join-format_route : (names : List Text) → join names ≡ format_route (children names)
unfolding join
join-format_route [] = unfold format_route in refl
join-format_route (name ∷ names) =
    ap (λ (t : Text). b'.' ∷ (name ++ t)) (join-format_route names)
    ∙ ap (λ (t : Text). t ++ format_route (children names)) (sym (child_path name))
    ∙ sym (format_route-append (named 0 name ∷ []) (children names))

-- If a walk holds the printed route where it was opened and has kept a name at least, then the path
-- that it gives for its stop is that of a route: the one where it was opened, and a step to a child
-- for each name that it has kept.
pub current_path-format_route :
    (core : Msgcore) (r : MsgRecurs core) (root : Route) (name : Text) (names : List Text)
    → r.root_path ≡ format_route root
    → r.ancestry ≡ name ∷ names
    → current_path core r ≡ answered (format_route (root ++ children (name ∷ names)))
unfolding current_path
current_path-format_route core r root name names at kept =
    rw (kept, current_path)
      (ap answered (
        ap (λ (t : Text). t ++ join (name ∷ names)) at
        ∙ ap (λ (t : Text). format_route root ++ t) (join-format_route (name ∷ names))
        ∙ sym (format_route-append root (children (name ∷ names)))))

drop-append : (xs ys : List Text) → drop (length xs) (xs ++ ys) ≡ ys
drop-append [] ys = refl
drop-append (x ∷ xs) ys = drop-append xs ys

take-append : (xs ys : List Text) → take (length xs) (xs ++ ys) ≡ xs
take-append [] ys = refl
take-append (x ∷ xs) ys = ap (λ zs. x ∷ zs) (take-append xs ys)

module _ (core : Msgcore) where
  -- A walk that was opened at `root`, standing where the names lead to an object.
  pub record IsStop (r : MsgRecurs core) (root : Route) (m : core.Mgr) (o : core.Object)
      (name : Text) (names : List Text) : Type 0 where
    pub held : r.held ≡ true
    pub at : r.root_path ≡ format_route root
    pub kept : r.ancestry ≡ name ∷ names
    pub opened : open_store core r.walk.store ≡ ok m
    pub usable : IsRoute core.valid_itemname (root ++ children (name ∷ names))
    pub resolves : resolve_object core r.walk.store (root ++ children (name ∷ names)) ≡ ok o

  node_of_stop_at :
      (r : MsgRecurs core) (path : Text)
      → current_path core r ≡ answered path
      → node_of_stop core r ≡ converted (node_from_path core r.walk.store (some path) true)
  unfolding node_of_stop
  node_of_stop_at r path k = rw (k, node_of_stop) refl

  get_field_at :
      (r : MsgRecurs core) (path : Text)
      → r.held ≡ true
      → current_path core r ≡ answered path
      → get_field core r ≡ converted (node_from_path core r.walk.store (some path) true)
  unfolding get_field
  get_field_at r path h k = simp h (node_of_stop_at r path k)

  -- For a walk whose store is open and held, with the printed route where it was opened: the field
  -- that it gives for its stop is the node below its root to which the names that it has kept lead,
  -- if they are usable and lead to an object, and the core admits no name with '.' or '@'.
  pub get_field_lem :
      (r : MsgRecurs core) (root : Route) (m : core.Mgr) (o : core.Object) (name : Text)
      (names : List Text)
      → ((n : Text) → core.valid_itemname n ≡ true → All IsNameUnit n)
      → IsStop r root m o name names
      → get_field core r ≡ answered (root ++ children (name ∷ names))
  get_field_lem r root m o name names units h =
      get_field_at r (format_route (root ++ children (name ∷ names))) h.held
        (current_path-format_route core r root name names h.at h.kept)
      ∙ ap converted (
          node_from_path-format_route core r.walk.store m (root ++ children (name ∷ names)) o units
            h.opened h.usable h.resolves)

  length-resize : (n : ℕ) (names : List Text) → length (resize n names) ≡ n
  unfolding resize
  length-resize zero names = refl
  length-resize (suc n) [] = ap suc (length-resize n [])
  length-resize (suc n) (name ∷ names) = ap suc (length-resize n names)

  resize_kept : (n : ℕ) (names : List Text) → n ≤ length names → resize n names ≡ take n names
  unfolding resize
  resize_kept zero names h = refl
  resize_kept (suc n) [] h = absurd (omega arith)
  resize_kept (suc n) (name ∷ names) h = ap (λ ns. name ∷ ns) (resize_kept n names (omega arith))

  track_at :
      (r : MsgRecurs core) (name : Text)
      → Walker.is_end core r.walk true ≡ ok false
      → stop_name core r.walk ≡ some name
      → track core r
        ≡ record r { ancestry = resize (Walker.depth core r.walk) r.ancestry ++ name ∷ [] }
  unfolding track
  track_at r name on h = rw (on, track) (rw (h, track) refl)

  -- After Track at a stop that has a name there is one name for each level of the walk, the last one is
  -- that of the stop; and if there was a name for every outer level before, those names are kept.
  pub track_lem :
      (r : MsgRecurs core) (name : Text)
      → Walker.is_end core r.walk true ≡ ok false
      → stop_name core r.walk ≡ some name
      → (length (track core r).ancestry ≡ Walker.depth core r.walk + 1)
        × (drop (Walker.depth core r.walk) (track core r).ancestry ≡ name ∷ [])
        × (Walker.depth core r.walk ≤ length r.ancestry
            → take (Walker.depth core r.walk) (track core r).ancestry
              ≡ take (Walker.depth core r.walk) r.ancestry)
  track_lem r name on h =
      let d = Walker.depth core r.walk in
      let n : length (resize d r.ancestry) ≡ d = length-resize d r.ancestry in
      rw (track_at r name on h) (
        length-append (resize d r.ancestry) (name ∷ []) ∙ ap (λ (k : ℕ). k + 1) n,
        ap (λ (k : ℕ). drop k (resize d r.ancestry ++ name ∷ [])) (sym n)
            ∙ drop-append (resize d r.ancestry) (name ∷ []),
        λ kept.
            ap (λ (k : ℕ). take k (resize d r.ancestry ++ name ∷ [])) (sym n)
            ∙ take-append (resize d r.ancestry) (name ∷ [])
            ∙ resize_kept d r.ancestry kept,
      )
