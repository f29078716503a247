-- ===== src/Com/Vects/Split.antt =====
-- `SplitPath` and `MakeFromSelf` of com/ComColl.cpp against the grammar of paths.
use msg_facade.Prelude.{◌<◌, ◌≡◌, ◌≢◌, true, some, [], ◌∷◌, ◌++◌, Text, length, All}
use msg_facade.Outcome.{ok}
use msg_facade.Route.{Step, Route, max_depth, format_route}
use msg_facade.Route.Parse.{IsRoute, IsNamed}
use msg_facade.Route.Format.{IsNameUnit}
use msg_facade.Core.{Msgcore}
use msg_facade.Store.{Store, open_store, resolve_object}

module _ (core : Msgcore) where
  -- A node of a store, below its parent: the core admits no name with '.' or '@', the route of the parent
  -- and the last step have usable names, the node is not too deep, and no name has a NUL in it.
  pub record IsBelow (s : Store core) (q : Route) (t : Step) : Type 0 where
    pub m : core.Mgr
    pub o : core.Object
    pub units : (n : Text) → core.valid_itemname n ≡ true → All IsNameUnit n
    pub opened : open_store core s ≡ ok m
    pub there : resolve_object core s (q ++ t ∷ []) ≡ ok o
    pub parent : IsRoute core.valid_itemname q
    pub named : IsNamed core.valid_itemname t
    pub depth : length q < max_depth
    pub no_zero : All (λ c. c ≢ 0) (format_route (q ++ t ∷ []))

  -- The documented behaviour of P3PmsgCurs for a name: a cursor that has been sent to it stands on an item of
  -- that name, and tells of the item's kind what the item itself tells.
  pub record IsAgreed (m : core.Mgr) (name : Text) : Type 0 where
    pub names :
        (c : core.Cursor)
        → (core.goto_name m c name).0 ≡ some true
        → core.cursor_name m (core.goto_name m c name).1 ≡ some name
    pub lists :
        (c : core.Cursor) (o : core.Object)
        → core.cursor_object m c ≡ some o
        → core.cursor_is_list m c ≡ core.is_list m o
    pub vects :
        (c : core.Cursor) (o : core.Object)
        → core.cursor_object m c ≡ some o
        → core.cursor_is_vect m c ≡ core.is_vect m o
