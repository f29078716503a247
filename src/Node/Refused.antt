-- ===== src/Node/Refused.antt =====
-- A declare onto a name that is taken is refused and leaves the store as it was: src/FacadeNode.cpp.
use msg_facade.Prelude.{ℕ, ◌≡◌, refl, Bool, true, false, Option, some, List, Text}
use msg_facade.Prelude.Int.{ℤ}
use msg_facade.HResult.{e_exists}
use msg_facade.Outcome.{ok, fail}
use msg_facade.Route.{Route, is_usable_name}
use msg_facade.Core.{Msgcore}
use msg_facade.Store.{Store, open_store, resolve_field, scope_cursor}
use msg_facade.Node.{is_public_scope, field_of, if_allowed}
use msg_facade.Node.Declares.{
  begin_declare, declare, node_declare_int, node_declare_real, node_declare_text, node_declare_blob,
  node_declare_guid,
}

module _ (core : Msgcore) where
  -- A node that resolves to a field `o` of an open store with the manager `m`.
  pub record IsField (s : Store core) (r : Route) (m : core.Mgr) (o : core.Object) : Type 0 where
    pub opened : open_store core s ≡ ok m
    pub resolved : resolve_field core s r ≡ ok o

  field_of-IsField :
      (s : Store core) (r : Route) (m : core.Mgr) (o : core.Object)
      → IsField s r m o
      → field_of core s r ≡ ok (m, o)
  unfolding field_of
  field_of-IsField s r m o h = rw (h.opened, h.resolved) refl

  -- A child of a field that the core finds under a name.
  pub record IsTaken (m : core.Mgr) (o : core.Object) (scope : ℕ) (name : Text) : Type 0 where
    pub public : is_public_scope scope ≡ true
    pub usable : is_usable_name core.valid_itemname (some name) ≡ true
    pub curs : core.Cursor
    pub seated : scope_cursor core m o scope ≡ some curs
    pub found : (core.goto_name m curs name).0 ≡ some true

  begin_declare_taken :
      (s : Store core) (r : Route) (m : core.Mgr) (o : core.Object) (scope : ℕ) (name : Text)
      → IsField s r m o
      → IsTaken m o scope name
      → begin_declare core s r scope (some name) false ≡ fail e_exists
  unfolding begin_declare
  begin_declare_taken s r m o scope name h t =
      rw (h.opened, t.public, t.usable, field_of-IsField s r m o h, t.seated, t.found) refl

  -- Without MSGF_DECLARE_UPDATE each of the five declares, for a node that is a field and a name that a
  -- child of it has, answers MSGF_E_EXISTS and leaves the store as it was.
  pub declare_taken :
      (s : Store core) (r : Route) (m : core.Mgr) (o : core.Object) (scope : ℕ) (name : Text)
      (i : ℤ) (x : core.Real) (v : Option Text) (bytes : Option (List ℕ)) (t : ℕ) (out : Bool)
      → IsField s r m o
      → IsTaken m o scope name
      → (node_declare_int core r scope (some name) i t false out s ≡ (fail e_exists, s))
        × (node_declare_real core r scope (some name) x t false out s ≡ (fail e_exists, s))
        × (node_declare_text core r scope (some name) v false out s ≡ (fail e_exists, s))
        × (node_declare_blob core r scope (some name) bytes t false out s ≡ (fail e_exists, s))
        × (node_declare_guid core r scope (some name) v false out s ≡ (fail e_exists, s))
  unfolding node_declare_int node_declare_real node_declare_text node_declare_blob node_declare_guid
      declare if_allowed
  declare_taken s r m o scope name i x v bytes t out h k =
      let e = begin_declare_taken s r m o scope name h k in
      (rw e refl, rw e refl, rw e refl, rw e refl, rw e refl)
