-- ===== src/Node/Containers.antt =====
-- The containers of a node: AttachList, AttachVect and MakeProto of src/FacadeInternal.cpp, and
-- DeclareList, DeclareVect, GetList and GetVect of src/FacadeNode.cpp.
use msg_facade.Prelude.{ℕ, ◌^◌, Bool, false, ◌||◌, Option, [], ◌==◌, if◌then◌else◌, Text}
use msg_facade.Prelude.Int.{pos}
use msg_facade.HResult.{e_pointer, e_scope, e_type, e_no_item}
use msg_facade.Types.{
  Literal, int_cell, bool_cell, float_cell, double_cell, text_cell, int08, uint08, int16, uint16,
  int32, uint32, int64, uint64, float, double, bool, bstr16, wstr16, to_signed,
}
use msg_facade.Outcome.{Outcome, ok, attempt, guard, ◌>>=◌, ◌>>◌}
use msg_facade.Outcome.Act.{Act, change}
use msg_facade.Route.{Route}
use msg_facade.Core.{Msgcore}
use msg_facade.Store.{Store, open_store, scope_cursor}
use msg_facade.Node.{is_public_scope, route_with, field_of, change_field, if_allowed}
use msg_facade.Node.Declares.{begin_declare}
use msg_facade.Node.Restructure.{is_attr, given}

module _ (core : Msgcore) where
  open core use {
    Mgr, Object, Cursor, Real, Float, to_float, zero_real, goto_name, cursor_name, cursor_is_list,
    cursor_is_vect, attach_list, attach_vect,
  }

  -- `MakeProto`: a zero of the type, and of INT32 for a type that has no arm.
  unfoldable pub make_proto : ℕ → Literal Real Float
  make_proto t =
      if t == int08
        || (t == uint08
            || (t == int16 || (t == uint16 || (t == uint32 || (t == int64 || t == uint64)))))
      then int_cell t (pos 0)
      else if t == float
      then float_cell (to_float zero_real)
      else if t == double
      then double_cell zero_real
      else if t == bool
      then bool_cell false
      else if t == wstr16 || t == bstr16
      then text_cell []
      else int_cell int32 (pos 0)

  -- What DeclareList and DeclareVect ask.
  asked : Store core → Route → ℕ → Option Text → Bool → Outcome (Text × (Mgr × Object))
  asked s r scope name out = do
    opened ← open_store core s
    guard out e_pointer
    begin_declare core s r scope name false

  -- The route of a container is not held against MAX_DEPTH.
  attach :
      (Text → Object → Act Mgr (Unit {0}))
      → Route
      → ℕ
      → Text × (Mgr × Object)
      → Store core
      → Outcome Route × Store core
  attach body r scope (name, at) s =
      let (done, s') = change_field core (body name) at s in
      (done >>= λ _. ok (route_with r scope name), s')

  unfoldable pub declare_list :
      Route → ℕ → Option Text → Bool → Store core → Outcome Route × Store core
  unfolding asked attach
  declare_list r scope name out s =
      if_allowed core (asked s r scope name out)
        (attach (λ n o. change (attach_list (is_attr scope) o n)) r scope) s

  unfoldable pub declare_vect :
      Route → ℕ → Option Text → ℕ → ℕ → Bool → Store core → Outcome Route × Store core
  unfolding asked attach
  declare_vect r scope name elems t out s =
      let proto = make_proto (if t == 0 then int32 else t) in
      if_allowed core (asked s r scope name out)
        (attach (λ n o. change (attach_vect (is_attr scope) o (to_signed (2 ^ 32) elems) n proto)) r
          scope)
        s

  -- GetList and GetVect, with the test of the kind.
  unfoldable pub get_container :
      (Mgr → Cursor → Option Bool) → Store core → Route → ℕ → Option Text → Bool → Outcome Route
  get_container is_kind s r scope name out = do
    opened ← open_store core s
    guard (is_public_scope scope) e_scope
    guard out e_pointer
    n ← given name
    (m, o) ← field_of core s r
    c ← attempt (scope_cursor core m o scope)
    let (found, d) = goto_name m c n
    hit ← attempt found
    guard hit e_no_item
    kind ← attempt (is_kind m d)
    guard kind e_type
    stored ← attempt (cursor_name m d)
    ok (route_with r scope stored)

  unfoldable pub get_list : Store core → Route → ℕ → Option Text → Bool → Outcome Route
  get_list = get_container cursor_is_list

  unfoldable pub get_vect : Store core → Route → ℕ → Option Text → Bool → Outcome Route
  get_vect = get_container cursor_is_vect
