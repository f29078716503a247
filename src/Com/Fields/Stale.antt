-- ===== src/Com/Fields/Stale.antt =====
-- A field of com/ComField.cpp whose node has gone.
use msg_facade.Prelude.{ℕ, ◌≡◌, refl, Bool, true, false, some, Text}
use msg_facade.Prelude.Int.{ℤ, pos}
use msg_facade.HResult.{e_no_item}
use msg_facade.Outcome.{ok, fail}
use msg_facade.Route.{Route}
use msg_facade.Core.{Msgcore}
use msg_facade.Store.{Store, open_store, resolve_object, resolve_field}
use msg_facade.Node.{
  field_of, is_public_scope, get_type, get_path, set_text, if_allowed, exists, get_child,
  get_child_at, get_kind,
}
use msg_facade.Node.Restructure.{
  get_name, get_null, get_pos, get_time, get_child_count, delete_child, truncate_scope, set_time,
}
use msg_facade.Node.Stack.{push_value, pop_value, drop_value, stacked_of, get_stacked}
use msg_facade.Com.{answered, raised}
use msg_facade.Com.Codes.{code, from_facade, c_stale, c_no_field}
use msg_facade.Com.Strings.{read_string}
use msg_facade.Com.Values.{Variant, Conversions, read_node_value, write_node_value}
use msg_facade.Node.Containers.{get_list, get_vect, get_container}
use msg_facade.Cursor.{Kind}
use msg_facade.Com.Cursor.{ComStore}
use msg_facade.Com.Fields.{
  as_stale, stale_answer, bound, field_value, field_name_of, field_type, field_is_null, field_path,
  field_pos, exists_child, child, field_text, child_at, child_list, field_type_name, field_time,
  child_vect, field_count, field_is_kind, is_attributed, is_descendant, typed_answer,
  field_is_stacked,
}
use msg_facade.Com.Fields.Edits.{
  edit, counted_in, stale_both, put_text, touch, push_field, truncate_children, put_value, put_time,
  pop_field, drop_field,
}
use msg_facade.Com.Fields.Renames.{attempt_edit, found_or_not, delete_of_field}

module _ (core : Msgcore) where
  -- The store is open, and the route of the field leads to no item of it.
  pub record IsGone (st : ComStore core) (s : Store core) (r : Route) : Type 0 where
    pub m : core.Mgr
    pub held : st.held ≡ some s
    pub opened : open_store core s ≡ ok m
    pub gone : resolve_object core s r ≡ fail e_no_item

  module _ (st : ComStore core) (s : Store core) (r : Route) (h : IsGone st s r) where
    field_of-gone : field_of core s r ≡ fail e_no_item
    unfolding field_of resolve_field
    field_of-gone = rw (h.opened, h.gone) refl

    -- What such a field answers to a read, and to a change of its own: MSGC_E_STALE. The store and the count
    -- of mutations stay.
    stale_reads :
        {Date : Type 0} (to_date : ℤ → Date) (change : Conversions core.Real core.Float)
        (lib : Bool) (want : Kind)
        → (field_value core r st ≡ raised c_stale)
          × (field_text core change r st ≡ raised c_stale)
          × (field_type core r st ≡ raised c_stale)
          × (field_type_name core lib r st ≡ raised c_stale)
          × (field_is_null core r st ≡ raised c_stale)
          × (field_path core r st ≡ raised c_stale)
          × (field_name_of core r st ≡ raised c_stale)
          × (field_pos core r st ≡ raised c_stale)
          × (field_time core to_date r st ≡ raised c_stale)
          × (field_count core r st ≡ raised c_stale)
          × (field_is_kind core want r st ≡ raised c_stale)
          × (is_attributed core r st ≡ raised c_stale)
          × (is_descendant core r st ≡ raised c_stale)
          × (field_is_stacked core r st ≡ raised c_stale)
    unfolding field_value field_text field_type field_type_name field_is_null field_path
        field_name_of field_pos field_time field_count field_is_kind is_attributed is_descendant
        field_is_stacked bound stale_answer read_node_value get_type get_null get_path get_name
        get_pos get_time get_child_count get_kind get_stacked stacked_of read_string as_stale code
        is_public_scope
    stale_reads to_date change lib want = (
      rw (h.held, h.opened, h.gone) refl,
      rw (h.held, h.opened, h.gone) refl,
      rw (h.held, h.opened, h.gone) refl,
      rw (h.held, h.opened, h.gone) refl,
      rw (h.held, h.opened, h.gone) refl,
      rw (h.held, h.opened, h.gone) refl,
      rw (h.held, h.opened, h.gone) refl,
      rw (h.held, h.opened, h.gone) refl,
      rw (h.held, h.opened, field_of-gone) refl,
      rw (h.held, h.opened, field_of-gone) refl,
      rw (h.held, h.opened, h.gone) refl,
      rw (h.held, h.opened, field_of-gone) refl,
      rw (h.held, h.opened, field_of-gone) refl,
      rw (h.held, h.opened, field_of-gone) refl,
    )

    get_type-gone : get_type core s r true ≡ fail e_no_item
    unfolding get_type
    get_type-gone = rw (h.opened, h.gone) refl

    write_node_value-gone :
        (change : Conversions core.Real core.Float) (v : Variant core.Real core.Float)
        → write_node_value core change r v s ≡ (raised (code e_no_item), s)
    unfolding write_node_value
    write_node_value-gone change v = rw (get_type-gone, write_node_value) refl

    stale_edits :
        {Date : Type 0} (to_epoch : Date → ℤ) (change : Conversions core.Real core.Float)
        (v : Variant core.Real core.Float) (text : Text) (date : Date)
        → (put_value core change r v st ≡ (raised c_stale, st))
          × (put_text core r text st ≡ (raised c_stale, st))
          × (put_time core to_epoch r date st ≡ (raised c_stale, st))
          × (touch core r st ≡ (raised c_stale, st))
          × (push_field core r st ≡ (raised c_stale, st))
          × (pop_field core r st ≡ (raised c_stale, st))
          × (drop_field core r st ≡ (raised c_stale, st))
          × (truncate_children core r st ≡ (raised c_stale, st))
    unfolding put_value put_text put_time touch push_field pop_field drop_field truncate_children
        edit counted_in stale_both set_text set_time push_value pop_value drop_value stacked_of
        truncate_scope if_allowed as_stale stale_answer code is_public_scope
    stale_edits to_epoch change v text date = (
      rw (h.held, write_node_value-gone change v) refl,
      rw (h.held, field_of-gone) refl,
      rw (h.held, field_of-gone) refl,
      rw (h.held, field_of-gone) refl,
      rw (h.held, field_of-gone) refl,
      rw (h.held, field_of-gone) refl,
      rw (h.held, field_of-gone) refl,
      rw (h.held, h.opened, field_of-gone) refl,
    )

    stale_lookups :
        (name : Text) (i : ℕ)
        → (child core name r st ≡ raised c_no_field)
          × (child_at core (pos i) r st ≡ raised c_no_field)
          × (child_list core name r st ≡ raised c_no_field)
          × (child_vect core name r st ≡ raised c_no_field)
          × (exists_child core name r st ≡ raised c_stale)
          × (delete_of_field core r name st ≡ (answered false, st))
    unfolding child child_at child_list child_vect exists_child delete_of_field bound stale_answer
        attempt_edit found_or_not delete_child get_child get_child_at get_list get_vect
        get_container typed_answer exists if_allowed as_stale code from_facade is_public_scope
    stale_lookups name i = (
      rw (h.held, h.opened, field_of-gone) refl,
      rw (h.held, h.opened, field_of-gone) refl,
      rw (h.held, h.opened, field_of-gone) refl,
      rw (h.held, h.opened, field_of-gone) refl,
      rw (h.held, h.opened, field_of-gone) refl,
      rw (h.held, h.opened, field_of-gone) refl,
    )

    -- If the store is open and the route of a field leads to no item of it, then Value, Text, DataType,
    -- TypeName, IsNull, Path, Name, P2Pos, Timestamp, Count, IsList, IsVect, IsAttributed, IsDescendant,
    -- IsStacked and Exists are refused with MSGC_E_STALE; so are the writes of Value, Text and Timestamp,
    -- Touch, PushValue, PopValue, DropValue and Truncate, which leave the store and the count of mutations.
    -- Child, ChildAt for an index of 0 or more, ChildList and ChildVect are refused with MSGC_E_NO_FIELD,
    -- and Delete answers False and changes nothing.
    pub stale_lem :
        {Date : Type 0} (to_date : ℤ → Date) (to_epoch : Date → ℤ)
        (change : Conversions core.Real core.Float) (v : Variant core.Real core.Float) (lib : Bool)
        (want : Kind) (text name : Text) (date : Date) (i : ℕ)
        → ((field_value core r st ≡ raised c_stale)
            × (field_text core change r st ≡ raised c_stale)
            × (field_type core r st ≡ raised c_stale)
            × (field_type_name core lib r st ≡ raised c_stale)
            × (field_is_null core r st ≡ raised c_stale)
            × (field_path core r st ≡ raised c_stale)
            × (field_name_of core r st ≡ raised c_stale)
            × (field_pos core r st ≡ raised c_stale)
            × (field_time core to_date r st ≡ raised c_stale)
            × (field_count core r st ≡ raised c_stale)
            × (field_is_kind core want r st ≡ raised c_stale)
            × (is_attributed core r st ≡ raised c_stale)
            × (is_descendant core r st ≡ raised c_stale)
            × (field_is_stacked core r st ≡ raised c_stale))
          × ((put_value core change r v st ≡ (raised c_stale, st))
              × (put_text core r text st ≡ (raised c_stale, st))
              × (put_time core to_epoch r date st ≡ (raised c_stale, st))
              × (touch core r st ≡ (raised c_stale, st))
              × (push_field core r st ≡ (raised c_stale, st))
              × (pop_field core r st ≡ (raised c_stale, st))
              × (drop_field core r st ≡ (raised c_stale, st))
              × (truncate_children core r st ≡ (raised c_stale, st)))
          × ((child core name r st ≡ raised c_no_field)
              × (child_at core (pos i) r st ≡ raised c_no_field)
              × (child_list core name r st ≡ raised c_no_field)
              × (child_vect core name r st ≡ raised c_no_field)
              × (exists_child core name r st ≡ raised c_stale)
              × (delete_of_field core r name st ≡ (answered false, st)))
    stale_lem to_date to_epoch change v lib want text name date i = (
      stale_reads to_date change lib want,
      stale_edits to_epoch change v text date,
      stale_lookups name i,
    )
