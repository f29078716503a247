-- ===== src/Com/Vects/Past.antt =====
-- An index past the end of a vect, in the methods of com/ComColl.cpp.
use msg_facade.Prelude.{ℕ, ◌^◌, ◌≤◌, ◌<◌, ◌≡◌, refl, true, false, arith, leb}
use msg_facade.Prelude.Int.{pos}
use msg_facade.Types.{to_signed, to_unsigned}
use msg_facade.HResult.{e_range}
use msg_facade.Outcome.{ok, fail}
use msg_facade.Route.{Route}
use msg_facade.Core.{Msgcore}
use msg_facade.Cursor.{Kind}
use msg_facade.Store.{Store, open_store}
use msg_facade.Container.Vects.{
  is_past, elem_of, get_count, get_type_at, get_kind_at, get_name_at, delete_at,
}
use msg_facade.Container.Vects.Index.{IsVect, elem_of-range}
use msg_facade.Node.{if_allowed}
use msg_facade.Com.{answered, raised}
use msg_facade.Com.Codes.{code, from_facade, c_range}
use msg_facade.Com.Strings.{read_string}
use msg_facade.Com.Values.{vt_empty}
use msg_facade.Com.Vects.{
  read_elem, vect_item, elem_kind_is, vect_type_at, vect_name_at, remove_elem,
}

module _ (core : Msgcore) (s : Store core) (r : Route) (m : core.Mgr) (o : core.Object)
    (n index : ℕ) (opened : open_store core s ≡ ok m) (h : IsVect core s r m o n)
    (small : n < 2 ^ 31) (past : n ≤ index) (word : index < 2 ^ 31) where
  is_past-true : is_past core index (pos n) ≡ true
  unfolding is_past to_signed
  is_past-true = ground arith

  elem-past : elem_of core s r index ≡ fail e_range
  elem-past = (elem_of-range core s r m o n index h small (omega arith)).1 (past, word)

  type-past : get_type_at core s r index true ≡ ok 0
  unfolding get_type_at
  type-past = rw (opened, h.found, h.counted, is_past-true) refl

  count_word : to_unsigned (2 ^ 32) (pos n) ≡ n
  unfolding to_unsigned
  count_word = omega (arith, small)

  at_end : leb n index ≡ true
  at_end = ground arith

  -- In an open store, for an index of a LONG that is not below the count of a vect of fewer than 2^31
  -- elements: Item answers Empty; IsData and its like, TypeAt and NameAt are refused with MSGC_E_RANGE;
  -- and RemoveAt answers False and changes nothing.
  pub past_lem :
      (k : ℕ) (want : Kind)
      → (vect_item core s r (pos index) ≡ answered vt_empty)
        × (elem_kind_is core want s r (pos index) ≡ raised c_range)
        × (vect_type_at core s r (pos index) ≡ raised c_range)
        × (vect_name_at core s r (pos index) ≡ raised c_range)
        × (remove_elem core r (pos index) (s, k) ≡ (answered false, (s, k)))
  unfolding vect_item read_elem elem_kind_is vect_type_at vect_name_at remove_elem get_count
      get_kind_at get_name_at delete_at read_string if_allowed code from_facade
  past_lem k want = (
    rw type-past refl,
    rw (opened, elem-past) refl,
    rw (opened, h.found, h.counted) (rw (count_word, at_end) refl),
    rw elem-past refl,
    rw elem-past refl,
  )
