-- ===== src/Values.antt =====
-- The value layer of src/FacadeInternal.cpp: reads, writes and declares against one live cell.
-- A pointer that the caller may leave NULL and that only receives a value is a Boolean: is it there?
use msg_facade.Prelude.{
  ℕ, ◌*◌, Bool, true, not, ◌&&◌, ◌||◌, Option, none, some, List, [], ◌∷◌, ltb, leb, ◌==◌,
  if◌then◌else◌, Text, length, take,
}
use msg_facade.Prelude.Int.{ℤ, pos}
use msg_facade.HResult.{e_pointer, e_type, e_limit, e_name}
use msg_facade.CopyOut.{Out, copy_out, copy_out_bytes, answer}
use msg_facade.Types.{
  Literal, float_cell, double_cell, text_cell, blob_cell, guid_cell, is_int_type, is_real_type,
  int_fits, int_literal, int32, float, double, bstr16, wstr16, blob16, guid,
}
use msg_facade.Guid.{Guid, parse_guid, format_guid}
use msg_facade.Route.{scope_attr}
use msg_facade.Outcome
use msg_facade.Outcome.{Outcome, ok, fail, attempt, caught, guard}
use msg_facade.Outcome.Act.{Act, pure, raise, read, change, require, ◌>>=◌, ◌>>◌}
use msg_facade.Core.{Msgcore}

abbrev pub max_text : ℕ
max_text = 32767

abbrev pub max_blob : ℕ
max_blob = 65535

module _ (core : Msgcore) where
  open core use {
    Real, Float, to_float, of_float, zero_real, Mgr, Object, wstr08, wstr32var, data_type,
    read_any_int, c_float, c_double, c_wstr, c_blob, c_guid, c_size, recreate, clear_null, c_wcscpy,
    declare_child, declare_attr,
  }

  unfoldable pub is_text_type : ℕ → Bool
  is_text_type t = leb wstr08 t && leb t wstr32var

  unfoldable pub read_int : Mgr → Object → Bool → Outcome (ℤ × Bool)
  read_int m cell out =
      if not out
      then fail e_pointer
      else Outcome.◌>>=◌ (attempt (read_any_int m cell))
          λ found. elim found [ none ↦ fail e_type | some v ↦ ok v ]

  unfoldable pub read_real : Mgr → Object → Bool → Outcome Real
  read_real m cell out =
      if not out
      then fail e_pointer
      else Outcome.◌>>=◌ (attempt (data_type m cell)) λ t.
        if t == float
        then Outcome.◌>>=◌ (attempt (c_float m cell)) (λ v. ok (of_float v))
        else if t == double
        then attempt (c_double m cell)
        else fail e_type

  unfoldable pub read_text : Mgr → Object → Option (List ℕ) → Option ℕ → Out
  unfolding is_text_type
  read_text m cell buf none = record { hr = e_pointer; buf = buf; size = none }
  read_text m cell buf (some cch) = answer buf (some cch) (
      Outcome.◌>>=◌ (attempt (data_type m cell)) λ t.
        Outcome.◌>>◌ (guard (is_text_type t) e_type)
          (Outcome.◌>>=◌ (attempt (c_wstr m cell)) λ v. ok (copy_out (some v) buf (some cch))))

  unfoldable pub read_blob : Mgr → Object → Option (List ℕ) → Option ℕ → Out
  read_blob m cell buf none = record { hr = e_pointer; buf = buf; size = none }
  read_blob m cell buf (some size) = answer buf (some size) (
      Outcome.◌>>=◌ (attempt (data_type m cell)) λ t.
        Outcome.◌>>◌ (guard (t == blob16) e_type)
          (Outcome.◌>>=◌ (attempt (c_blob m cell)) λ v. ok (copy_out_bytes v buf (some size))))

  unfoldable pub read_guid_text : Mgr → Object → Option (List ℕ) → Option ℕ → Out
  read_guid_text m cell buf none = record { hr = e_pointer; buf = buf; size = none }
  read_guid_text m cell buf (some cch) = answer buf (some cch) (
      Outcome.◌>>=◌ (attempt (data_type m cell)) λ t. Outcome.◌>>◌ (guard (t == guid) e_type) (
        Outcome.◌>>=◌ (attempt (c_guid m cell))
          λ g. ok (copy_out (some (format_guid g)) buf (some cch))))

  unfoldable pub write_int : Object → ℤ → Act Mgr Unit
  write_int cell v = do
    t ← read (λ m. data_type m cell)
    require (is_int_type t) e_type
    require (int_fits v t) e_limit
    elim (int_literal t v) [
      | none ↦ raise e_type
      | some l ↦ do change (recreate cell t l); change (clear_null cell)
    ]

  unfoldable pub write_real : Object → Real → Act Mgr Unit
  write_real cell v = do
    t ← read (λ m. data_type m cell)
    if t == float
        then (do change (recreate cell t (float_cell (to_float v))); change (clear_null cell))
        else if t == double
        then (do change (recreate cell t (double_cell v)); change (clear_null cell))
        else raise e_type

  -- In this function every raise is reported as MSGF_E_LIMIT.
  unfoldable pub write_text : Object → Option Text → Bool → Act Mgr Unit
  unfolding is_text_type
  write_text cell none may_grow = raise e_pointer
  write_text cell (some v) may_grow = if ltb max_text (length v) then raise e_limit else do
    t ← (λ m. (caught e_limit (data_type m cell), m))
    require (is_text_type t) e_type
    (if may_grow then pure tt else do
      used ← (λ m. (caught e_limit (c_size m cell), m))
      require (leb (length v * 2) used) e_limit)
    (λ m. let (r, m') = c_wcscpy cell v m in (caught e_limit r, m'))

  -- The scope switch of every declare.
  unfoldable pub do_declare : Object → ℕ → Text → Literal Real Float → Bool → Act Mgr Unit
  do_declare parent scope name l update =
      if scope == scope_attr
      then change (declare_attr parent name l update)
      else change (declare_child parent name l update)

  unfoldable pub declare_int : Object → ℕ → Text → ℤ → ℕ → Bool → Act Mgr Unit
  unfolding do_declare
  declare_int parent scope name v type update =
      let t = if type == 0 then int32 else type in
      do
        require (is_int_type t) e_type
        require (int_fits v t) e_limit
        elim (int_literal t v) [
          | none ↦ raise e_type
          | some l ↦ do_declare parent scope name l update
        ]

  unfoldable pub declare_real : Object → ℕ → Text → Real → ℕ → Bool → Act Mgr Unit
  unfolding do_declare
  declare_real parent scope name v type update =
      let t = if type == 0 then double else type in
      do
        require (is_real_type t) e_type
        do_declare parent scope name (if t == float then float_cell (to_float v) else double_cell v)
            update

  unfoldable pub declare_text : Object → ℕ → Text → Option Text → Bool → Act Mgr Unit
  unfolding do_declare
  declare_text parent scope name none update = raise e_pointer
  declare_text parent scope name (some v) update = do
    require (leb (length v) max_text) e_limit
    do_declare parent scope name (text_cell v) update

  -- `uSize && !pvValue`: a blob is its bytes behind a pointer that is NULL or not.
  unfoldable pub declare_blob : Object → ℕ → Text → Option (List ℕ) → ℕ → Bool → Act Mgr Unit
  unfolding do_declare
  declare_blob parent scope name none size update = do
    require (size == 0) e_pointer
    do_declare parent scope name (blob_cell []) update
  declare_blob parent scope name (some bytes) size update = do
    require (leb size max_blob) e_limit
    do_declare parent scope name (blob_cell (take size bytes)) update

  guid_literal : Guid → Literal Real Float
  guid_literal g = guid_cell g.data1 g.data2 g.data3 g.data4

  unfoldable pub declare_guid : Object → ℕ → Text → Option Text → Bool → Act Mgr Unit
  unfolding do_declare guid_literal
  declare_guid parent scope name text update = elim (parse_guid text) [
    | none ↦ raise e_name
    | some g ↦ do_declare parent scope name (guid_literal g) update
  ]

  unfoldable pub declare_zero : Object → ℕ → Text → ℕ → Act Mgr Unit
  unfolding declare_int declare_real do_declare
  declare_zero parent scope name t =
      if is_int_type t
      then declare_int parent scope name (pos 0) t true
      else if is_real_type t
      then declare_real parent scope name zero_real t true
      else if t == wstr16 || t == bstr16
      then do_declare parent scope name (text_cell []) true
      else if t == blob16
      then do_declare parent scope name (blob_cell (0 ∷ [])) true
      else if t == guid
      then do_declare parent scope name (guid_cell 0 0 0 (0 ∷ 0 ∷ 0 ∷ 0 ∷ 0 ∷ 0 ∷ 0 ∷ 0 ∷ [])) true
      else raise e_type
