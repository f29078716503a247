-- ===== src/Example.antt =====
-- A small instance of the core, which shows that what is assumed of Msgcore can hold: a store with a
-- root, an INT32 child A whose value is the state of the manager, and a list L.
pub mod Tests
pub mod TreeTests
pub mod ComTests
pub mod StoreTests
pub mod ContainerTests
use msg_facade.Prelude.{
  ℕ, zero, suc, ◌+◌, ◌-◌, ◌^◌, ◌≤◌, ◌<◌, ◌≡◌, refl, Bool, true, false, not, Option, none, some, [],
  ◌∷◌, arith, ◌==◌, if◌then◌else◌, Text, codes, text_eq,
}
use msg_facade.Prelude.Int.{ℤ, pos}
use msg_facade.Types.{Literal, int_cell, int32}
use msg_facade.Core.{Msgcore}
use msg_facade.Cursor.Moves.{Positions}

-- The cursors over the children of the root, and the one over an empty collection.
pub data Place : Type 0 where
  on_a on_l past nowhere : Place

abbrev pub place_size : Place → ℕ
place_size nowhere = 0
place_size _ = 2

abbrev pub place_index : Place → ℕ
place_index on_a = 0
place_index on_l = 1
place_index past = 2
place_index nowhere = 0

abbrev pub go : Place → ℤ → Option Bool × Place
go nowhere i = (some false, nowhere)
go c (pos zero) = (some true, on_a)
go c (pos (suc zero)) = (some true, on_l)
go c i = (some false, past)

abbrev pub go_name : Place → Text → Option Bool × Place
go_name nowhere n = (some false, nowhere)
go_name c n =
    if text_eq n (codes "A")
    then (some true, on_a)
    else if text_eq n (codes "L")
    then (some true, on_l)
    else (some false, on_a)

abbrev pub forward : Place → Option (Unit {0}) × Place
forward on_a = (some tt, on_l)
forward on_l = (some tt, past)
forward c = (none, c)

abbrev pub first : Place → Place
first nowhere = nowhere
first c = on_a

abbrev pub place_item : Place → Option ℤ
place_item on_a = some (pos 0)
place_item on_l = some (pos 1)
place_item c = some (pos (2 ^ 31 - 2))

abbrev pub place_object : Place → Option ℕ
place_object on_a = some 1
place_object on_l = some 2
place_object c = none

abbrev pub place_name : Place → Option Text
place_name on_a = some (codes "A")
place_name on_l = some (codes "L")
place_name c = none

abbrev pub place_is_list : Place → Bool
place_is_list on_l = true
place_is_list c = false

-- A name without '.' and '@'.
abbrev pub plain : Text → Bool
plain [] = true
plain (c ∷ s) = if c == b'.' then false else if c == b'@' then false else plain s

abbrev pub new_value : Literal ℕ ℕ → ℤ → ℤ
new_value (int_cell t v) old = v
new_value l old = old

-- The list has two cells, both with the value of A: at 20 and at 21.
abbrev pub chain : ℕ → Option (ℕ × ℕ)
chain p = if p == 20 then some (1, 21) else if p == 21 then some (1, 0) else none

abbrev pub toy : Msgcore
toy = record {
  Real = ℕ;
  Float = ℕ;
  to_float = λ x. x;
  of_float = λ x. x;
  zero_real = 0;
  Mgr = ℤ;
  Files = ℕ;
  Object = ℕ;
  Cursor = Place;
  valid_itemname = plain;
  same_ignoring_case = text_eq;
  wildcard = λ p n. some (text_eq p n);
  wstr08 = 25;
  wstr32var = 30;
  root = λ m. some 0;
  is_vect = λ m o. some false;
  is_list = λ m o. some (o == 2);
  is_field = λ m o. some (not (o == 2));
  p2pos = λ m o. some (o + 10);
  vect_count = λ m o. none;
  elem_is_list = λ m o i. none;
  elem_is_vect = λ m o i. none;
  elem_is_field = λ m o i. none;
  elem_list = λ m o i. none;
  elem_vect = λ m o i. none;
  elem_item = λ m o i. none;
  cursor_child = λ m o. some (if o == 0 then on_a else nowhere);
  cursor_attr = λ m o. some nowhere;
  goto_name = λ m c n. go_name c n;
  goto_index = λ m c i. go c i;
  seek = λ m c. (some tt, first c);
  advance = λ m c. forward c;
  item = λ m c. place_item c;
  count = λ m c. some (pos (place_size c));
  cursor_object = λ m c. place_object c;
  cursor_name = λ m c. place_name c;
  cursor_is_item = λ m c. some true;
  cursor_item = λ m c. place_object c;
  cursor_delete = λ m c. (none, (m, c));
  data_type = λ m o. some (if o == 1 then int32 else 0);
  read_any_int = λ m o. some (if o == 1 then some (m, false) else none);
  c_float = λ m o. none;
  c_double = λ m o. none;
  c_wstr = λ m o. none;
  c_blob = λ m o. none;
  c_guid = λ m o. none;
  c_size = λ m o. none;
  recreate = λ o t l m. (some tt, if o == 1 then new_value l m else m);
  clear_null = λ o m. (some tt, m);
  c_wcscpy = λ o v m. (none, m);
  declare_child = λ o n l u m. (none, m);
  declare_attr = λ o n l u m. (none, m);
  new_default = some (pos 0);
  new_sized = λ a i n. some (pos 0);
  addr_default = 3;
  file_valid = λ fs n. some true;
  open_file = λ fs n. some (pos 0);
  mgr_valid = λ m. some true;
  save = λ fs n d m. (some true, (fs, m));
  load = λ fs n m. (some true, m);
  set_dirty = λ d m. (some tt, m);
  set_root_name = λ n m. (some tt, m);
  trigger_sink = λ h m. (some tt, m);
  page_registration = λ h m. (some tt, m);
  registration_push = λ m. (some true, m);
  registration_pop = λ m. (some true, m);
  root_name = λ m. some [];
  is_dirty = λ m. some false;
  size_of_mgr = λ m. some 512;
  create_trigger = λ mask p m. (some tt, m);
  drop_triggers = λ mask p m. (some tt, m);
  fire_trigger = λ p mask m. (some 0, m);
  page_dataset_in = λ p m. (some false, m);
  page_dataset_out = λ p f m. (some false, m);
  field_name = λ m o. some [];
  is_null = λ m o. some false;
  get_tstamp = λ m o. some (pos 0);
  set_tstamp = λ o t m. (some t, m);
  is_stacked = λ m o. some false;
  stack_push = λ o m. (some tt, m);
  stack_pop = λ o m. (some tt, m);
  stack_drop = λ o m. (some tt, m);
  coll_count = λ a m o. some 0;
  coll_delete = λ a o n m. (some false, m);
  coll_truncate = λ a o m. (some tt, m);
  refactor_rename = λ a o n n' m. (some tt, m);
  refactor_move = λ a o d n m. (some tt, m);
  attach_list = λ a o n m. (none, m);
  attach_vect = λ a o k n l m. (none, m);
  cursor_is_list = λ m c. some (place_is_list c);
  cursor_is_vect = λ m c. some false;
  list_count = λ m o. some (pos 2);
  list_head = λ m o. some 20;
  list_next = λ m o p. chain p;
  list_add = λ h o l m. (some tt, m);
  list_drop = λ h o m. (some tt, m);
  list_delete = λ o p m. (some true, m);
  list_truncate = λ o m. (some tt, m);
  elem_data = λ m o i. none;
  elem_name = λ m o i. none;
  vect_delete = λ o i m. (none, m);
  vect_truncate = λ o m. (none, m);
}

pub advance_law :
    (c : Place)
    → place_index c < place_size c
    → ((forward c).0 ≡ some tt)
      × (place_index (forward c).1 ≡ suc (place_index c))
      × (place_size (forward c).1 ≡ place_size c)
advance_law on_a h = (refl, refl, refl)
advance_law on_l h = (refl, refl, refl)
advance_law past h = absurd (omega arith)
advance_law nowhere h = absurd (omega arith)

pub goto_law :
    (c : Place) (i : ℕ)
    → i < place_size c
    → ((go c (pos i)).0 ≡ some true)
      × (place_index (go c (pos i)).1 ≡ i)
      × (place_size (go c (pos i)).1 ≡ place_size c)
goto_law nowhere i h = absurd (omega arith)
goto_law c zero h = (refl, refl, refl)
goto_law c (suc zero) h = (refl, refl, refl)
goto_law c (suc (suc i)) h = absurd (omega arith)

pub off_law :
    (c : Place) (i : ℕ)
    → place_size c ≤ i
    → ((go c (pos i)).0 ≡ some false)
      × (place_index (go c (pos i)).1 ≡ place_size c)
      × (place_size (go c (pos i)).1 ≡ place_size c)
off_law nowhere i h = (refl, refl, refl)
off_law c zero h = absurd (omega arith)
off_law c (suc zero) h = absurd (omega arith)
off_law c (suc (suc i)) h = (refl, refl, refl)

pub fits_law : (c : Place) → (place_index c ≤ place_size c) × (place_size c < 2 ^ 31 - 1)
fits_law on_a = omega arith
fits_law _ = omega arith

pub item_law :
    (c : Place) → place_index c < place_size c → place_item c ≡ some (pos (place_index c))
item_law on_a h = refl
item_law on_l h = refl
item_law past h = absurd (omega arith)
item_law nowhere h = absurd (omega arith)

pub item_off_law :
    (c : Place) → place_index c ≡ place_size c → place_item c ≡ some (pos (2 ^ 31 - 2))
item_off_law on_a h = absurd (omega arith)
item_off_law on_l h = absurd (omega arith)
item_off_law _ h = refl

pub seek_law : (c : Place) → (place_index (first c) ≡ 0) × (place_size (first c) ≡ place_size c)
seek_law on_a = (refl, refl)
seek_law _ = (refl, refl)

pub name_law : (c : Place) (n : Text) → place_size (go_name c n).1 ≡ place_size c
name_law on_a n = ground arith
name_law _ n = ground arith

unfoldable pub toy_positions : (m : ℤ) → Positions toy m
toy_positions m = record {
  size = place_size;
  index = place_index;
  fits = fits_law;
  count_is = λ c. refl;
  item_is = item_law;
  item_off = item_off_law;
  seek_is = λ c. (refl, (seek_law c).0, (seek_law c).1);
  advance_is = advance_law;
  goto_is = goto_law;
  goto_off = off_law;
  name_size = name_law;
}

pub named_l :
    (c : Place)
    → (go_name c (codes "L")).0 ≡ some true
    → place_name (go_name c (codes "L")).1 ≡ some (codes "L")
unfolding text_eq
named_l nowhere h = cc
named_l on_a h = refl
named_l on_l h = refl
named_l past h = refl

pub list_law :
    (c : Place) (o : ℕ) → place_object c ≡ some o → some (place_is_list c) ≡ some (o == 2)
list_law on_a o h = ground arith
list_law on_l o h = ground arith
list_law past o h = cc
list_law nowhere o h = cc
