-- ===== src/Core.antt =====
-- What the facade uses of Msgcore, as a parameter of the model: Msgcore is another library.
-- A read of the core takes the manager, and is `none` where the core raises. A change takes the manager
-- and gives the one that it leaves, also where it raises. A position of an object, its alias, is an
-- `Object`; a P3PmsgCurs is a `Cursor`.
use msg_facade.Prelude.{ℕ, Bool, Option, List, Text}
use msg_facade.Prelude.Int.{ℤ}
use msg_facade.Types.{Literal}
use msg_facade.Guid.{Guid}

pub record Msgcore : Type 1 where
  -- floating point, and the two casts of the source
  pub Real : Type 0
  pub Float : Type 0
  pub to_float : Real → Float
  pub of_float : Float → Real
  pub zero_real : Real
  -- the manager with its heap, the file system, aliased objects and cursors
  pub Mgr : Type 0
  pub Files : Type 0
  pub Object : Type 0
  pub Cursor : Type 0
  -- P3Pmsg_IsValidItemname, _wcsicmp ( a, b ) == 0, VBLockData_WSTR08 and VBLockData_WSTR32var
  pub valid_itemname : Text → Bool
  pub same_ignoring_case : Text → Text → Bool
  pub wildcard : Text → Text → Option Bool
  pub wstr08 : ℕ
  pub wstr32var : ℕ
  -- P3PmsgObject
  pub root : Mgr → Option Object
  pub is_vect : Mgr → Object → Option Bool
  pub is_list : Mgr → Object → Option Bool
  pub is_field : Mgr → Object → Option Bool
  pub p2pos : Mgr → Object → Option ℕ
  -- P3PmsgVect: the count as an `int`, and what an element is
  pub vect_count : Mgr → Object → Option ℤ
  pub elem_is_list : Mgr → Object → ℤ → Option Bool
  pub elem_is_vect : Mgr → Object → ℤ → Option Bool
  pub elem_is_field : Mgr → Object → ℤ → Option Bool
  pub elem_list : Mgr → Object → ℤ → Option Object
  pub elem_vect : Mgr → Object → ℤ → Option Object
  pub elem_item : Mgr → Object → ℤ → Option Object
  -- P3PmsgCurs: over the descendants or the attributes of a field
  pub cursor_child : Mgr → Object → Option Cursor
  pub cursor_attr : Mgr → Object → Option Cursor
  pub goto_name : Mgr → Cursor → Text → Option Bool × Cursor
  pub goto_index : Mgr → Cursor → ℤ → Option Bool × Cursor
  pub seek : Mgr → Cursor → Option (Unit {0}) × Cursor
  pub advance : Mgr → Cursor → Option (Unit {0}) × Cursor
  pub item : Mgr → Cursor → Option ℤ
  pub count : Mgr → Cursor → Option ℤ
  pub cursor_object : Mgr → Cursor → Option Object
  pub cursor_name : Mgr → Cursor → Option Text
  pub cursor_is_item : Mgr → Cursor → Option Bool
  pub cursor_item : Mgr → Cursor → Option Object
  pub cursor_delete : Mgr → Cursor → Option (Unit {0}) × (Mgr × Cursor)
  -- P3PmsgData, the value of a cell
  pub data_type : Mgr → Object → Option ℕ
  pub read_any_int : Mgr → Object → Option (Option (ℤ × Bool))
  pub c_float : Mgr → Object → Option Float
  pub c_double : Mgr → Object → Option Real
  pub c_wstr : Mgr → Object → Option Text
  pub c_blob : Mgr → Object → Option (List ℕ)
  pub c_guid : Mgr → Object → Option Guid
  pub c_size : Mgr → Object → Option ℕ
  pub recreate : Object → ℕ → Literal Real Float → Mgr → Option (Unit {0}) × Mgr
  pub clear_null : Object → Mgr → Option (Unit {0}) × Mgr
  pub c_wcscpy : Object → Text → Mgr → Option (Unit {0}) × Mgr
  -- DeclareItem, on r_Desc and on r_Attr
  pub declare_child : Object → Text → Literal Real Float → Bool → Mgr → Option (Unit {0}) × Mgr
  pub declare_attr : Object → Text → Literal Real Float → Bool → Mgr → Option (Unit {0}) × Mgr
  -- P2PmsgMgr
  pub new_default : Option Mgr
  pub new_sized : ℕ → ℕ → ℕ → Option Mgr
  pub addr_default : ℕ
  pub file_valid : Files → Text → Option Bool
  pub open_file : Files → Text → Option Mgr
  pub mgr_valid : Mgr → Option Bool
  pub save : Files → Option Text → Bool → Mgr → Option Bool × (Files × Mgr)
  pub load : Files → Text → Mgr → Option Bool × Mgr
  pub set_dirty : Bool → Mgr → Option (Unit {0}) × Mgr
  pub set_root_name : Text → Mgr → Option (Unit {0}) × Mgr
  -- SetTriggerSink and PageRegistration, with the store's trampolines or with nothing
  pub trigger_sink : Bool → Mgr → Option (Unit {0}) × Mgr
  pub page_registration : Bool → Mgr → Option (Unit {0}) × Mgr
  pub registration_push : Mgr → Option Bool × Mgr
  pub registration_pop : Mgr → Option Bool × Mgr
  pub root_name : Mgr → Option Text
  pub is_dirty : Mgr → Option Bool
  pub size_of_mgr : Mgr → Option ℕ
  pub create_trigger : ℕ → ℕ → Mgr → Option (Unit {0}) × Mgr
  pub drop_triggers : ℕ → ℕ → Mgr → Option (Unit {0}) × Mgr
  pub fire_trigger : ℕ → ℕ → Mgr → Option ℕ × Mgr
  pub page_dataset_in : ℕ → Mgr → Option Bool × Mgr
  pub page_dataset_out : ℕ → Bool → Mgr → Option Bool × Mgr
  -- P3PmsgField: its name, its time stamp and its value stack
  pub field_name : Mgr → Object → Option Text
  pub is_null : Mgr → Object → Option Bool
  pub get_tstamp : Mgr → Object → Option ℤ
  pub set_tstamp : Object → ℤ → Mgr → Option ℤ × Mgr
  pub is_stacked : Mgr → Object → Option Bool
  pub stack_push : Object → Mgr → Option (Unit {0}) × Mgr
  pub stack_pop : Object → Mgr → Option (Unit {0}) × Mgr
  pub stack_drop : Object → Mgr → Option (Unit {0}) × Mgr
  -- The two collections of a field: r_Attr for true, and r_Desc for false. P3PmsgRefactor_Rename and
  -- P3PmsgRefactor_Move take the field itself where the source gives it no collection.
  pub coll_count : Bool → Mgr → Object → Option ℕ
  pub coll_delete : Bool → Object → Text → Mgr → Option Bool × Mgr
  pub coll_truncate : Bool → Object → Mgr → Option (Unit {0}) × Mgr
  pub refactor_rename : Bool → Object → Text → Text → Mgr → Option (Unit {0}) × Mgr
  pub refactor_move : Bool → Object → Object → Text → Mgr → Option (Unit {0}) × Mgr
  pub attach_list : Bool → Object → Text → Mgr → Option (Unit {0}) × Mgr
  pub attach_vect : Bool → Object → ℤ → Text → Literal Real Float → Mgr → Option (Unit {0}) × Mgr
  pub cursor_is_list : Mgr → Cursor → Option Bool
  pub cursor_is_vect : Mgr → Cursor → Option Bool
  -- P3PmsgList: a position is an address, and 0 where there is none. GetNext gives the cell at a
  -- position and goes on to the next one. Head for true, and tail for false.
  pub list_count : Mgr → Object → Option ℤ
  pub list_head : Mgr → Object → Option ℕ
  pub list_next : Mgr → Object → ℕ → Option (Object × ℕ)
  pub list_add : Bool → Object → Literal Real Float → Mgr → Option (Unit {0}) × Mgr
  pub list_drop : Bool → Object → Mgr → Option (Unit {0}) × Mgr
  pub list_delete : Object → ℕ → Mgr → Option Bool × Mgr
  pub list_truncate : Object → Mgr → Option (Unit {0}) × Mgr
  pub elem_data : Mgr → Object → ℤ → Option Object
  pub elem_name : Mgr → Object → ℤ → Option Text
  pub vect_delete : Object → ℤ → Mgr → Option Bool × Mgr
  pub vect_truncate : Object → Mgr → Option (Unit {0}) × Mgr
