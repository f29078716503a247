-- ===== src/Com/Codes.antt =====
-- The numbers of the HRESULTs: those of include/MsgFacade.h and winerror.h, those of com/ComUtil.h, and
-- `FromFacade` of com/ComUtil.cpp, which compares them by number.
pub mod Merged
use msg_facade.Prelude.{ℕ, ◌^◌, Bool, leb, ◌==◌, if◌then◌else◌}
use msg_facade.HResult.{
  HResult, s_ok, s_false, e_pointer, e_invalidarg, e_outofmemory, more_data, e_abi_mismatch, e_core,
  e_no_item, e_name, e_type, e_range, e_file, e_closed, e_scope, e_path, e_exists, e_no_pos,
  e_limit, e_depth, e_state,
}

-- The number of a code.
unfoldable pub code : HResult → ℕ
code s_ok = 0
code s_false = 1
code e_pointer = 0x80004003
code e_invalidarg = 0x80070057
code e_outofmemory = 0x8007000E
code more_data = 0x800700EA
code e_abi_mismatch = 0x80040300
code e_core = 0x80040301
code e_no_item = 0x80040302
code e_name = 0x80040303
code e_type = 0x80040304
code e_range = 0x80040305
code e_file = 0x80040306
code e_closed = 0x80040307
code e_scope = 0x80040308
code e_path = 0x80040309
code e_exists = 0x8004030A
code e_no_pos = 0x8004030B
code e_limit = 0x8004030C
code e_depth = 0x8004030D
code e_state = 0x8004030E

abbrev pub c_closed : ℕ
c_closed = 0x80040300

abbrev pub c_load : ℕ
c_load = 0x80040301

abbrev pub c_save : ℕ
c_save = 0x80040302

abbrev pub c_no_field : ℕ
c_no_field = 0x80040303

abbrev pub c_no_pos : ℕ
c_no_pos = 0x80040304

abbrev pub c_type : ℕ
c_type = 0x80040305

abbrev pub c_declare : ℕ
c_declare = 0x80040306

abbrev pub c_not_list : ℕ
c_not_list = 0x80040307

abbrev pub c_not_vect : ℕ
c_not_vect = 0x80040308

abbrev pub c_no_coll : ℕ
c_no_coll = 0x80040309

abbrev pub c_range : ℕ
c_range = 0x8004030A

abbrev pub c_kernel : ℕ
c_kernel = 0x8004030C

abbrev pub c_stale : ℕ
c_stale = 0x8004030D

abbrev pub c_name : ℕ
c_name = 0x8004030E

abbrev pub c_foreign : ℕ
c_foreign = 0x80040310

abbrev pub c_page_state : ℕ
c_page_state = 0x80040311

abbrev pub c_path : ℕ
c_path = 0x80040312

abbrev pub c_limit : ℕ
c_limit = 0x80040313

-- `FAILED`: the sign bit.
abbrev pub is_failure : ℕ → Bool
is_failure hr = leb (2 ^ 31) hr

unfoldable pub from_facade : ℕ → ℕ
from_facade hr =
    if leb (2 ^ 31) hr
    then (if hr == 0x80040302
        then c_no_field
        else if hr == 0x80040303
        then c_name
        else if hr == 0x80040304
        then c_type
        else if hr == 0x80040305
        then c_range
        else if hr == 0x80040306
        then c_load
        else if hr == 0x80040307
        then c_closed
        else if hr == 0x80040308
        then c_no_coll
        else if hr == 0x80040309
        then c_path
        else if hr == 0x8004030A
        then c_declare
        else if hr == 0x8004030B
        then c_no_pos
        else if hr == 0x8004030C
        then c_limit
        else if hr == 0x8004030D
        then c_path
        else if hr == 0x8004030E
        then c_page_state
        else if hr == 0x80040301
        then c_kernel
        else if hr == 0x80040300
        then c_kernel
        else hr)
    else hr
