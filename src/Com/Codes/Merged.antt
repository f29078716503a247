-- ===== src/Com/Codes/Merged.antt =====
-- What the conversion of com/ComUtil.cpp keeps of a code of the facade.
use msg_facade.Prelude.{ℕ, ◌≡◌, refl, sym, ap, ◌∙◌, arith, ◌==◌, if◌then◌else◌}
use msg_facade.HResult.{
  HResult, s_ok, s_false, e_pointer, e_invalidarg, e_outofmemory, more_data, e_abi_mismatch, e_core,
  e_no_item, e_name, e_type, e_range, e_file, e_closed, e_scope, e_path, e_exists, e_no_pos,
  e_limit, e_depth, e_state,
}
use msg_facade.Com.Codes.{
  code, from_facade, is_failure, c_closed, c_load, c_no_field, c_no_pos, c_type, c_declare,
  c_no_coll, c_range, c_kernel, c_name, c_path, c_limit,
}

-- The codes that a client of the COM layer cannot tell apart, as one of them.
abbrev pub merged : HResult → HResult
merged e_depth = e_path
merged e_abi_mismatch = e_core
merged e = e

-- The code that a number of the COM layer stands for.
to_facade : ℕ → HResult
to_facade n =
    if n == 0
    then s_ok
    else if n == 1
    then s_false
    else if n == 0x80004003
    then e_pointer
    else if n == 0x80070057
    then e_invalidarg
    else if n == 0x8007000E
    then e_outofmemory
    else if n == 0x800700EA
    then more_data
    else if n == c_kernel
    then e_core
    else if n == c_no_field
    then e_no_item
    else if n == c_name
    then e_name
    else if n == c_type
    then e_type
    else if n == c_range
    then e_range
    else if n == c_load
    then e_file
    else if n == c_closed
    then e_closed
    else if n == c_no_coll
    then e_scope
    else if n == c_path
    then e_path
    else if n == c_declare
    then e_exists
    else if n == c_no_pos
    then e_no_pos
    else if n == c_limit
    then e_limit
    else e_state

to_facade-from_facade : (e : HResult) → to_facade (from_facade (code e)) ≡ merged e
unfolding to_facade from_facade code
to_facade-from_facade s_ok = refl
to_facade-from_facade e_depth = refl
to_facade-from_facade e_abi_mismatch = refl
to_facade-from_facade _ = refl

-- Two codes of the facade that FromFacade makes one are the same code, but for MSGF_E_DEPTH, which is
-- taken for MSGF_E_PATH, and MSGF_E_ABI_MISMATCH, which is taken for MSGF_E_CORE.
pub from_facade-code :
    (a b : HResult) → from_facade (code a) ≡ from_facade (code b) → merged a ≡ merged b
from_facade-code a b h = sym (to_facade-from_facade a) ∙ ap to_facade h ∙ to_facade-from_facade b

-- FromFacade makes a failure of a failure and a success of a success, for every number, so that no
-- conversion, and no second one, hides an error.
pub from_facade-is_failure : (hr : ℕ) → is_failure (from_facade hr) ≡ is_failure hr
unfolding from_facade
from_facade-is_failure hr = ground arith
