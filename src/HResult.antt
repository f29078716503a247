-- ===== src/HResult.antt =====
-- The HRESULTs that the facade returns: include/MsgFacade.h, and the system's own codes.
use msg_facade.Prelude.{Bool, true, false}

pub data HResult : Type 0 where
  s_ok s_false : HResult
  e_pointer e_invalidarg e_outofmemory more_data : HResult
  e_abi_mismatch e_core e_no_item e_name e_type e_range e_file e_closed : HResult
  e_scope e_path e_exists e_no_pos e_limit e_depth e_state : HResult

-- FAILED ( hr ): every code but the two success codes has its top bit set.
abbrev pub failed : HResult → Bool
failed s_ok = false
failed s_false = false
failed _ = true
