-- ===== src/Com/Kinds.antt =====
-- The comparisons with MSGF_KIND_* of com/ComCursor.cpp and com/ComWalk.cpp.
use msg_facade.Prelude.{Bool, true, false}
use msg_facade.Cursor.{Kind, item_kind, list_kind, vect_kind, data_kind}

unfoldable pub kind_is : Kind → Kind → Bool
kind_is item_kind item_kind = true
kind_is list_kind list_kind = true
kind_is vect_kind vect_kind = true
kind_is data_kind data_kind = true
kind_is _ _ = false
