-- ===== src/Container.antt =====
-- `FacadeList` and `FacadeVect` of src/FacadeContainer.cpp, and the container part of
-- src/FacadeInternal.cpp.
pub mod Lists
pub mod Vects
use msg_facade.Prelude.{Bool, true, false, Option, none, some}
use msg_facade.HResult.{e_core, e_range}
use msg_facade.Outcome.{Outcome, ok, fail}

-- `if ( !… ) return MSGF_E_RANGE;` for a call of the core that answers whether it did it.
abbrev pub done_or_range : Option Bool → Outcome (Unit {0})
done_or_range none = fail e_core
done_or_range (some false) = fail e_range
done_or_range (some true) = ok tt
