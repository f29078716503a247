-- ===== src/Store/Life/Pushed.antt =====
-- The depth of saved paging registrations, `m_nPagingPushed`: the core's own push does not nest.
use msg_facade.Prelude.{◌≡◌, true, false}
use msg_facade.Core.{Msgcore}
use msg_facade.Store.{Store}
use msg_facade.Store.Life.{is_some}
use msg_facade.Store.Life.Closed.{Method, m_clear, m_pop}

-- Every method but PopPaging, and Clear, which starts anew with no registration saved.
abbrev pub IsKeeping : Method → Type 0
IsKeeping m_clear = ⊥
IsKeeping m_pop = ⊥
IsKeeping m = Unit

module _ (core : Msgcore) where
  -- An open store with one registration saved.
  abbrev IsOnce : Store core → Type 0
  IsOnce s = (s.closed ≡ false) × (is_some s.mgr ≡ true) × (s.pushed ≡ 1)
