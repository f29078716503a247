-- ===== src/Com/Stores/Notices.antt =====
-- Triggers and demand paging of `CMsgStore`, com/ComStore.cpp.
use msg_facade.Prelude.{ℕ, ◌^◌, Bool, false, Option, none, some, ◌==◌}
use msg_facade.Prelude.Int.{ℤ, pos, negsuc}
use msg_facade.HResult.{HResult, s_ok}
use msg_facade.Types.{to_signed, to_unsigned}
use msg_facade.Outcome.{Outcome, ok, fail, diverge, ◌>>=◌}
use msg_facade.Core.{Msgcore}
use msg_facade.Store.{Store}
use msg_facade.Store.Life
use msg_facade.Store.Life.{set_paging}
use msg_facade.Store.Triggers
use msg_facade.Com.{Answer, answered, raised, unending}
use msg_facade.Com.Codes.{code, from_facade, c_type, c_range}
use msg_facade.Com.Values.{Variant, Conversions}
use msg_facade.Com.Stores.{MsgStore, paging_adapter, on_store, with_store, answered_with}

module _ (core : Msgcore) where
  open core use {Real, Float}

  -- The masks and the positions are cast to unsigned.
  unfoldable pub arm_trigger : ℤ → ℤ → MsgStore core → Answer (Unit {0}) × MsgStore core
  arm_trigger mask target = on_store core λ s st.
      answered_with core st
        (Triggers.arm core (to_unsigned (2 ^ 32) mask) (to_unsigned (2 ^ 64) target) s)

  unfoldable pub disarm_trigger : ℤ → ℤ → MsgStore core → Answer (Unit {0}) × MsgStore core
  disarm_trigger mask target = on_store core λ s st.
      answered_with core st
        (Triggers.disarm core (to_unsigned (2 ^ 32) mask) (to_unsigned (2 ^ 64) target) s)

  unfoldable pub fire_triggers : ℤ → ℤ → MsgStore core → Answer ℤ × MsgStore core
  fire_triggers mask target = on_store core λ s st.
      let (r, s') =
        Triggers.fire core (to_unsigned (2 ^ 32) mask) (to_unsigned (2 ^ 64) target) s in
      answered_with core st (r >>= λ n. ok (to_signed (2 ^ 32) n), s')

  -- The second conversion of VariantToP2Pos.
  from_signed : Option ℤ → Answer ℕ
  from_signed none = raised c_type
  from_signed (some (negsuc n)) = raised c_range
  from_signed (some (pos n)) = answered n

  -- `unsigned`: ChangeType to VT_UI8.
  unfoldable pub variant_to_pos :
      Conversions Real Float → (Variant Real Float → Option ℕ) → Variant Real Float → Answer ℕ
  unfolding from_signed
  variant_to_pos change unsigned v = elim (unsigned v) [
    | some n ↦ answered n
    | none ↦ from_signed (change.to_i8 v)
  ]

  -- `OnPageIn` and `OnPageOut` of the adapter: `ask` is the sink, which may fail or raise.
  unfoldable pub ask_sink : (ℕ → Option Bool) → MsgStore core → Bool
  ask_sink ask st = elim st.paging_sink [
    | none ↦ false
    | some sink ↦ elim (ask sink) [ none ↦ false | some handled ↦ handled ]
  ]

  without_sink : MsgStore core → MsgStore core
  without_sink st = record st { paging_sink = none; apartment = 0 }

  -- The sink is dropped again if the facade refuses the adapter.
  hooked : MsgStore core → Outcome HResult × Store core → Answer (Unit {0}) × MsgStore core
  unfolding without_sink
  hooked st (ok hr, s) = (answered tt, with_store core st s)
  hooked st (fail e, s) = (raised (from_facade (code e)), without_sink (with_store core st s))
  hooked st (diverge, s) = (unending, with_store core st s)

  -- `thread`: the thread that calls.
  unfoldable pub set_paging_sink : Option ℕ → ℕ → MsgStore core → Answer (Unit {0}) × MsgStore core
  unfolding without_sink hooked
  set_paging_sink none thread =
      on_store core
        λ s st. (answered tt, without_sink (with_store core st (set_paging core none s).1))
  set_paging_sink (some sink) thread = on_store core λ s st.
      hooked (record st { paging_sink = some sink; apartment = thread })
        (set_paging core (some paging_adapter) s)

  -- S_FALSE is the answer false.
  was_paged : MsgStore core → Outcome HResult × Store core → Answer Bool × MsgStore core
  was_paged st (r, s) = answered_with core st (r >>= (λ hr. ok (code hr == code s_ok)), s)

  on_position :
      (ℕ → Store core → Outcome HResult × Store core)
      → Answer ℕ
      → Store core
      → MsgStore core
      → Answer Bool × MsgStore core
  unfolding was_paged
  on_position page (raised hr) s st = (raised hr, st)
  on_position page unending s st = (unending, st)
  on_position page (answered target) s st = was_paged st (page target s)

  unfoldable pub page_in_at :
      Conversions Real Float
      → (Variant Real Float → Option ℕ)
      → Variant Real Float
      → MsgStore core
      → Answer Bool × MsgStore core
  unfolding on_position
  page_in_at change unsigned v =
      on_store core (on_position (Triggers.page_in core) (variant_to_pos change unsigned v))

  unfoldable pub page_out_at :
      Conversions Real Float
      → (Variant Real Float → Option ℕ)
      → Variant Real Float
      → Bool
      → MsgStore core
      → Answer Bool × MsgStore core
  unfolding on_position
  page_out_at change unsigned v flush = on_store core (
      on_position (λ target. Triggers.page_out core target flush)
        (variant_to_pos change unsigned v))

  done : Outcome HResult × Store core → Outcome (Unit {0}) × Store core
  done (r, s) = (r >>= (λ hr. ok tt), s)

  unfoldable pub push_registration : MsgStore core → Answer (Unit {0}) × MsgStore core
  unfolding done
  push_registration = on_store core λ s st. answered_with core st (done (Life.push_paging core s))

  unfoldable pub pop_registration : MsgStore core → Answer (Unit {0}) × MsgStore core
  unfolding done
  pop_registration = on_store core λ s st. answered_with core st (done (Life.pop_paging core s))
