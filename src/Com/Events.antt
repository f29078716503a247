-- ===== src/Com/Events.antt =====
-- The event path of `CMsgStore`, com/ComStore.cpp: the queue that the mutating thread fills, what the
-- dispatch thread makes of an event, and the sinks. The Global Interface Table of COM is a parameter. The
-- count of dropped events is without the wrap of a LONG.
pub mod Dispatch
pub mod Sinks
use msg_facade.Prelude.{
  ℕ, ◌+◌, ◌^◌, Bool, true, false, not, ◌&&◌, Option, none, some, List, [], ◌∷◌, ◌++◌, map, leb,
  ◌==◌, if◌then◌else◌, Text, codes, length,
}
use msg_facade.Types.{to_signed}
use msg_facade.Outcome.{Outcome, ok, fail, diverge, ◌>>=◌}
use msg_facade.Route.{decimal_digits}
use msg_facade.Core.{Msgcore}
use msg_facade.Store.{Store}
use msg_facade.Store.Tree.{node_from_pos}
use msg_facade.Node.{get_path}
use msg_facade.Com.Strings.{read_string}
use msg_facade.Com.Values.{Variant, vt_small, vt_large, vt_bstr}
use msg_facade.Com.Cursor.{ComStore}

abbrev pub max_queued : ℕ
max_queued = 4096

-- `change`: the trigger bit, the position and the path. `error`: the count of which `what` tells, which is
-- its `sentence`.
pub data StoreEvent : Type 0 where
  change : ℕ → ℕ → Text → StoreEvent
  error : ℕ → StoreEvent

pub record EventQueue : Type 0 where
  pub waiting : List StoreEvent
  pub dropped : ℕ

-- `Push` under the lock of the queue, and whether it is to set the event after it.
unfoldable pub enqueue : StoreEvent → EventQueue → Bool × EventQueue
enqueue ev q =
    if leb max_queued (length q.waiting)
    then (false, record q { dropped = q.dropped + 1 })
    else (true, record q { waiting = q.waiting ++ ev ∷ [] })

unfoldable pub pop_from : List StoreEvent → ℕ → Option StoreEvent × EventQueue
pop_from (ev ∷ rest) dropped = (some ev, record { waiting = rest; dropped = dropped })
pop_from [] dropped =
    if dropped == 0
    then (none, record { waiting = []; dropped = dropped })
    else (some (error dropped), record { waiting = []; dropped = 0 })

-- `Pop`
unfoldable pub pop_event : EventQueue → Option StoreEvent × EventQueue
unfolding pop_from
pop_event q = pop_from q.waiting q.dropped

-- `OnTrigger` queues the position bare.
unfoldable pub on_trigger : ℕ → ℕ → StoreEvent
on_trigger kind target = change kind target []

unfoldable pub sentence : ℕ → Text
sentence n =
    decimal_digits 10 n ++ codes " change event(s) dropped: the event sink could not keep up"

module _ (core : Msgcore) where
  open core use {Real, Float}

  -- A read that fails leaves the path empty.
  unfoldable pub or_no_path : Outcome Text → Outcome Text
  or_no_path (ok text) = ok text
  or_no_path (fail e) = ok []
  or_no_path diverge = diverge

  -- NodeFromPos, then GetPath of the node. The fuel is that of the position search.
  unfoldable pub path_of_pos : ℕ → Store core → ℕ → Outcome Text
  path_of_pos fuel s target =
      node_from_pos core fuel s target true >>= λ r. read_string (get_path core s r)

  -- The path of a change, resolved when it is dispatched.
  unfoldable pub path_for : ℕ → ComStore core → StoreEvent → Outcome Text
  path_for fuel st (error n) = ok []
  path_for fuel st (change kind target path) =
      if not (target == 0) && length path == 0
      then elim st.held [ none ↦ ok path | some s ↦ or_no_path (path_of_pos fuel s target) ]
      else ok path

  -- The member of the event interface, and its arguments, the last one first.
  unfoldable pub arguments : StoreEvent → Text → ℕ × List (Variant Real Float)
  arguments (change kind target path) text = (
    1,
    vt_bstr text ∷ vt_large (to_signed (2 ^ 64) target) ∷ vt_small (to_signed (2 ^ 32) kind) ∷ [],
  )
  arguments (error n) text = (2, vt_bstr (sentence n) ∷ [])

  -- The calls of Invoke, by the sink. A sink that the table does not give is left out.
  unfoldable pub invoke : {A : Type 0} → (ℕ → Option ℕ) → List ℕ → A → List (ℕ × A)
  invoke fetch [] a = []
  invoke fetch (git ∷ rest) a =
      let more = invoke fetch rest a in
      elim (fetch git) [ none ↦ more | some sink ↦ (sink, a) ∷ more ]

  -- `table`: GetInterfaceFromGlobal, where there is a table. `sinks`: our cookies with those of the table.
  unfoldable pub fire_event :
      ℕ
      → Option (ℕ → Option ℕ)
      → ComStore core
      → List (ℕ × ℕ)
      → StoreEvent
      → Outcome (List (ℕ × (ℕ × List (Variant Real Float))))
  fire_event fuel table st sinks ev = path_for fuel st ev >>= λ text. elim table [
    | none ↦ ok []
    | some fetch ↦ ok (invoke fetch (map (λ (cookie, git). git) sinks) (arguments ev text))
  ]
