-- ===== src/Com/Stores/Nodes.antt =====
-- The nodes that `CMsgStore` of com/ComStore.cpp hands out: Root, FieldAt and PathOf. A field is known by the
-- route of its node.
use msg_facade.Prelude.{ℕ, ◌^◌, true, Option, none, some, Text}
use msg_facade.Prelude.Int.{ℤ}
use msg_facade.Types.{to_unsigned}
use msg_facade.Outcome.{Outcome, ok, fail, diverge}
use msg_facade.Route.{Route}
use msg_facade.Core.{Msgcore}
use msg_facade.Store.{Store}
use msg_facade.Store.Tree.{get_root, node_from_path, node_from_pos}
use msg_facade.Node.{get_path}
use msg_facade.Com.{Answer, raised, unending, converted}
use msg_facade.Com.Codes.{c_closed, c_no_pos}
use msg_facade.Com.Strings.{read_string}
use msg_facade.Com.Values.{Variant, vt_bstr, mismatch, Conversions}
use msg_facade.Com.Stores.{MsgStore}

module _ (core : Msgcore) where
  open core use {Real, Float}

  unfoldable pub root_of : MsgStore core → Answer Route
  root_of st = elim st.held [ none ↦ raised c_closed | some s ↦ converted (get_root core s true) ]

  -- A number is a position, which is cast to 64 bits. The fuel is that of the position search.
  at_number : ℕ → Store core → Option ℤ → Answer Route
  at_number fuel s none = raised mismatch
  at_number fuel s (some i) = converted (node_from_pos core fuel s (to_unsigned (2 ^ 64) i) true)

  -- A string is a path.
  unfoldable pub node_at :
      Conversions Real Float → ℕ → Store core → Variant Real Float → Answer Route
  unfolding at_number
  node_at change fuel s (vt_bstr path) = converted (node_from_path core s (some path) true)
  node_at change fuel s v = at_number fuel s (change.to_i8 v)

  unfoldable pub field_at :
      Conversions Real Float → ℕ → Variant Real Float → MsgStore core → Answer Route
  field_at change fuel v st = elim st.held [
    | none ↦ raised c_closed
    | some s ↦ node_at change fuel s v
  ]

  path_of_node : Store core → Outcome Route → Answer Text
  path_of_node s (ok r) = converted (read_string (get_path core s r))
  path_of_node s (fail e) = raised c_no_pos
  path_of_node s diverge = unending

  unfoldable pub path_of : ℕ → ℤ → MsgStore core → Answer Text
  unfolding path_of_node
  path_of fuel target st = elim st.held [
    | none ↦ raised c_closed
    | some s ↦ path_of_node s (node_from_pos core fuel s (to_unsigned (2 ^ 64) target) true)
  ]
