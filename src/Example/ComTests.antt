-- ===== src/Example/ComTests.antt =====
-- Concrete inputs for the COM layer over the small core.
use msg_facade.Prelude.{
  ℕ, ◌+◌, ◌≤◌, ◌≡◌, refl, inl, true, false, none, some, [], ◌∷◌, arith, codes, length, take, drop,
  text_eq,
}
use msg_facade.Prelude.Int.{pos}
use msg_facade.HResult.{e_depth, e_path}
use msg_facade.CopyOut.{copy_out, c_str}
use msg_facade.Types.{int32, is_int_type}
use msg_facade.Outcome.{ok}
use msg_facade.Route.{Route, named, format_route, is_usable_name}
use msg_facade.Store.{
  open_store, resolve_object, resolve_field, resolve_from, resolve_step, resolve_child, find_child,
  scope_cursor,
}
use msg_facade.Store.Search.{curs_at_end}
use msg_facade.Cursor.{FacadeCursor, make_cursor}
use msg_facade.Walker
use msg_facade.Walker.{FacadeWalker, on_levels, name_at}
use msg_facade.Node.{get_type, get_int, field_of, is_public_scope}
use msg_facade.Values.{read_int}
use msg_facade.Node.Restructure.{open_cursor}
use msg_facade.Com.{answered}
use msg_facade.Com.Codes.{code, from_facade}
use msg_facade.Com.Codes.Merged.{merged, from_facade-code}
use msg_facade.Com.Strings.{zeros}
use msg_facade.Com.Enum.{Enum}
use msg_facade.Com.Enum.Passes.{pass, sum, pass-take}
use msg_facade.Com.Cursor.{ComStore, ComCursor, bind}
use msg_facade.Fn.Names.{names}
use msg_facade.Fn.Names.Listing.{names_lem}
use msg_facade.Com.Cursor.Rebind.{IsStale, bind_lem}
use msg_facade.Com.Walk.{MsgRecurs, get_field, stop_name, track}
use msg_facade.Com.Walk.Paths.{IsStop, get_field_lem, track_lem}
use msg_facade.Com.Values.{Variant, vt_small, Conversions, read_node_value, declare_variant}
use msg_facade.Com.Values.Kept.{Holds, read_node_value_lem, IsRefused, declare_variant_taken}
use msg_facade.Example.{toy, toy_positions, place_index, on_a, place_size}
use msg_facade.Example.Tests.{
  a_store, opened, plain-IsNameUnit, child-IsField, a_walker, root-IsField, a-IsTaken,
}

same_code : from_facade (code e_depth) ≡ from_facade (code e_path)
unfolding from_facade code
same_code = refl

from_facade_example : merged e_depth ≡ merged e_path
from_facade_example = from_facade-code e_depth e_path same_code

abbrev snapshot : Enum ℕ
snapshot = record { values = 4 ∷ 5 ∷ 6 ∷ []; index = 1 }

pass_example : pass (1 ∷ 0 ∷ 5 ∷ []) snapshot ≡ take (sum (1 ∷ 0 ∷ 5 ∷ [])) (5 ∷ 6 ∷ [])
pass_example = pass-take (1 ∷ 0 ∷ 5 ∷ []) snapshot

-- A cursor that was on the sixth element before the store changed.
abbrev stale : ComCursor toy
stale = record { owner = []; scope = 0; curs = on_a; seq = 1; index = 5 }

abbrev com_store : ComStore toy
com_store = record { held = some a_store; mutations = 2 }

abbrev a_new_cursor : FacadeCursor toy
a_new_cursor = record { store = a_store; owner = []; scope = 0; curs = on_a }

stale-IsStale : IsStale toy (pos 5) (toy_positions (pos 5)) com_store stale a_store a_new_cursor
unfolding toy_positions open_store open_cursor make_cursor is_public_scope resolve_field
    resolve_object resolve_from scope_cursor
stale-IsStale = record {
  held = refl;
  old = λ e. omega arith;
  reopened = refl;
  opened = refl;
  first = refl;
}

reopened : open_cursor toy a_store [] 0 ≡ ok a_new_cursor
unfolding open_store open_cursor make_cursor is_public_scope resolve_field resolve_object
    resolve_from scope_cursor
reopened = refl

names_example :
    (names toy 3 a_store [] 0 ≡ ok (codes "A" ∷ codes "L" ∷ []))
    × (length (codes "A" ∷ codes "L" ∷ []) ≡ 2)
unfolding toy_positions
names_example =
    names_lem toy (pos 5) (toy_positions (pos 5)) a_store [] 0 a_new_cursor
      (codes "A" ∷ codes "L" ∷ []) 3 reopened opened refl
      (omega arith, refl, omega arith, (omega arith, refl, omega arith, refl)) (omega arith)

bind_example :
    ((bind toy com_store stale).0 ≡ answered tt)
    × ((bind toy com_store stale).1.seq ≡ 2)
    × (place_index (bind toy com_store stale).1.curs ≡ 0)
    × (place_size (bind toy com_store stale).1.curs ≡ 2)
unfolding toy_positions
bind_example =
    bind_lem toy (pos 5) (toy_positions (pos 5)) com_store stale a_store a_new_cursor stale-IsStale
      (omega arith)

abbrev a_walk : MsgRecurs toy
a_walk = record { held = true; walk = a_walker; root_path = []; ancestry = codes "A" ∷ [] }

root_path : a_walk.root_path ≡ format_route []
unfolding format_route
root_path = refl

a_walk-IsStop : IsStop toy a_walk [] (pos 5) 1 (codes "A") []
unfolding open_store resolve_object resolve_field resolve_from resolve_step resolve_child find_child
    scope_cursor text_eq
a_walk-IsStop = record {
  held = refl;
  at = root_path;
  kept = refl;
  opened = opened;
  usable = record {
    steps = (
      record { in_scope = inl refl; usable = unfold is_usable_name in refl; no_index = refl },
      tt,
    );
    depth = omega arith;
  };
  resolves = child-IsField.resolved;
}

get_field_example : get_field toy a_walk ≡ answered (named 0 (codes "A") ∷ [])
get_field_example =
    get_field_lem toy a_walk [] (pos 5) 1 (codes "A") [] plain-IsNameUnit a_walk-IsStop

standing : Walker.is_end toy a_walker true ≡ ok false
unfolding Walker.is_end on_levels open_store curs_at_end
standing = refl

called : stop_name toy a_walker ≡ some (codes "A")
unfolding stop_name Walker.get_name name_at open_store curs_at_end copy_out zeros c_str
called = refl

track_example :
    (length (track toy a_walk).ancestry ≡ Walker.depth toy a_walker + 1)
    × (drop (Walker.depth toy a_walker) (track toy a_walk).ancestry ≡ codes "A" ∷ [])
    × (Walker.depth toy a_walker ≤ 1
        → take (Walker.depth toy a_walker) (track toy a_walk).ancestry
          ≡ take (Walker.depth toy a_walker) (codes "A" ∷ []))
track_example = track_lem toy a_walk (codes "A") standing called

abbrev at_a : Route
at_a = named 0 (codes "A") ∷ []

typed : get_type toy a_store at_a true ≡ ok int32
unfolding get_type field_of open_store resolve_field resolve_object resolve_from resolve_step
    resolve_child find_child scope_cursor text_eq
typed = refl

got : get_int toy a_store at_a true ≡ ok (pos 5, false)
unfolding get_int read_int field_of open_store resolve_field resolve_object resolve_from
    resolve_step resolve_child find_child scope_cursor text_eq
got = refl

int_type : is_int_type int32 ≡ true
unfolding is_int_type
int_type = refl

read_node_value_example :
    (w : Variant ℕ ℕ) × (read_node_value toy a_store at_a true ≡ ok w) × Holds (pos 5) w
read_node_value_example =
    read_node_value_lem toy a_store at_a int32 (pos 5) false typed int_type refl got (omega arith)
      (omega arith)

-- Conversions that know integers only.
abbrev pub conversions : Conversions ℕ ℕ
conversions = record {
  to_bit = λ v. none;
  to_i4 = λ v. elim v [ vt_small n ↦ some n | _ ↦ none ];
  to_i8 = λ v. none;
  to_r8 = λ v. none;
  to_bstr = λ v. none;
}

declare_variant_example :
    IsRefused toy a_store (
      declare_variant toy conversions [] 0 (some (codes "A")) (vt_small (pos 7)) false true a_store)
declare_variant_example =
    declare_variant_taken toy conversions a_store [] (pos 5) 0 0 (codes "A") (vt_small (pos 7)) true
      root-IsField a-IsTaken
