-- ===== src/Route.antt =====
-- Routes and their path grammar: `FacadeStep` of src/FacadeInternal.h, `IsUsableName` of
-- src/FacadeInternal.cpp, `ParseRoute` and `FormatRoute` of src/FacadeStore.cpp.
-- The core's name validator is a parameter. A text ends where its list ends.
pub mod Parse
pub mod Format
use msg_facade.Prelude.{
  ℕ, zero, suc, ◌+◌, ◌/◌, ◌%◌, Bool, false, not, ◌||◌, Option, none, some, List, [], ◌∷◌, ◌++◌, ltb,
  leb, ◌==◌, if◌then◌else◌, Text, length,
}
use msg_facade.HResult.{HResult, s_ok, e_pointer, e_path, e_depth}

abbrev pub scope_child : ℕ
scope_child = 0

abbrev pub scope_attr : ℕ
scope_attr = 1

abbrev pub scope_elem : ℕ
scope_elem = 2

abbrev pub max_name : ℕ
max_name = 63

abbrev pub max_depth : ℕ
max_depth = 64

pub record Step : Type 0 where
  pub scope : ℕ
  pub name : Text
  pub index : ℕ

abbrev pub Route : Type 0
Route = List Step

-- A step that names a child, and one that names an element of a vect.
abbrev pub named : ℕ → Text → Step
named scope name = record { scope = scope; name = name; index = 0 }

abbrev pub element : ℕ → Step
element i = record { scope = scope_elem; name = []; index = i }

-- The `while` loop that collects a name: it stops at the end, at '.' and at '@'. The result is the name
-- with the unread text.
unfoldable pub take_name : Text → Text × Text
take_name [] = ([], [])
take_name (c ∷ s) =
    let (name, rest) = take_name s in
    if c == b'.' || c == b'@' then ([], c ∷ s) else (c ∷ name, rest)

-- The scope that a unit introduces.
unfoldable pub scope_of : ℕ → Option ℕ
scope_of c = if c == b'.' then some scope_child else if c == b'@' then some scope_attr else none

-- What ParseRoute returns: the code, and what it has left in `rOut`.
pub record Parsed : Type 0 where
  pub hr : HResult
  pub out : Route

module _ (valid_itemname : Text → Bool) where
  unfoldable pub is_usable_name : Option Text → Bool
  is_usable_name none = false
  is_usable_name (some []) = false
  is_usable_name (some (c ∷ s)) =
      if ltb max_name (length (c ∷ s)) then false else valid_itemname (c ∷ s)

  -- The outer loop, with fuel; `none` means that the fuel ran out.
  unfoldable pub parse_loop : ℕ → Text → Route → Option Parsed
  parse_loop zero s out = none
  parse_loop (suc fuel) [] out = some (record { hr = s_ok; out = out })
  parse_loop (suc fuel) (c ∷ s) out =
      let (name, rest) = take_name s in
      elim (scope_of c) [
        | none ↦ some (record { hr = e_path; out = out })
        | some scope ↦
            let more = parse_loop fuel rest (out ++ named scope name ∷ []) in
            if not (is_usable_name (some name))
            then some (record { hr = e_path; out = out })
            else if leb max_depth (length out)
            then some (record { hr = e_depth; out = out })
            else more
      ]

  -- Each round reads a unit, so a fuel of one more than the length of the text is enough.
  unfoldable pub parse_route : Option Text → Option Parsed
  unfolding scope_of take_name is_usable_name parse_loop
  parse_route none = some (record { hr = e_pointer; out = [] })
  parse_route (some s) = parse_loop (suc (length s)) s []

-- `%u` of a 32-bit number: at most ten digits.
unfoldable pub decimal_digits : ℕ → ℕ → Text
decimal_digits zero n = []
decimal_digits (suc k) n =
    let more = decimal_digits k (n / 10) in
    (if n / 10 == 0 then [] else more) ++ (b'0' + n % 10) ∷ []

unfoldable pub format_step : Step → Text
unfolding decimal_digits
format_step t =
    if t.scope == scope_elem
    then b'[' ∷ (decimal_digits 10 t.index ++ b']' ∷ [])
    else (if t.scope == scope_attr then b'@' else b'.') ∷ t.name

-- The loop appends the text of each step.
format_loop : Route → Text → Text
format_loop [] out = out
format_loop (t ∷ r) out = format_loop r (out ++ format_step t)

unfoldable pub format_route : Route → Text
unfolding format_loop
format_route r = format_loop r []
