-- ===== src/Fn/Handles.antt =====
-- `Handle` of include/MsgFacadeFn.hpp: the variables of a program that hold an object of the facade, or
-- nothing, and the objects on which Release was called, the last one first. An object is known by a number.
pub mod Once
use msg_facade.Prelude.{
  ℕ, zero, suc, ◌<◌, Option, none, some, List, [], ◌∷◌, ◌==◌, if◌then◌else◌, length,
}

pub record Handles : Type 0 where
  pub slots : List (Option ℕ)
  pub released : List ℕ

unfoldable pub no_handles : Handles
no_handles = record { slots = []; released = [] }

-- What a handle holds, and the handles with that one empty.
unfoldable pub take_out : ℕ → List (Option ℕ) → Option ℕ × List (Option ℕ)
take_out i [] = (none, [])
take_out zero (o ∷ slots) = (o, none ∷ slots)
take_out (suc i) (o ∷ slots) = let (p, rest) = take_out i slots in (p, o ∷ rest)

unfoldable pub put_in : ℕ → Option ℕ → List (Option ℕ) → List (Option ℕ)
put_in i o [] = []
put_in zero o (_ ∷ slots) = o ∷ slots
put_in (suc i) o (q ∷ slots) = q ∷ put_in i o slots

-- `m_p->Release ( )`, if there is an object.
unfoldable pub release_object : Option ℕ → List ℕ → List ℕ
release_object none released = released
release_object (some p) released = p ∷ released

-- `reset`, which the destructor calls as well.
unfoldable pub reset_handle : ℕ → Handles → Handles
reset_handle i h =
    let (o, slots) = take_out i h.slots in
    record { slots = slots; released = release_object o h.released }

-- `Handle ( I *p )`, and `Handle ( )` for a NULL pointer.
unfoldable pub construct : Option ℕ → Handles → Handles
construct o h = record h { slots = o ∷ h.slots }

-- `Handle ( Handle&& rhs )`
unfoldable pub move_construct : ℕ → Handles → Handles
move_construct i h = let (o, slots) = take_out i h.slots in record h { slots = o ∷ slots }

unfoldable pub take_over : ℕ → ℕ → Handles → Handles
take_over i j h =
    let (o, slots) = take_out j (reset_handle i h).slots in
    record (reset_handle i h) { slots = put_in i o slots }

-- `operator = ( Handle&& rhs )`, which does nothing to a handle that is moved to itself.
unfoldable pub move_assign : ℕ → ℕ → Handles → Handles
move_assign i j h = if i == j then h else take_over i j h

-- `put`, and what the callee then writes through the pointer.
unfoldable pub receive : ℕ → Option ℕ → Handles → Handles
receive i o h = record (reset_handle i h) { slots = put_in i o (reset_handle i h).slots }

unfoldable pub handed_over : Option ℕ → List ℕ → List ℕ
handed_over none given = given
handed_over (some p) given = p ∷ given

-- `Life given h`: the handles get to `h` when the facade hands over the objects `given`, the last one first.
pub data Life : List ℕ → Handles → Type 0 where
  no_life : Life [] no_handles
  constructs :
      {given : List ℕ} {h : Handles} (o : Option ℕ)
      → Life given h
      → Life (handed_over o given) (construct o h)
  move_constructs :
      {given : List ℕ} {h : Handles} (i : ℕ)
      → i < length h.slots
      → Life given h
      → Life given (move_construct i h)
  move_assigns :
      {given : List ℕ} {h : Handles} (i j : ℕ)
      → i < length h.slots
      → j < length h.slots
      → Life given h
      → Life given (move_assign i j h)
  receives :
      {given : List ℕ} {h : Handles} (i : ℕ) (o : Option ℕ)
      → i < length h.slots
      → Life given h
      → Life (handed_over o given) (receive i o h)
  resets :
      {given : List ℕ} {h : Handles} (i : ℕ)
      → i < length h.slots
      → Life given h
      → Life given (reset_handle i h)
