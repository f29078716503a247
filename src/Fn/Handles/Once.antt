-- ===== src/Fn/Handles/Once.antt =====
-- How often the handles of include/MsgFacadeFn.hpp release an object.
use msg_facade.Prelude.{
  ℕ, zero, suc, ◌+◌, ◌<◌, ◌≡◌, refl, Option, none, some, List, [], ◌∷◌, arith, ◌==◌, if◌then◌else◌,
  length,
}
use msg_facade.Fn.Handles.{
  Handles, no_handles, take_out, put_in, release_object, reset_handle, construct, move_construct,
  take_over, move_assign, receive, handed_over, Life, no_life, constructs, move_constructs,
  move_assigns, receives, resets,
}

-- How often an object occurs in a handle, in the handles, and in a list of objects.
abbrev pub holds : ℕ → Option ℕ → ℕ
holds p none = 0
holds p (some q) = if q == p then 1 else 0

abbrev pub holders : ℕ → List (Option ℕ) → ℕ
holders p [] = 0
holders p (o ∷ slots) = holds p o + holders p slots

abbrev pub times : ℕ → List ℕ → ℕ
times p [] = 0
times p (q ∷ qs) = holds p (some q) + times p qs

length-take_out : (i : ℕ) (slots : List (Option ℕ)) → length (take_out i slots).1 ≡ length slots
unfolding take_out
length-take_out i [] = refl
length-take_out zero (o ∷ slots) = refl
length-take_out (suc i) (o ∷ slots) = omega (arith, length-take_out i slots)

holders-take_out :
    (p i : ℕ) (slots : List (Option ℕ))
    → holds p (take_out i slots).0 + holders p (take_out i slots).1 ≡ holders p slots
unfolding take_out
holders-take_out p i [] = refl
holders-take_out p zero (o ∷ slots) = omega arith
holders-take_out p (suc i) (o ∷ slots) = omega (arith, holders-take_out p i slots)

-- The handle is empty.
abbrev IsEmpty : ℕ → List (Option ℕ) → Type 0
IsEmpty i slots = (take_out i slots).0 ≡ none

take_out-IsEmpty : (i : ℕ) (slots : List (Option ℕ)) → IsEmpty i (take_out i slots).1
unfolding take_out
take_out-IsEmpty i [] = refl
take_out-IsEmpty zero (o ∷ slots) = refl
take_out-IsEmpty (suc i) (o ∷ slots) = take_out-IsEmpty i slots

keep-IsEmpty :
    (i j : ℕ) (slots : List (Option ℕ)) → IsEmpty i slots → IsEmpty i (take_out j slots).1
unfolding take_out
keep-IsEmpty i j [] h = refl
keep-IsEmpty zero zero (o ∷ slots) h = refl
keep-IsEmpty zero (suc j) (o ∷ slots) h = h
keep-IsEmpty (suc i) zero (o ∷ slots) h = h
keep-IsEmpty (suc i) (suc j) (o ∷ slots) h = keep-IsEmpty i j slots h

holders-put_in :
    (p i : ℕ) (o : Option ℕ) (slots : List (Option ℕ))
    → i < length slots
    → IsEmpty i slots
    → holders p (put_in i o slots) ≡ holds p o + holders p slots
unfolding put_in take_out
holders-put_in p i o [] k h = absurd (omega arith)
holders-put_in p zero o (none ∷ slots) k h = omega arith
holders-put_in p zero o (some q ∷ slots) k h = cc
holders-put_in p (suc i) o (q ∷ slots) k h =
    omega (arith, holders-put_in p i o slots (omega arith) h)

times-release_object :
    (p : ℕ) (o : Option ℕ) (released : List ℕ)
    → times p (release_object o released) ≡ holds p o + times p released
unfolding release_object
times-release_object p none released = omega arith
times-release_object p (some q) released = refl

times-handed_over :
    (p : ℕ) (o : Option ℕ) (given : List ℕ)
    → times p (handed_over o given) ≡ holds p o + times p given
unfolding handed_over
times-handed_over p none given = omega arith
times-handed_over p (some q) given = refl

module _ (p : ℕ) (h : Handles) where
  reset_handle-balance :
      (i : ℕ)
      → holders p (reset_handle i h).slots + times p (reset_handle i h).released
        ≡ holders p h.slots + times p h.released
  unfolding reset_handle
  reset_handle-balance i = omega (
    arith,
    holders-take_out p i h.slots,
    times-release_object p (take_out i h.slots).0 h.released,
  )

  move_construct-balance :
      (i : ℕ)
      → holders p (move_construct i h).slots + times p (move_construct i h).released
        ≡ holders p h.slots + times p h.released
  unfolding move_construct
  move_construct-balance i = omega (arith, holders-take_out p i h.slots)

  receive-balance :
      (i : ℕ) (o : Option ℕ)
      → i < length h.slots
      → holders p (receive i o h).slots + times p (receive i o h).released
        ≡ holds p o + holders p h.slots + times p h.released
  unfolding receive
  receive-balance i o k = omega (
    arith,
    reset_handle-balance i,
    holders-put_in p i o (reset_handle i h).slots
        (unfold reset_handle in omega (arith, length-take_out i h.slots))
        (unfold reset_handle in take_out-IsEmpty i h.slots),
  )

  take_over-balance :
      (i j : ℕ)
      → i < length h.slots
      → holders p (take_over i j h).slots + times p (take_over i j h).released
        ≡ holders p h.slots + times p h.released
  unfolding take_over
  take_over-balance i j k = omega (
    arith,
    reset_handle-balance i,
    holders-take_out p j (reset_handle i h).slots,
    holders-put_in p i (take_out j (reset_handle i h).slots).0
        (take_out j (reset_handle i h).slots).1
        (unfold reset_handle in
          omega (arith, length-take_out j (take_out i h.slots).1, length-take_out i h.slots))
        (keep-IsEmpty i j (reset_handle i h).slots
          (unfold reset_handle in take_out-IsEmpty i h.slots)),
  )

  move_assign-balance :
      (i j : ℕ)
      → i < length h.slots
      → holders p (move_assign i j h).slots + times p (move_assign i j h).released
        ≡ holders p h.slots + times p h.released
  unfolding move_assign
  move_assign-balance i j k = ground (arith, take_over-balance i j k)

  construct-balance :
      (o : Option ℕ)
      → holders p (construct o h).slots + times p (construct o h).released
        ≡ holds p o + holders p h.slots + times p h.released
  unfolding construct
  construct-balance o = omega arith

-- Whatever is done with the handles of a program, an object is in as many handles as the facade has handed
-- it over more often than it was released: one that was handed over once is in one handle and not
-- released, or in none and released once.
pub Life-balanced :
    {given : List ℕ} {h : Handles} (p : ℕ)
    → Life given h
    → times p given ≡ holders p h.slots + times p h.released
Life-balanced p no_life = unfold no_handles in refl
Life-balanced p (constructs {given} {h} o life) =
    omega (arith, Life-balanced p life, construct-balance p h o, times-handed_over p o given)
Life-balanced p (move_constructs {given} {h} i k life) =
    omega (arith, Life-balanced p life, move_construct-balance p h i)
Life-balanced p (move_assigns {given} {h} i j k l life) =
    omega (arith, Life-balanced p life, move_assign-balance p h i j k)
Life-balanced p (receives {given} {h} i o k life) =
    omega (arith, Life-balanced p life, receive-balance p h i o k, times-handed_over p o given)
Life-balanced p (resets {given} {h} i k life) =
    omega (arith, Life-balanced p life, reset_handle-balance p h i)
