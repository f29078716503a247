-- ===== src/Com/Events/Sinks/Fresh.antt =====
-- The cookies that com/ComStore.cpp gives out.
use msg_facade.Prelude.{
  ℕ, suc, ◌+◌, ◌%◌, ◌^◌, ◌≤◌, ◌<◌, ◌≡◌, refl, sym, ap, ◌∙◌, ◌⊎◌, inl, inr, Bool, true, false,
  Option, none, some, List, [], ◌∷◌, arith, Option-cases, length, All,
}
use msg_facade.Com.{answered, raised}
use msg_facade.Com.Events.Sinks.{
  Sinks, no_sinks, find_sink, set_sink, erase_sink, register_sink, advise, unadvise,
}

-- A client's call, with what COM answers to it.
pub data Call : Type 0 where
  advises : Option (Bool × Bool) → Option (ℕ ⊎ ℕ) → Bool → Call
  unadvises : ℕ → Call

unfoldable pub after_call : Call → Sinks → Sinks
after_call (advises sink table out) s = (advise sink table out s).1
after_call (unadvises cookie) s = (unadvise cookie s).1

unfoldable pub after_calls : List Call → Sinks → Sinks
after_calls [] s = s
after_calls (c ∷ cs) s = after_calls cs (after_call c s)

-- Every key is below `n`.
abbrev Below : ℕ → List (ℕ × ℕ) → Type 0
Below n = All (λ (key, git). key < n)

Below-suc : (n : ℕ) (l : List (ℕ × ℕ)) → Below n l → Below (n + 1) l
Below-suc n [] h = tt
Below-suc n ((key, git) ∷ l) (k, h) = (omega (arith, k), Below-suc n l h)

set_sink-Below : (n g : ℕ) (l : List (ℕ × ℕ)) → Below n l → Below (n + 1) (set_sink n g l)
unfolding set_sink
set_sink-Below n g [] h = (omega arith, tt)
set_sink-Below n g ((key, git) ∷ l) (k, h) = ground (arith, Below-suc n l h, set_sink-Below n g l h)

erase_sink-Below : (n c : ℕ) (l : List (ℕ × ℕ)) → Below n l → Below n (erase_sink c l)
unfolding erase_sink
erase_sink-Below n c [] h = tt
erase_sink-Below n c ((key, git) ∷ l) (k, h) = ground (arith, erase_sink-Below n c l h)

find_sink-Below : (n : ℕ) (l : List (ℕ × ℕ)) → Below n l → find_sink n l ≡ none
unfolding find_sink
find_sink-Below n [] h = refl
find_sink-Below n ((key, git) ∷ l) (k, h) = ground (arith, find_sink-Below n l h)

find_sink-set_sink :
    (n g : ℕ) (l : List (ℕ × ℕ)) → Below n l → find_sink n (set_sink n g l) ≡ some g
unfolding find_sink set_sink
find_sink-set_sink n g [] h = ground arith
find_sink-set_sink n g ((key, git) ∷ l) (k, h) = ground (arith, find_sink-set_sink n g l h)

erase_sink-set_sink : (n g : ℕ) (l : List (ℕ × ℕ)) → Below n l → erase_sink n (set_sink n g l) ≡ l
unfolding erase_sink set_sink
erase_sink-set_sink n g [] h = ground arith
erase_sink-set_sink n g ((key, git) ∷ l) (k, h) = ground (arith, erase_sink-set_sink n g l h)

advise_cases :
    (sink : Option (Bool × Bool)) (table : Option (ℕ ⊎ ℕ)) (out : Bool) (s : Sinks)
    → ((hr : ℕ) × (advise sink table out s ≡ (raised hr, s)))
      ⊎ ((git : ℕ) × (advise sink table out s ≡ register_sink git s))
unfolding advise
advise_cases none table out s = inl (_, refl)
advise_cases (some (dispatch, events)) table false s = inl (_, refl)
advise_cases (some (false, false)) table true s = inl (_, refl)
advise_cases (some (false, true)) none true s = inl (_, refl)
advise_cases (some (true, events)) none true s = inl (_, refl)
advise_cases (some (false, true)) (some (inl hr)) true s = inl (_, refl)
advise_cases (some (false, true)) (some (inr git)) true s = inr (git, refl)
advise_cases (some (true, events)) (some (inl hr)) true s = inl (_, refl)
advise_cases (some (true, events)) (some (inr git)) true s = inr (git, refl)

-- `k`: a bound of the next cookie.
record IsFresh (k : ℕ) (s : Sinks) : Type 0 where
  below : Below s.next_cookie s.sinks
  low : 1 ≤ s.next_cookie
  high : s.next_cookie ≤ k

register_sink-IsFresh :
    (k git : ℕ) (s : Sinks) → k + 1 < 2 ^ 32 → IsFresh k s → IsFresh (k + 1) (register_sink git s).1
unfolding register_sink
register_sink-IsFresh k git s small h =
    let e : (s.next_cookie + 1) % 2 ^ 32 ≡ s.next_cookie + 1 = omega (arith, small, h.high) in
    rw e record {
      below = set_sink-Below s.next_cookie git s.sinks h.below;
      low = omega arith;
      high = omega (arith, h.high);
    }

grow-IsFresh : (k : ℕ) (s : Sinks) → IsFresh k s → IsFresh (k + 1) s
grow-IsFresh k s h = record { below = h.below; low = h.low; high = omega (arith, h.high) }

unadvise-IsFresh : (k cookie : ℕ) (s : Sinks) → IsFresh k s → IsFresh k (unadvise cookie s).1
unfolding unadvise
unadvise-IsFresh k cookie s h = elim (Option-cases (find_sink cookie s.sinks)) [
  | inl e ↦ rw (e, unadvise) h
  | inr (git, e) ↦
      rw (e, unadvise)
        record {
          below = erase_sink-Below s.next_cookie cookie s.sinks h.below;
          low = h.low;
          high = h.high;
        }
]

after_call-IsFresh :
    (k : ℕ) (c : Call) (s : Sinks) → k + 1 < 2 ^ 32 → IsFresh k s → IsFresh (k + 1) (after_call c s)
unfolding after_call
after_call-IsFresh k (advises sink table out) s small h = elim (advise_cases sink table out s) [
  | inl (hr, e) ↦ rw (e, after_call) (grow-IsFresh k s h)
  | inr (git, e) ↦ rw (e, after_call) (register_sink-IsFresh k git s small h)
]
after_call-IsFresh k (unadvises cookie) s small h = grow-IsFresh k _ (unadvise-IsFresh k cookie s h)

after_calls-IsFresh :
    (k : ℕ) (cs : List Call) (s : Sinks)
    → k + length cs < 2 ^ 32
    → IsFresh k s
    → IsFresh (k + length cs) (after_calls cs s)
unfolding after_calls
after_calls-IsFresh k [] s small h = let e : k + 0 ≡ k = omega arith in rw e h
after_calls-IsFresh k (c ∷ cs) s small h =
    let e : k + suc (length cs) ≡ (k + 1) + length cs = omega arith in
    rw e (
      after_calls-IsFresh (k + 1) cs (after_call c s) (omega arith)
        (after_call-IsFresh k c s (omega arith) h))

no_sinks-IsFresh : IsFresh 1 no_sinks
unfolding no_sinks
no_sinks-IsFresh = record { below = tt; low = omega arith; high = omega arith }

-- The cookie is not 0 and no sink of `s` has it, a sink of `s'` has it, and Unadvise of it gives back the
-- sinks of `s`.
pub record IsGiven (cookie : ℕ) (s s' : Sinks) : Type 0 where
  pub positive : 1 ≤ cookie
  pub free : find_sink cookie s.sinks ≡ none
  pub found : (git : ℕ) × (find_sink cookie s'.sinks ≡ some git)
  pub returned : (unadvise cookie s').0 ≡ answered tt
  pub restored : (unadvise cookie s').1.sinks ≡ s.sinks

register_sink-IsGiven :
    (k git : ℕ) (s : Sinks) → IsFresh k s → IsGiven s.next_cookie s (register_sink git s).1
unfolding unadvise register_sink
register_sink-IsGiven k git s h = record {
  positive = h.low;
  free = find_sink-Below s.next_cookie s.sinks h.below;
  found = (git, find_sink-set_sink s.next_cookie git s.sinks h.below);
  returned = rw (find_sink-set_sink s.next_cookie git s.sinks h.below, unadvise) refl;
  restored =
      rw (find_sink-set_sink s.next_cookie git s.sinks h.below, unadvise)
        (erase_sink-set_sink s.next_cookie git s.sinks h.below);
}

registered_cookie :
    (git cookie : ℕ) (s : Sinks)
    → (register_sink git s).0 ≡ answered cookie
    → s.next_cookie ≡ cookie
unfolding register_sink
registered_cookie git cookie s e = cc

advise-IsGiven :
    (k cookie : ℕ) (sink : Option (Bool × Bool)) (table : Option (ℕ ⊎ ℕ)) (out : Bool) (s : Sinks)
    → IsFresh k s
    → (advise sink table out s).0 ≡ answered cookie
    → IsGiven cookie s (advise sink table out s).1
advise-IsGiven k cookie sink table out s h e = elim (advise_cases sink table out s) [
  | inl (hr, q) ↦ cc
  | inr (git, q) ↦
      rw (sym (registered_cookie git cookie s (sym (ap (λ p. p.0) q) ∙ e)), q)
        (register_sink-IsGiven k git s h)
]

-- Whatever at most 2^32 - 2 calls of Advise and Unadvise have done before, an Advise that succeeds answers
-- a cookie that is not 0 and that no sink has, the sink is found under it, and Unadvise of it succeeds and
-- leaves the sinks as they were.
pub unadvise-advise :
    (cs : List Call) (sink : Option (Bool × Bool)) (table : Option (ℕ ⊎ ℕ)) (out : Bool)
    (cookie : ℕ)
    → length cs + 1 < 2 ^ 32
    → (advise sink table out (after_calls cs no_sinks)).0 ≡ answered cookie
    → IsGiven cookie (after_calls cs no_sinks) (advise sink table out (after_calls cs no_sinks)).1
unadvise-advise cs sink table out cookie small h =
    advise-IsGiven (1 + length cs) cookie sink table out (after_calls cs no_sinks)
      (after_calls-IsFresh 1 cs no_sinks (omega arith) no_sinks-IsFresh) h
