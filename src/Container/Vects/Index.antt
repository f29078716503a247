-- ===== src/Container/Vects/Index.antt =====
-- The range test of `FacadeVect`, src/FacadeContainer.cpp, against the index that the caller gives.
use msg_facade.Prelude.{
  ℕ, ◌^◌, ◌≤◌, ◌<◌, ◌≡◌, refl, ◌↔◌, inl, inr, Bool, true, false, some, arith, Bool-cases,
}
use msg_facade.Prelude.Int.{pos}
use msg_facade.Types.{to_signed}
use msg_facade.HResult.{e_range}
use msg_facade.Outcome.{ok, fail}
use msg_facade.Route.{Route}
use msg_facade.Core.{Msgcore}
use msg_facade.Store.{Store}
use msg_facade.Container.Vects.{is_past, vect_of, elem_of}

module _ (core : Msgcore) where
  open core use {Mgr, Object, vect_count}

  -- A route that leads to a vect of `n` elements in an open store.
  pub record IsVect (s : Store core) (r : Route) (m : Mgr) (o : Object) (n : ℕ) : Type 0 where
    pub found : vect_of core s r ≡ ok (m, o)
    pub counted : vect_count m o ≡ some (pos n)

  is_past_iff :
      (index n : ℕ)
      → n < 2 ^ 31
      → index < 2 ^ 32
      → (is_past core index (pos n) ≡ true) ↔ ((n ≤ index) × (index < 2 ^ 31))
  unfolding is_past to_signed
  is_past_iff index n small word = (λ e. ground arith, λ e. ground arith)

  not_both : {b : Bool} → b ≡ false → b ≡ true → ⊥
  not_both h k = cc

  -- For a vect of an open store with fewer than 2^31 elements and a 32-bit index: the test of every
  -- method of a vect with an index answers MSGF_E_RANGE exactly if the index is not below the count
  -- and is below 2^31. An index of 2^31 or more, which is negative as an `int`, passes it.
  pub elem_of-range :
      (s : Store core) (r : Route) (m : Mgr) (o : Object) (n index : ℕ)
      → IsVect s r m o n
      → n < 2 ^ 31
      → index < 2 ^ 32
      → (elem_of core s r index ≡ fail e_range) ↔ ((n ≤ index) × (index < 2 ^ 31))
  unfolding elem_of
  elem_of-range s r m o n index h small word =
      let (there, back) = is_past_iff index n small word in
      elim (Bool-cases (is_past core index (pos n))) [
        | inl past ↦ rw (h.found, h.counted) (rw past (λ e. there past, λ b. refl))
        | inr inside ↦
            rw (h.found, h.counted) (rw inside (λ e. cc, λ b. absurd (not_both inside (back b))))
      ]
