-- ===== src/Com/Enum/Passes.antt =====
-- A pass over the snapshot of com/ComCursor.cpp, in calls of Next of whatever sizes.
use msg_facade.Prelude.{
  ℕ, zero, suc, ◌+◌, ◌≡◌, refl, ap, ◌⊎◌, inl, inr, none, some, List, [], ◌∷◌, ◌++◌, arith, ◌==◌,
  length, take, drop, get_elem?,
}
use native.Mathlib.Numerals.{unary_clauses}
use msg_facade.Com.Enum.{Enum, fetch, next}

pub sum : List ℕ → ℕ
sum [] = 0
sum (n ∷ ns) = n + sum ns

module _ {A : Type 0} where
  -- What the calls deliver, one after the other.
  pub pass : List ℕ → Enum A → List A
  pass [] e = []
  pass (celt ∷ more) e = let (got, e') = next celt e in got.0 ++ pass more e'

  take-append-take : (a b : ℕ) (xs : List A) → take a xs ++ take b (drop a xs) ≡ take (a + b) xs
  take-append-take zero b xs = ap (λ (n : ℕ). take n xs) (omega arith)
  take-append-take (suc a) zero [] = simp unary_clauses
  take-append-take (suc a) (suc b) [] = simp unary_clauses
  take-append-take (suc a) b (x ∷ xs) =
      let e : suc a + b ≡ suc (a + b) = omega arith in
      rw e (ap (λ ys. x ∷ ys) (take-append-take a b xs))

  drop-length-take : (n : ℕ) (xs : List A) → drop (length (take n xs)) xs ≡ drop n xs
  drop-length-take zero xs = refl
  drop-length-take (suc n) [] = refl
  drop-length-take (suc n) (x ∷ xs) = drop-length-take n xs

  drop-drop : (i k : ℕ) (xs : List A) → drop (i + k) xs ≡ drop k (drop i xs)
  drop-drop zero k xs = ap (λ (n : ℕ). drop n xs) (omega arith)
  drop-drop (suc i) zero [] = simp unary_clauses
  drop-drop (suc i) (suc k) [] = simp unary_clauses
  drop-drop (suc i) k (x ∷ xs) =
      let e : suc i + k ≡ suc (i + k) = omega arith in rw e (drop-drop i k xs)

  drop_at :
      (i : ℕ) (xs : List A)
      → (get_elem? xs i ≡ none) × (drop i xs ≡ [])
        ⊎ ((x : A) × (get_elem? xs i ≡ some x) × (drop i xs ≡ x ∷ drop (i + 1) xs))
  drop_at zero [] = inl (refl, refl)
  drop_at (suc i) [] = inl (refl, refl)
  drop_at zero (x ∷ xs) = inr (x, refl, refl)
  drop_at (suc i) (x ∷ xs) = elim (drop_at i xs) [
    | inl e ↦ inl e
    | inr (y, e, d) ↦ inr (y, e, simp (unary_clauses, d))
  ]

  -- One call takes the next values; the index goes on by as many as there were.
  fetch_lem :
      (celt : ℕ) (xs : List A) (i : ℕ)
      → fetch celt xs i ≡ (take celt (drop i xs), i + length (take celt (drop i xs)))
  unfolding fetch
  fetch_lem zero xs i = ap (λ (j : ℕ). ([], j)) (omega arith)
  fetch_lem (suc celt) xs i = elim (drop_at i xs) [
    | inl (e, d) ↦ rw (e, fetch) (rw (d, fetch) (ap (λ (j : ℕ). ([], j)) (omega arith)))
    | inr (x, e, d) ↦
        rw (e, fetch)
          (rw (d, fetch)
            (rw (fetch_lem celt xs (i + 1), fetch)
              (ap (λ (j : ℕ). (x ∷ take celt (drop (i + 1) xs), j)) (omega arith))))
  ]

  next_lem :
      (celt : ℕ) (e : Enum A)
      → next celt e ≡ (
        (take celt (drop e.index e.values), length (take celt (drop e.index e.values)) == celt),
        record e { index = e.index + length (take celt (drop e.index e.values)) },
      )
  unfolding next
  next_lem celt e = rw (fetch_lem celt e.values e.index, next) refl

  -- However a client cuts its pass into calls of Next, it is given the values of the snapshot from the
  -- index on, each once and in their order, as many as it has asked for in all.
  pub pass-take :
      (sizes : List ℕ) (e : Enum A) → pass sizes e ≡ take (sum sizes) (drop e.index e.values)
  unfolding sum pass
  pass-take [] e = refl
  pass-take (celt ∷ more) e =
      let xs = drop e.index e.values in
      rw (next_lem celt e, pass)
        (rw (pass-take more (record e { index = e.index + length (take celt xs) }), pass)
          (rw (drop-drop e.index (length (take celt xs)) e.values, drop)
            (rw (drop-length-take celt xs) (take-append-take celt (sum more) xs))))
