-- ===== src/Container/Lists/Chain.antt =====
-- The abstract view of a list: the sequence of its cells. The methods of `FacadeList` that take an index
-- walk along the chain of the core, src/FacadeContainer.cpp, and give what the sequence has there.
use msg_facade.Prelude.{
  ℕ, zero, suc, ◌≤◌, ◌≡◌, refl, ap, ◌≢◌, inl, inr, Bool, Option, none, some, List, [], ◌∷◌, arith,
  ◌==◌, if◌then◌else◌, ne→==_false, Option-cases, Text, length, get_elem?,
}
use msg_facade.Prelude.Int.{ℤ}
use msg_facade.HResult.{e_range}
use msg_facade.CopyOut.{answer}
use msg_facade.Outcome.{Outcome, ok, fail, attempt, ◌>>=◌}
use msg_facade.Route.{Route}
use msg_facade.Core.{Msgcore}
use msg_facade.Store.{Store, open_store}
use msg_facade.Values.{read_int, read_real, read_text}
use msg_facade.Node.{if_allowed}
use msg_facade.Container.Lists.{
  list_of, walk_to, list_cell_at, cell_of, get_int_at, get_real_at, get_text_at, set_int_at,
  set_real_at, set_text_at, position_of, delete_at,
}

module _ (core : Msgcore) where
  open core use {Mgr, Object, Real, list_head, list_next}

  -- The cells of the chain from a position on.
  abbrev pub IsChain : Mgr → Object → ℕ → List Object → Type 0
  IsChain m o at [] = at ≡ 0
  IsChain m o at (cell ∷ cells) =
      (after : ℕ) × (at ≢ 0) × (list_next m o at ≡ some (cell, after)) × IsChain m o after cells

  -- A route that leads to a list of an open store, with the cells of the list.
  pub record IsList (s : Store core) (r : Route) (m : Mgr) (o : Object) (cells : List Object)
      : Type 0 where
    pub opened : open_store core s ≡ ok m
    pub listed : list_of core s r ≡ ok (m, o)
    pub head : ℕ
    pub starts : list_head m o ≡ some head
    pub chain : IsChain m o head cells

  -- The cell at a position.
  abbrev cell_from : Mgr → Object → ℕ → Outcome (Option Object)
  cell_from m o at =
      if at == 0 then ok none else attempt (list_next m o at) >>= λ (cell, after). ok (some cell)

  walk_to-get_elem? :
      (m : Mgr) (o : Object) (index at : ℕ) (cells : List Object)
      → IsChain m o at cells
      → (walk_to core m o index at >>= cell_from m o) ≡ ok (get_elem? cells index)
  unfolding walk_to
  walk_to-get_elem? m o zero at [] h = rw h refl
  walk_to-get_elem? m o zero at (cell ∷ cells) (after, n, e, k) = rw (ne→==_false at 0 n, e) refl
  walk_to-get_elem? m o (suc i) at [] h = rw h refl
  walk_to-get_elem? m o (suc i) at (cell ∷ cells) (after, n, e, k) =
      rw (ne→==_false at 0 n, walk_to) (rw e (walk_to-get_elem? m o i after cells k))

  pub list_cell_at-get_elem? :
      (s : Store core) (r : Route) (m : Mgr) (o : Object) (cells : List Object) (index : ℕ)
      → IsList s r m o cells
      → list_cell_at core m o index ≡ ok (get_elem? cells index)
  unfolding list_cell_at
  list_cell_at-get_elem? s r m o cells index h =
      rw h.starts (walk_to-get_elem? m o index h.head cells h.chain)

  -- What a method does with the cell that the sequence has at the index.
  abbrev pub at_cell {ℓ} : {A : Type ℓ} → Option Object → (Object → Outcome A) → Outcome A
  at_cell none use_it = fail e_range
  at_cell (some cell) use_it = use_it cell

  pub cell_of-get_elem? :
      (s : Store core) (r : Route) (m : Mgr) (o : Object) (cells : List Object) (index : ℕ)
      → IsList s r m o cells
      → cell_of core s r index ≡ at_cell (get_elem? cells index) (λ cell. ok (m, cell))
  unfolding cell_of
  cell_of-get_elem? s r m o cells index h =
      rw (h.listed, list_cell_at-get_elem? s r m o cells index h)
        (elim (Option-cases (get_elem? cells index)) [
          | inl e ↦ rw e refl
          | inr (cell, e) ↦ rw e refl
        ])

  -- For a list of an open store: a read at an index is the read of the cell that the sequence of the
  -- cells has there, and MSGF_E_RANGE where it has none, for GetIntAt, GetRealAt and GetTextAt, with
  -- the text left in its buffer by a call that fails.
  pub get_at_lem :
      (s : Store core) (r : Route) (m : Mgr) (o : Object) (cells : List Object) (index : ℕ)
      (out : Bool) (buf : Option (List ℕ)) (cch : Option ℕ)
      → IsList s r m o cells
      → (get_int_at core s r index out
          ≡ at_cell (get_elem? cells index) (λ cell. read_int core m cell out))
        × (get_real_at core s r index out
            ≡ at_cell (get_elem? cells index) (λ cell. read_real core m cell out))
        × (get_text_at core s r index buf cch
            ≡ answer buf cch
                (at_cell (get_elem? cells index) (λ cell. ok (read_text core m cell buf cch))))
  unfolding get_int_at get_real_at get_text_at
  get_at_lem s r m o cells index out buf cch h =
      rw (cell_of-get_elem? s r m o cells index h) (elim (Option-cases (get_elem? cells index)) [
        | inl e ↦ rw e (refl, refl, refl)
        | inr (cell, e) ↦ rw e (refl, refl, refl)
      ])

  get_elem?_past : {A : Type 0} (xs : List A) (i : ℕ) → length xs ≤ i → get_elem? xs i ≡ none
  get_elem?_past [] i h = refl
  get_elem?_past (x ∷ xs) zero h = absurd (omega arith)
  get_elem?_past (x ∷ xs) (suc i) h = get_elem?_past xs i (omega arith)

  walk_to_past :
      (m : Mgr) (o : Object) (index at : ℕ) (cells : List Object)
      → IsChain m o at cells
      → length cells ≤ index
      → walk_to core m o index at ≡ ok 0
  unfolding walk_to
  walk_to_past m o zero at [] h past = ap ok h
  walk_to_past m o zero at (cell ∷ cells) h past = absurd (omega arith)
  walk_to_past m o (suc i) at [] h past = rw h refl
  walk_to_past m o (suc i) at (cell ∷ cells) (after, n, e, k) past =
      rw (ne→==_false at 0 n, walk_to) (rw e (walk_to_past m o i after cells k (omega arith)))

  position_of_past :
      (s : Store core) (r : Route) (m : Mgr) (o : Object) (cells : List Object) (index : ℕ)
      → IsList s r m o cells
      → length cells ≤ index
      → position_of core s r index ≡ fail e_range
  unfolding position_of
  position_of_past s r m o cells index h past =
      rw (h.listed, h.starts, walk_to_past m o index h.head cells h.chain past) refl

  -- For a list of an open store and an index past its last cell, SetIntAt, SetRealAt, SetTextAt and
  -- DeleteAt answer MSGF_E_RANGE and leave the store as it was.
  pub set_at_past :
      (s : Store core) (r : Route) (m : Mgr) (o : Object) (cells : List Object) (index : ℕ) (i : ℤ)
      (x : Real) (v : Option Text)
      → IsList s r m o cells
      → length cells ≤ index
      → (set_int_at core r index i s ≡ (fail e_range, s))
        × (set_real_at core r index x s ≡ (fail e_range, s))
        × (set_text_at core r index v s ≡ (fail e_range, s))
        × (delete_at core r index s ≡ (fail e_range, s))
  unfolding set_int_at set_real_at set_text_at delete_at if_allowed
  set_at_past s r m o cells index i x v h past =
      rw
        (
          cell_of-get_elem? s r m o cells index h,
          get_elem?_past cells index past,
          position_of_past s r m o cells index h past,
        )
        (refl, refl, refl, refl)
