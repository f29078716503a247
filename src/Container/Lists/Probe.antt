-- ===== src/Container/Lists/Probe.antt =====
-- A client of `FacadeList` that asks GetTypeAt for 0, 1, 2 and so on until it answers MSGF_TYPE_NULL,
-- which the note on it in src/FacadeContainer.cpp promises to end.
use msg_facade.Prelude.{
  ℕ, zero, suc, ◌+◌, ◌<◌, ◌≡◌, refl, ap, ◌≢◌, Bool, true, false, none, some, List, [], ◌∷◌, ◌++◌,
  append_assoc, arith, ◌==◌, ne→==_false, length, get_elem?, length-append,
}
use msg_facade.Outcome.{Outcome, ok, diverge, attempt, ◌>>=◌}
use msg_facade.Route.{Route}
use msg_facade.Core.{Msgcore}
use msg_facade.Store.{Store}
use msg_facade.Container.Lists.{get_type_at}
use msg_facade.Container.Lists.Chain.{IsList, list_cell_at-get_elem?}

module _ (core : Msgcore) where
  open core use {Mgr, Object, data_type}

  unfoldable pub probe : Store core → Route → ℕ → ℕ → Outcome (List ℕ)
  probe s r zero index = diverge
  probe s r (suc fuel) index = get_type_at core s r index true >>= λ t. elim (t == 0) [
    | true ↦ ok []
    | false ↦ probe s r fuel (index + 1) >>= λ types. ok (t ∷ types)
  ]

  -- The cells have a type of their own, which is not MSGF_TYPE_NULL.
  abbrev pub AreTyped : Mgr → List Object → List ℕ → Type 0
  AreTyped m [] [] = Unit {0}
  AreTyped m (cell ∷ cells) (t ∷ types) =
      (data_type m cell ≡ some t) × (t ≢ 0) × AreTyped m cells types
  AreTyped m _ _ = ⊥

  get_type_at_cell :
      (s : Store core) (r : Route) (m : Mgr) (o : Object) (cells : List Object) (index : ℕ)
      → IsList core s r m o cells
      → get_type_at core s r index true
        ≡ elim (get_elem? cells index) [ none ↦ ok 0 | some cell ↦ attempt (data_type m cell) ]
  unfolding get_type_at
  get_type_at_cell s r m o cells index h =
      rw (h.opened, h.listed, list_cell_at-get_elem? core s r m o cells index h) refl

  get_elem?-append_head :
      {A : Type 0} (before cells : List A) (cell : A)
      → get_elem? (before ++ cell ∷ cells) (length before) ≡ some cell
  get_elem?-append_head [] cells cell = refl
  get_elem?-append_head (x ∷ before) cells cell = get_elem?-append_head before cells cell

  get_elem?-length : {A : Type 0} (xs : List A) → get_elem? (xs ++ []) (length xs) ≡ none
  get_elem?-length [] = refl
  get_elem?-length (x ∷ xs) = get_elem?-length xs

  probe_end :
      (s : Store core) (r : Route) (fuel index : ℕ)
      → get_type_at core s r index true ≡ ok 0
      → probe s r (suc fuel) index ≡ ok []
  unfolding probe
  probe_end s r fuel index e = rw (e, probe) refl

  -- One round of the client for a type that is not MSGF_TYPE_NULL.
  next_type :
      {t : ℕ} {rest : Outcome (List ℕ)} {types : List ℕ} (null : Bool)
      → null ≡ false
      → rest ≡ ok types
      → elim null [ true ↦ ok [] | false ↦ rest >>= λ ts. ok (t ∷ ts) ] ≡ ok (t ∷ types)
  next_type {t} false h e = ap (λ (o : Outcome (List ℕ)). o >>= λ ts. ok (t ∷ ts)) e
  next_type true h e = cc

  probe_step :
      (s : Store core) (r : Route) (fuel index t : ℕ) (types : List ℕ)
      → get_type_at core s r index true ≡ ok t
      → t ≢ 0
      → probe s r fuel (index + 1) ≡ ok types
      → probe s r (suc fuel) index ≡ ok (t ∷ types)
  unfolding probe
  probe_step s r fuel index t types e n rest =
      rw (e, probe) (next_type (t == 0) (ne→==_false t 0 n) rest)

  probe_from :
      (s : Store core) (r : Route) (m : Mgr) (o : Object) (before cells : List Object)
      (types : List ℕ) (fuel : ℕ)
      → IsList core s r m o (before ++ cells)
      → AreTyped m cells types
      → length cells < fuel
      → probe s r fuel (length before) ≡ ok types
  probe_from s r m o before cells types zero h k less = absurd (omega arith)
  probe_from s r m o before [] [] (suc fuel) h k less = probe_end s r fuel (length before) (
      rw (get_type_at_cell s r m o (before ++ []) (length before) h)
        (rw (get_elem?-length before) refl))
  probe_from s r m o before [] (t ∷ types) (suc fuel) h k less = elim k [ ]
  probe_from s r m o before (cell ∷ cells) [] (suc fuel) h k less = elim k [ ]
  probe_from s r m o before (cell ∷ cells) (t ∷ types) (suc fuel) h (e, n, k) less =
      let longer : IsList core s r m o ((before ++ cell ∷ []) ++ cells) =
        rw (append_assoc before (cell ∷ []) cells) h in
      let rest = probe_from s r m o (before ++ cell ∷ []) cells types fuel longer k (omega arith) in
      probe_step s r fuel (length before) t types
        (rw (get_type_at_cell s r m o (before ++ cell ∷ cells) (length before) h)
          (rw (get_elem?-append_head before cells cell) (rw e refl)))
        n (rw (← length-append before (cell ∷ [])) rest)

  -- The client ends, with one question more than the list has cells, and has then seen the type of every
  -- cell in its order: for a list of an open store whose cells have types other than MSGF_TYPE_NULL.
  pub probe_lem :
      (s : Store core) (r : Route) (m : Mgr) (o : Object) (cells : List Object) (types : List ℕ)
      (fuel : ℕ)
      → IsList core s r m o cells
      → AreTyped m cells types
      → length cells < fuel
      → probe s r fuel 0 ≡ ok types
  probe_lem s r m o cells types fuel = probe_from s r m o [] cells types fuel
