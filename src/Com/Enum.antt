-- ===== src/Com/Enum.antt =====
-- `CVariantEnum` of com/ComCursor.cpp: the snapshot behind For Each.
pub mod Passes
use msg_facade.Prelude.{
  ℕ, zero, suc, ◌+◌, ◌-◌, Bool, true, false, none, some, List, [], ◌∷◌, ltb, ◌==◌, if◌then◌else◌,
  length, get_elem?,
}

-- `m_values` and `m_iNext`
pub record Enum (A : Type 0) : Type 0 where
  pub values : List A
  pub index : ℕ

module _ {A : Type 0} where
  -- `for ( ; nFetched < celt && m_iNext < m_values.size ( ); ++nFetched, ++m_iNext )`
  unfoldable pub fetch : ℕ → List A → ℕ → List A × ℕ
  fetch zero values i = ([], i)
  fetch (suc celt) values i = elim (get_elem? values i) [
    | none ↦ ([], i)
    | some v ↦ let (rest, j) = fetch celt values (i + 1) in (v ∷ rest, j)
  ]

  -- What Next fetches, and whether it is S_OK.
  unfoldable pub next : ℕ → Enum A → (List A × Bool) × Enum A
  next celt e =
      let (got, i) = fetch celt e.values e.index in
      ((got, length got == celt), record e { index = i })

  unfoldable pub skip : ℕ → Enum A → Bool × Enum A
  skip celt e =
      if ltb (length e.values - e.index) celt
      then (false, record e { index = length e.values })
      else (true, record e { index = e.index + celt })

  unfoldable pub reset : Enum A → Enum A
  reset e = record e { index = 0 }
