-- ===== src/Types/Names.antt =====
-- `TypeToName` and `TypeFromName` share one table.
use msg_facade.Prelude.{
  ℕ, ◌≡◌, refl, sym, ◌∙◌, ◌≢◌, ◌⊎◌, inl, inr, true, some, List, [], ◌∷◌, arith, ◌==◌, Bool-cases,
  Text, codes, All, text_eq, text_eq→eq,
}
use msg_facade.Types.{TypeName, name_in, code_in, type_names, type_from_name, type_to_name}

-- What holds of each entry of a table holds of the one that the search by code finds.
name_in-All :
    (P : TypeName → Type 0) (l : List TypeName) (t : ℕ)
    → All P l
    → (name_in l t ≡ codes "UNKNOWN")
      ⊎ ((e : TypeName) × P e × (e.code ≡ t) × (name_in l t ≡ e.name))
unfolding name_in
name_in-All P [] t h = inl refl
name_in-All P (e ∷ l) t h = elim (Bool-cases (e.code == t)) [
  | inl same ↦ inr (e, h.0, ground arith, rw same refl)
  | inr other ↦ rw other (name_in-All P l t h.1)
]

code_in-All :
    (P : TypeName → Type 0) (l : List TypeName) (n : Text)
    → All P l
    → (code_in l n ≡ 0xFF)
      ⊎ ((e : TypeName) × P e × (text_eq n e.name ≡ true) × (code_in l n ≡ e.code))
unfolding code_in
code_in-All P [] n h = inl refl
code_in-All P (e ∷ l) n h = elim (Bool-cases (text_eq n e.name)) [
  | inl same ↦ inr (e, h.0, same, rw same refl)
  | inr other ↦ rw other (code_in-All P l n h.1)
]

-- The code of a table entry is found by its name, and its name by its code.
BothWays : TypeName → Type 0
BothWays e = (code_in type_names e.name ≡ e.code) × (name_in type_names e.code ≡ e.name)

table : All BothWays type_names
unfolding BothWays type_names code_in name_in text_eq
table = (
  (refl, refl),
  (
    (refl, refl),
    (
      (refl, refl),
      (
        (refl, refl),
        (
          (refl, refl),
          (
            (refl, refl),
            (
              (refl, refl),
              (
                (refl, refl),
                (
                  (refl, refl),
                  (
                    (refl, refl),
                    (
                      (refl, refl),
                      (
                        (refl, refl),
                        ((refl, refl), ((refl, refl), ((refl, refl), ((refl, refl), tt)))),
                      ),
                    ),
                  ),
                ),
              ),
            ),
          ),
        ),
      ),
    ),
  ),
)

-- For every type code: TypeFromName gives the code back from the name that TypeToName prints, or the
-- name is UNKNOWN and TypeFromName answers 0xFF for it.
pub type_from_name-type_to_name :
    (t : ℕ)
    → (type_from_name (some (type_to_name t)) ≡ t)
      ⊎ ((type_to_name t ≡ codes "UNKNOWN") × (type_from_name (some (type_to_name t)) ≡ 0xFF))
unfolding type_from_name type_to_name
type_from_name-type_to_name t = elim (name_in-All BothWays type_names t table) [
  | inl unknown ↦ inr (unknown, rw unknown refl)
  | inr (e, both, same, found) ↦ inl (rw found (unfold BothWays in both.0 ∙ same))
]

-- A text for which TypeFromName finds a code is the name that TypeToName prints for that code.
pub type_to_name-type_from_name :
    (n : Text) → type_from_name (some n) ≢ 0xFF → type_to_name (type_from_name (some n)) ≡ n
unfolding type_from_name type_to_name
type_to_name-type_from_name n known = elim (code_in-All BothWays type_names n table) [
  | inl unknown ↦ absurd (known unknown)
  | inr (e, both, same, found) ↦
      rw found (unfold BothWays in both.1 ∙ sym (text_eq→eq n e.name same))
]
