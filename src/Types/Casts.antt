-- ===== src/Types/Casts.antt =====
-- The range check against the casts: the check accepts exactly the values that the cast keeps.
use msg_facade.Prelude.{ℕ, ◌-◌, ◌^◌, ◌≡◌, ◌≢◌, ◌↔◌, true, arith}
use msg_facade.Prelude.Int.{ℤ, pos, negsuc, ◌≤ℤ◌}
use msg_facade.Types.{is_int_type, int_fits, cast_int, bool}

-- The values of a `long long`.
abbrev pub IsInt64 : ℤ → Type 0
IsInt64 v = (negsuc (2 ^ 63 - 1) ≤ℤ v) × (v ≤ℤ pos (2 ^ 63 - 1))

-- For a `long long` and every integer type but BOOL, IntFits answers true exactly when the cast of the
-- switch arm leaves the value as it is.
pub int_fits-iff-cast_int :
    (t : ℕ) (v : ℤ)
    → is_int_type t ≡ true
    → t ≢ bool
    → IsInt64 v
    → (int_fits v t ≡ true) ↔ (cast_int t v ≡ v)
unfolding is_int_type int_fits cast_int
int_fits-iff-cast_int t (pos n) h b r = (λ f. ground arith, λ f. ground arith)
int_fits-iff-cast_int t (negsuc n) h b r = (λ f. ground arith, λ f. ground arith)
