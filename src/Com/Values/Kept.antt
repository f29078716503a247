-- ===== src/Com/Values/Kept.antt =====
-- What a client of the COM layer sees of an integer, and what a refused declare leaves: com/ComUtil.cpp.
use msg_facade.Prelude.{
  ℕ, ◌-◌, ◌%◌, ◌^◌, ◌≡◌, refl, ◌⊎◌, inl, inr, Bool, true, false, Option, none, some, [], ◌∷◌, arith,
  ◌==◌, if◌then◌else◌, Option-cases, Text, length,
}
use msg_facade.Prelude.Int.{ℤ, pos, negsuc, ◌≤ℤ◌}
use msg_facade.HResult.{e_exists}
use msg_facade.Types.{type_null, bool, int64, is_int_type, to_unsigned}
use msg_facade.Outcome.{ok}
use msg_facade.Route.{Route}
use msg_facade.Core.{Msgcore}
use msg_facade.Store.{Store}
use msg_facade.Node.{get_type, get_int}
use msg_facade.Node.Refused.{IsField, IsTaken, declare_taken}
use msg_facade.Com.{Answer, raised}
use msg_facade.Com.Codes.{code, from_facade, c_declare, c_type}
use msg_facade.Com.Values.{
  Variant, vt_empty, vt_null, vt_bool, vt_small, vt_large, vt_r4, vt_r8, vt_bstr, vt_array,
  vt_other, Conversions, mismatch, integer, value_of, read_node_value, declare_variant,
}

module _ {Real Float : Type 0} where
  -- The variant holds the integer: as a Long if it is one.
  abbrev pub Holds : ℤ → Variant Real Float → Type 0
  Holds v w =
      ((w ≡ vt_small v) × (negsuc (2 ^ 31 - 1) ≤ℤ v) × (v ≤ℤ pos (2 ^ 31 - 1))) ⊎ (w ≡ vt_large v)

  integer-Holds :
      (v : ℤ) (unsigned : Bool)
      → negsuc (2 ^ 63 - 1) ≤ℤ v
      → v ≤ℤ pos (2 ^ 63 - 1)
      → Holds v (integer v unsigned)
  unfolding integer to_unsigned
  integer-Holds (pos n) true low high = ground arith
  integer-Holds (negsuc n) true low high = ground arith
  integer-Holds (pos n) false low high = ground arith
  integer-Holds (negsuc n) false low high = ground arith

not_null : (t : ℕ) → is_int_type t ≡ true → (t == type_null) ≡ false
unfolding is_int_type
not_null t h = ground arith

module _ (core : Msgcore) where
  value_of_int :
      (s : Store core) (r : Route) (t : ℕ) (v : ℤ) (unsigned : Bool)
      → is_int_type t ≡ true
      → (t == bool) ≡ false
      → get_int core s r true ≡ ok (v, unsigned)
      → value_of core s r t ≡ ok (integer v unsigned)
  unfolding value_of
  value_of_int s r t v unsigned i b h =
      rw (not_null t i, value_of) (rw (b, value_of) (rw (i, value_of) (rw (h, value_of) refl)))

  -- The Value of a node of an integer type other than BOOL, of which GetInt answers a 64-bit integer, is
  -- that very integer: as a Long only if it is one, whatever its width and its sign.
  pub read_node_value_lem :
      (s : Store core) (r : Route) (t : ℕ) (v : ℤ) (unsigned : Bool)
      → get_type core s r true ≡ ok t
      → is_int_type t ≡ true
      → (t == bool) ≡ false
      → get_int core s r true ≡ ok (v, unsigned)
      → negsuc (2 ^ 63 - 1) ≤ℤ v
      → v ≤ℤ pos (2 ^ 63 - 1)
      → (w : Variant core.Real core.Float) × (read_node_value core s r true ≡ ok w) × Holds v w
  unfolding read_node_value
  read_node_value_lem s r t v unsigned typed i b h low high = (
    integer v unsigned,
    rw (typed, read_node_value) (value_of_int s r t v unsigned i b h),
    integer-Holds v unsigned low high,
  )

  -- A declare that is refused with one of its three codes, and leaves the store.
  abbrev pub IsRefused : Store core → Answer (Option Route) × Store core → Type 0
  IsRefused s res =
      (hr : ℕ) × (res ≡ (raised hr, s)) × ((hr ≡ c_declare) ⊎ ((hr ≡ mismatch) ⊎ (hr ≡ c_type)))

  taken : (s : Store core) → IsRefused s (raised (from_facade (code e_exists)), s)
  unfolding from_facade code
  taken s = (c_declare, refl, inl refl)

  -- Without UPDATE, DeclareVariant on a node that is a field, for a name that a child of it has,
  -- stores nothing: for every VARIANT and whatever it can be changed to, it answers msgcDeclare, or
  -- refuses the VARIANT itself.
  pub declare_variant_taken :
      (change : Conversions core.Real core.Float) (s : Store core) (r : Route) (m : core.Mgr)
      (o : core.Object) (scope : ℕ) (name : Text) (v : Variant core.Real core.Float) (out : Bool)
      → IsField core s r m o
      → IsTaken core m o scope name
      → IsRefused s (declare_variant core change r scope (some name) v false out s)
  unfolding declare_variant
  declare_variant_taken change s r m o scope name vt_empty out f k = (c_type, refl, inr (inr refl))
  declare_variant_taken change s r m o scope name vt_null out f k = (c_type, refl, inr (inr refl))
  declare_variant_taken change s r m o scope name (vt_bool b) out f k =
      let (e, _, _, _, _) =
        declare_taken core s r m o scope name (if b then pos 1 else pos 0) core.zero_real none none
          bool out f k in
      rw e (taken s)
  declare_variant_taken change s r m o scope name (vt_small n) out f k =
      elim (Option-cases (change.to_i4 (vt_small n))) [
        | inl none_such ↦ rw none_such (mismatch, refl, inr (inl refl))
        | inr (i, changed) ↦
            let (e, _, _, _, _) =
              declare_taken core s r m o scope name i core.zero_real none none 0 out f k in
            rw changed (rw e (taken s))
      ]
  declare_variant_taken change s r m o scope name (vt_large n) out f k =
      elim (Option-cases (change.to_i8 (vt_large n))) [
        | inl none_such ↦ rw none_such (mismatch, refl, inr (inl refl))
        | inr (i, changed) ↦
            let (e, _, _, _, _) =
              declare_taken core s r m o scope name i core.zero_real none none int64 out f k in
            rw changed (rw e (taken s))
      ]
  declare_variant_taken change s r m o scope name (vt_r4 x) out f k =
      elim (Option-cases (change.to_r8 (vt_r4 x))) [
        | inl none_such ↦ rw none_such (mismatch, refl, inr (inl refl))
        | inr (d, changed) ↦
            let (_, e, _, _, _) =
              declare_taken core s r m o scope name (pos 0) d none none 0 out f k in
            rw changed (rw e (taken s))
      ]
  declare_variant_taken change s r m o scope name (vt_r8 x) out f k =
      elim (Option-cases (change.to_r8 (vt_r8 x))) [
        | inl none_such ↦ rw none_such (mismatch, refl, inr (inl refl))
        | inr (d, changed) ↦
            let (_, e, _, _, _) =
              declare_taken core s r m o scope name (pos 0) d none none 0 out f k in
            rw changed (rw e (taken s))
      ]
  declare_variant_taken change s r m o scope name (vt_bstr text) out f k =
      let (_, _, e, _, _) =
        declare_taken core s r m o scope name (pos 0) core.zero_real (some text) none 0 out f k in
      rw e (taken s)
  declare_variant_taken change s r m o scope name (vt_array none) out f k =
      (mismatch, refl, inr (inl refl))
  declare_variant_taken change s r m o scope name (vt_array (some [])) out f k =
      let (_, _, _, e, _) =
        declare_taken core s r m o scope name (pos 0) core.zero_real none none 0 out f k in
      rw e (taken s)
  declare_variant_taken change s r m o scope name (vt_array (some (x ∷ b))) out f k =
      let (_, _, _, e, _) =
        declare_taken core s r m o scope name (pos 0) core.zero_real none (some (x ∷ b))
          (length (x ∷ b) % 2 ^ 32) out f k in
      rw e (taken s)
  declare_variant_taken change s r m o scope name (vt_other t) out f k =
      elim (Option-cases (change.to_bstr (vt_other t))) [
        | inl none_such ↦ rw none_such (c_type, refl, inr (inr refl))
        | inr (text, changed) ↦
            let (_, _, e, _, _) =
              declare_taken core s r m o scope name (pos 0) core.zero_real (some text) none 0 out f
                k in
            rw changed (rw e (taken s))
      ]
