-- ===== src/Guid/RoundTrip.antt =====
-- The text that ReadGuid prints is read back by ParseGuid.
use msg_facade.Prelude.{
  ℕ, zero, suc, ◌+◌, ◌*◌, ◌/◌, ◌%◌, ◌^◌, ◌<◌, ◌≡◌, refl, sym, ap, ◌∙◌, ◌≢◌, false, Option, some,
  List, [], ◌∷◌, ◌++◌, append_assoc, append-nil, arith, Text, length, take, drop, take-append-drop,
  length-take, length-drop, All-take, All-drop, length-append, All, All-append,
}
use native.Mathlib.Nat.{pow-suc}
use msg_facade.Guid.{
  hex_value, hex_digit, hex, hex_bytes, read_hex, read_bytes, is_space, Guid, format_guid,
  read_guid, read_dash,
}

hex_value-hex_digit : (d : ℕ) → d < 16 → hex_value (hex_digit d) ≡ some d
unfolding hex_value hex_digit
hex_value-hex_digit d h = ground arith

read_hex_step :
    (n c d acc : ℕ) (s : Text)
    → hex_value c ≡ some d
    → read_hex (suc n) (c ∷ s) acc ≡ read_hex n s (acc * 16 + d)
unfolding read_hex
read_hex_step n c d acc s e = rw (e, read_hex) refl

-- `j` more digits are read after the `k` digits of `v`.
read_hex-hex :
    (k j v : ℕ) (s : Text) → v < 16 ^ k → read_hex (k + j) (hex k v ++ s) 0 ≡ read_hex j s v
unfolding read_hex hex
read_hex-hex zero j v s h =
    let same : zero + j ≡ j = omega arith in
    let none_left : v ≡ 0 = omega arith in rw (same, none_left) refl
read_hex-hex (suc k) j v s h =
    let shift : suc k + j ≡ k + suc j = omega arith in
    let value : v / 16 * 16 + v % 16 ≡ v = omega arith in
    let digit = hex_digit (v % 16) in
    rw (shift, append_assoc (hex k (v / 16)) (digit ∷ []) s)
      (read_hex-hex k (suc j) (v / 16) (digit ∷ s) (omega (arith, pow-suc 16 k))
        ∙ read_hex_step j digit (v % 16) (v / 16) s (hex_value-hex_digit (v % 16) (omega arith))
        ∙ ap (read_hex j s) value)

-- Exactly the `k` digits of `v`.
read_hex-hex_all : (k v : ℕ) (s : Text) → v < 16 ^ k → read_hex k (hex k v ++ s) 0 ≡ some (v, s)
unfolding read_hex
read_hex-hex_all k v s h =
    let same : k ≡ k + 0 = omega arith in
    ap (λ n. read_hex n (hex k v ++ s) 0) same ∙ read_hex-hex k 0 v s h

abbrev pub NoSpace : ℕ → Type 0
NoSpace c = is_space c ≡ false

abbrev pub Plain : ℕ → Type 0
Plain c = NoSpace c × (c ≢ b'{')

hex-Plain : (k v : ℕ) → All Plain (hex k v)
unfolding hex hex_digit is_space
hex-Plain zero v = tt
hex-Plain (suc k) v =
    All-append Plain (hex k (v / 16)) (hex_digit (v % 16) ∷ []) (hex-Plain k (v / 16))
      (ground arith, tt)

length-hex : (k v : ℕ) → length (hex k v) ≡ k
unfolding hex
length-hex zero v = refl
length-hex (suc k) v =
    omega (arith, length-append (hex k (v / 16)) (hex_digit (v % 16) ∷ []), length-hex k (v / 16))

read_bytes-hex_bytes :
    (vs : List ℕ) (s : Text)
    → All (λ v. v < 256) vs
    → read_bytes (length vs) (hex_bytes vs ++ s) ≡ some (vs, s)
unfolding read_bytes hex_bytes
read_bytes-hex_bytes [] s h = refl
read_bytes-hex_bytes (v ∷ vs) s h =
    rw
      (
        append_assoc (hex 2 v) (hex_bytes vs) s,
        read_hex-hex_all 2 v (hex_bytes vs ++ s) (omega arith),
      )
      (rw (read_bytes-hex_bytes vs s h.1) refl)

read_bytes_of_length :
    (n : ℕ) (vs : List ℕ) (s : Text)
    → length vs ≡ n
    → All (λ v. v < 256) vs
    → read_bytes n (hex_bytes vs ++ s) ≡ some (vs, s)
read_bytes_of_length n vs s e h =
    ap (λ k. read_bytes k (hex_bytes vs ++ s)) (sym e) ∙ read_bytes-hex_bytes vs s h

dash_Plain : Plain b'-'
unfolding is_space
dash_Plain = ground arith

hex_bytes-Plain : (vs : List ℕ) → All Plain (hex_bytes vs)
unfolding hex_bytes
hex_bytes-Plain [] = tt
hex_bytes-Plain (v ∷ vs) =
    All-append Plain (hex 2 v) (hex_bytes vs) (hex-Plain 2 v) (hex_bytes-Plain vs)

length-hex_bytes : (vs : List ℕ) → length (hex_bytes vs) ≡ length vs + length vs
unfolding hex_bytes
length-hex_bytes [] = omega arith
length-hex_bytes (v ∷ vs) =
    omega (arith, length-append (hex 2 v) (hex_bytes vs), length-hex 2 v, length-hex_bytes vs)

-- The fields are in the range of their C types: 32, 16 and 16 bits, and eight bytes.
pub record IsGuid (g : Guid) : Type 0 where
  pub data1_fits : g.data1 < 2 ^ 32
  pub data2_fits : g.data2 < 2 ^ 16
  pub data3_fits : g.data3 < 2 ^ 16
  pub data4_length : length g.data4 ≡ 8
  pub data4_fits : All (λ v. v < 256) g.data4

module _ (g : Guid) where
  abbrev tail4 : Text
  tail4 = hex_bytes (take 2 g.data4) ++ (b'-' ∷ hex_bytes (drop 2 g.data4))

  abbrev tail3 : Text
  tail3 = hex 4 g.data3 ++ (b'-' ∷ tail4)

  abbrev tail2 : Text
  tail2 = hex 4 g.data2 ++ (b'-' ∷ tail3)

  pub length-format_guid : IsGuid g → length (format_guid g) ≡ 36
  unfolding format_guid
  length-format_guid w = omega (
    arith,
    length-append (hex 8 g.data1) (b'-' ∷ tail2),
    length-append (hex 4 g.data2) (b'-' ∷ tail3),
    length-append (hex 4 g.data3) (b'-' ∷ tail4),
    length-append (hex_bytes (take 2 g.data4)) (b'-' ∷ hex_bytes (drop 2 g.data4)),
    length-hex 8 g.data1,
    length-hex 4 g.data2,
    length-hex 4 g.data3,
    length-hex_bytes (take 2 g.data4),
    length-hex_bytes (drop 2 g.data4),
    length-take 2 g.data4,
    length-drop 2 g.data4,
  )

  pub format_guid-Plain : All Plain (format_guid g)
  unfolding format_guid
  format_guid-Plain = All-append Plain _ _ (hex-Plain 8 g.data1) (
    dash_Plain,
    All-append Plain _ _ (hex-Plain 4 g.data2) (
      dash_Plain,
      All-append Plain _ _ (hex-Plain 4 g.data3) (
        dash_Plain,
        All-append Plain _ _ (hex_bytes-Plain (take 2 g.data4))
            (dash_Plain, hex_bytes-Plain (drop 2 g.data4)),
      ),
    ),
  )

  data4_whole :
      Path (Option Guid) (some (record g { data4 = take 2 g.data4 ++ drop 2 g.data4 })) (some g)
  data4_whole = ap (λ d. some (record g { data4 = d })) (take-append-drop 2 g.data4)

  read_first :
      IsGuid g → read_bytes 2 tail4 ≡ some (take 2 g.data4, b'-' ∷ hex_bytes (drop 2 g.data4))
  read_first w =
      read_bytes_of_length 2 (take 2 g.data4) (b'-' ∷ hex_bytes (drop 2 g.data4))
        (omega (arith, length-take 2 g.data4)) (All-take _ 2 g.data4 w.data4_fits)

  read_rest : IsGuid g → read_bytes 6 (hex_bytes (drop 2 g.data4)) ≡ some (drop 2 g.data4, [])
  read_rest w =
      ap (read_bytes 6) (sym (append-nil (hex_bytes (drop 2 g.data4))))
      ∙ read_bytes_of_length 6 (drop 2 g.data4) [] (omega (arith, length-drop 2 g.data4))
          (All-drop _ 2 g.data4 w.data4_fits)

  pub read_guid-format_guid : IsGuid g → read_guid (format_guid g) ≡ some g
  unfolding read_guid format_guid read_dash
  read_guid-format_guid w =
      let d = g.data4 in
      rw (read_hex-hex_all 8 g.data1 _ (omega arith)) (
        rw (read_hex-hex_all 4 g.data2 _ (omega arith)) (
          rw (read_hex-hex_all 4 g.data3 _ (omega arith))
            (rw (read_first w) (rw (read_rest w) (data4_whole)))))
