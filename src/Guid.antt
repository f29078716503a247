-- ===== src/Guid.antt =====
-- GUID text in src/FacadeInternal.cpp: `ReadHex`, `ParseGuid`, and the format of `ReadGuid`.
-- A text ends where its list ends; the zero behind it is no hex digit and no dash.
pub mod RoundTrip
pub mod Trim
use msg_facade.Prelude.{
  ℕ, zero, suc, ◌+◌, ◌-◌, ◌*◌, ◌/◌, ◌%◌, Bool, ◌&&◌, ◌||◌, Option, none, some, List, [], ◌∷◌, ◌++◌,
  ltb, leb, ◌==◌, if◌then◌else◌, Text, length, take, drop,
}

pub record Guid : Type 0 where
  pub data1 : ℕ
  pub data2 : ℕ
  pub data3 : ℕ
  pub data4 : List ℕ

-- The value of one hex digit, in either case.
hex_value : ℕ → Option ℕ
hex_value c =
    if leb b'0' c && leb c b'9'
    then some (c - b'0')
    else if leb b'a' c && leb c b'f'
    then some (10 + (c - b'a'))
    else if leb b'A' c && leb c b'F'
    then some (10 + (c - b'A'))
    else none

-- `( rOut << 4 ) | d` is `acc * 16 + d`: the low four bits are free, and at most eight digits are read
-- into 64 bits. The result is the value with the unread text, the pointer `p` that moved on.
read_hex : ℕ → Text → ℕ → Option (ℕ × Text)
read_hex zero s acc = some (acc, s)
read_hex (suc n) [] acc = none
read_hex (suc n) (c ∷ s) acc = elim (hex_value c) [
  | none ↦ none
  | some d ↦ read_hex n s (acc * 16 + d)
]

infixl 5 ◌>>=◌
abbrev pub ◌>>=◌ {ℓ κ} : {A : Type ℓ} {B : Type κ} → Option A → (A → Option B) → Option B
none >>= f = none
some a >>= f = f a

-- `if ( *p++ != L'-' ) return false;`
read_dash : Text → Option Text
read_dash [] = none
read_dash (c ∷ s) = if c == b'-' then some s else none

-- A loop that reads `n` bytes of two digits.
read_bytes : ℕ → Text → Option (List ℕ × Text)
read_bytes zero s = some ([], s)
read_bytes (suc n) s =
    let rest = λ (v : ℕ) (t : Text). read_bytes n t in
    do (v, s) ← read_hex 2 s 0; (vs, s) ← rest v s; some (v ∷ vs, s)

-- The part of ParseGuid behind the length check.
pub read_guid : Text → Option Guid
read_guid s = do
  (a, s) ← read_hex 8 s 0
  s ← read_dash s
  (b, s) ← read_hex 4 s 0
  s ← read_dash s
  (c, s) ← read_hex 4 s 0
  s ← read_dash s
  (d, s) ← read_bytes 2 s
  s ← read_dash s
  (e, s) ← read_bytes 6 s
  some (record { data1 = a; data2 = b; data3 = c; data4 = d ++ e })

-- L" \t\r\n"
unfoldable pub is_space : ℕ → Bool
is_space c = c == 32 || c == 9 || c == 13 || c == 10

-- `while ( a < b && wcschr ( ws, str[a] ) ) ++a;`
trim_front : Text → Text
unfolding is_space
trim_front [] = []
trim_front (c ∷ s) = if is_space c then trim_front s else c ∷ s

-- `while ( b > a && wcschr ( ws, str[b - 1] ) ) --b;`: a unit stays if it is no space or a later one stays.
trim_back : Text → Text
unfolding is_space
trim_back [] = []
trim_back (c ∷ s) = elim (trim_back s) [
  | [] ↦ if is_space c then [] else c ∷ []
  | d ∷ t ↦ c ∷ d ∷ t
]

-- All but the last unit, and the last one.
split_last : ℕ → Text → Text × ℕ
split_last c [] = ([], c)
split_last c (d ∷ s) = let (t, l) = split_last d s in (c ∷ t, l)

-- A pair of braces around at least two units is taken off.
unbrace : Text → Text
unfolding split_last
unbrace [] = []
unbrace (c ∷ []) = c ∷ []
unbrace (c ∷ d ∷ s) = let (t, l) = split_last d s in if c == b'{' && l == b'}' then t else c ∷ d ∷ s

pub parse_guid : Option Text → Option Guid
parse_guid none = none
parse_guid (some s) =
    let t = unbrace (trim_back (trim_front s)) in if length t == 36 then read_guid t else none

-- One upper hex digit, and `%0kX` of a number below 16 ^ k.
hex_digit : ℕ → ℕ
hex_digit d = if ltb d 10 then b'0' + d else b'A' + (d - 10)

hex : ℕ → ℕ → Text
hex zero v = []
hex (suc k) v = hex k (v / 16) ++ hex_digit (v % 16) ∷ []

hex_bytes : List ℕ → Text
hex_bytes [] = []
hex_bytes (v ∷ vs) = hex 2 v ++ hex_bytes vs

-- L"%08lX-%04X-%04X-%02X%02X-%02X%02X%02X%02X%02X%02X"
pub format_guid : Guid → Text
format_guid g =
    let d = g.data4 in
    hex 8 g.data1
    ++ (b'-'
        ∷ (hex 4 g.data2
            ++ (b'-'
                ∷ (hex 4 g.data3
                    ++ (b'-' ∷ (hex_bytes (take 2 d) ++ (b'-' ∷ hex_bytes (drop 2 d))))))))
