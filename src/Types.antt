-- ===== src/Types.antt =====
-- The type codes of include/MsgFacade.h and the type layer of src/FacadeInternal.cpp: the
-- predicates, the range check, the casts of the switch arms, and the table of type names.
pub mod Casts
pub mod Names
use msg_facade.Prelude.{
  ℕ, ◌+◌, ◌-◌, ◌%◌, ◌^◌, Bool, true, false, ◌&&◌, ◌||◌, Option, none, some, List, [], ◌∷◌, ltb,
  ◌==◌, if◌then◌else◌, Text, codes, text_eq,
}
use msg_facade.Prelude.Int.{ℤ, pos, negsuc, leb_ℤ}

abbrev pub type_null : ℕ
type_null = 0

abbrev pub int08 : ℕ
int08 = 1

abbrev pub uint08 : ℕ
uint08 = 2

abbrev pub int16 : ℕ
int16 = 3

abbrev pub uint16 : ℕ
uint16 = 4

abbrev pub int32 : ℕ
int32 = 5

abbrev pub uint32 : ℕ
uint32 = 6

abbrev pub int64 : ℕ
int64 = 7

abbrev pub uint64 : ℕ
uint64 = 8

abbrev pub float : ℕ
float = 9

abbrev pub double : ℕ
double = 10

abbrev pub bool : ℕ
bool = 13

abbrev pub bstr16 : ℕ
bstr16 = 18

abbrev pub wstr16 : ℕ
wstr16 = 26

abbrev pub blob16 : ℕ
blob16 = 34

abbrev pub guid : ℕ
guid = 47

-- `case VBLockData_INT08: … return true; default: return false;`
unfoldable pub is_int_type : ℕ → Bool
is_int_type t =
    t == int08
    || t == uint08
    || t == int16
    || t == uint16
    || t == int32
    || t == uint32
    || t == int64
    || t == uint64
    || t == bool

unfoldable pub is_real_type : ℕ → Bool
is_real_type t = t == float || t == double

abbrev within : ℤ → ℤ → ℤ → Bool
within lo v hi = leb_ℤ lo v && leb_ℤ v hi

unfoldable pub int_fits : ℤ → ℕ → Bool
int_fits v t =
    if t == int08
    then within (negsuc 127) v (pos 127)
    else if t == uint08
    then within (pos 0) v (pos 255)
    else if t == int16
    then within (negsuc 32767) v (pos 32767)
    else if t == uint16
    then within (pos 0) v (pos 65535)
    else if t == int32
    then within (negsuc 2147483647) v (pos 2147483647)
    else if t == uint32
    then within (pos 0) v (pos 4294967295)
    else if t == int64
    then true
    else if t == uint64
    then leb_ℤ (pos 0) v
    else if t == bool
    then true
    else false

-- A cast to an unsigned integer of `m` values, and to a signed one.
unfoldable pub to_unsigned : ℕ → ℤ → ℕ
to_unsigned m (pos n) = n % m
to_unsigned m (negsuc n) = m - 1 - n % m

unfoldable pub to_signed : ℕ → ℕ → ℤ
to_signed m u = if ltb (u + u) m then pos u else negsuc (m - 1 - u)

-- `iValue != 0`
unfoldable pub to_bool : ℤ → Bool
to_bool (pos n) = if n == 0 then false else true
to_bool (negsuc n) = true

-- What a P3PmsgData is made of: the value that a switch arm hands to a constructor, or to `Recreate`,
-- after its cast. `Real` is the type of the doubles, `Float` that of the floats.
pub data Literal (Real Float : Type 0) : Type 0 where
  int_cell : ℕ → ℤ → Literal Real Float
  bool_cell : Bool → Literal Real Float
  float_cell : Float → Literal Real Float
  double_cell : Real → Literal Real Float
  text_cell : Text → Literal Real Float
  blob_cell : List ℕ → Literal Real Float
  guid_cell : ℕ → ℕ → ℕ → List ℕ → Literal Real Float

-- The integer that the cast of an arm leaves; a BOOL has its own arm.
unfoldable pub cast_int : ℕ → ℤ → ℤ
unfolding to_unsigned to_signed
cast_int t v =
    if t == int08
    then to_signed (2 ^ 8) (to_unsigned (2 ^ 8) v)
    else if t == uint08
    then pos (to_unsigned (2 ^ 8) v)
    else if t == int16
    then to_signed (2 ^ 16) (to_unsigned (2 ^ 16) v)
    else if t == uint16
    then pos (to_unsigned (2 ^ 16) v)
    else if t == int32
    then to_signed (2 ^ 32) (to_unsigned (2 ^ 32) v)
    else if t == uint32
    then pos (to_unsigned (2 ^ 32) v)
    else if t == int64
    then to_signed (2 ^ 64) (to_unsigned (2 ^ 64) v)
    else pos (to_unsigned (2 ^ 64) v)

-- The switch over the integer types; `none` is its `default` arm.
unfoldable pub int_literal : {Real Float : Type 0} → ℕ → ℤ → Option (Literal Real Float)
unfolding is_int_type
int_literal t v =
    if t == bool
    then some (bool_cell (to_bool v))
    else if is_int_type t
    then some (int_cell t (cast_int t v))
    else none

pub record TypeName : Type 0 where
  pub code : ℕ
  pub name : Text

abbrev entry : ℕ → Text → TypeName
entry c n = record { code = c; name = n }

unfoldable pub type_names : List TypeName
type_names =
    entry type_null (codes "NULL")
    ∷ entry int08 (codes "INT08")
    ∷ entry uint08 (codes "UINT08")
    ∷ entry int16 (codes "INT16")
    ∷ entry uint16 (codes "UINT16")
    ∷ entry int32 (codes "INT32")
    ∷ entry uint32 (codes "UINT32")
    ∷ entry int64 (codes "INT64")
    ∷ entry uint64 (codes "UINT64")
    ∷ entry float (codes "FLOAT")
    ∷ entry double (codes "DOUBLE")
    ∷ entry bool (codes "BOOL")
    ∷ entry bstr16 (codes "BSTR16")
    ∷ entry wstr16 (codes "WSTR16")
    ∷ entry blob16 (codes "BLOB16")
    ∷ entry guid (codes "GUID")
    ∷ []

-- The loops of `TypeToName` and `TypeFromName` over the table.
name_in : List TypeName → ℕ → Text
name_in [] t = codes "UNKNOWN"
name_in (e ∷ rest) t = if e.code == t then e.name else name_in rest t

code_in : List TypeName → Text → ℕ
code_in [] n = 0xFF
code_in (e ∷ rest) n = if text_eq n e.name then e.code else code_in rest n

unfoldable pub type_to_name : ℕ → Text
unfolding name_in type_names
type_to_name t = name_in type_names t

unfoldable pub type_from_name : Option Text → ℕ
unfolding code_in type_names text_eq
type_from_name none = 0xFF
type_from_name (some n) = code_in type_names n
