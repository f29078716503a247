-- ===== src/CopyOut.antt =====
-- `CopyOut` and `CopyOutBytes` of src/FacadeInternal.h: the caller-sized buffer protocol.
-- A pointer is an option. A buffer is the list of the units (or bytes) at it. What `wcscpy_s` leaves
-- behind the terminator is taken to be what was there.
pub mod Protocol
use msg_facade.Prelude.{
  ℕ, ◌+◌, ◌%◌, ◌^◌, Option, none, some, List, [], ◌∷◌, ◌++◌, ltb, ◌==◌, if◌then◌else◌, Text, length,
  drop,
}
use msg_facade.HResult.{HResult, s_ok, e_pointer, more_data, e_core}
use msg_facade.Outcome.{Outcome, ok, fail, diverge}

-- The bytes of `value` written at the front of a buffer.
abbrev pub overwrite {ℓ} : {A : Type ℓ} → List A → List A → List A
overwrite value mem = value ++ drop (length value) mem

-- What a call leaves in the caller's memory.
pub record Out : Type 0 where
  pub hr : HResult
  pub buf : Option (List ℕ)
  pub size : Option ℕ

-- `buf ? *cch : 0`
abbrev pub capacity : Option (List ℕ) → ℕ → ℕ
capacity none c = 0
capacity (some mem) c = c

-- A NULL string is read as the empty one.
abbrev pub or_empty : Option Text → Text
or_empty none = []
or_empty (some v) = v

-- `(unsigned int)::wcslen ( lpszValue ) + 1`
abbrev pub needed : Text → ℕ
needed v = (length v % 2 ^ 32 + 1) % 2 ^ 32

deliver : List ℕ → ℕ → ℕ → Option (List ℕ) → Out
deliver value need have none = record { hr = s_ok; buf = none; size = some need }
deliver value need have (some mem) =
    if ltb have need
    then record { hr = more_data; buf = some mem; size = some need }
    else record { hr = s_ok; buf = some (overwrite value mem); size = some need }

unfoldable pub copy_out : Option Text → Option (List ℕ) → Option ℕ → Out
unfolding deliver
copy_out value buf none = record { hr = e_pointer; buf = buf; size = none }
copy_out value buf (some cch) =
    let v = or_empty value in deliver (v ++ 0 ∷ []) (needed v) (capacity buf cch) buf

-- `if ( uSize ) ::memcpy`: nothing is copied for a size of 0, which `overwrite` does by itself.
unfoldable pub copy_out_bytes : List ℕ → Option (List ℕ) → Option ℕ → Out
unfolding deliver
copy_out_bytes value buf none = record { hr = e_pointer; buf = buf; size = none }
copy_out_bytes value buf (some size) = deliver value (length value % 2 ^ 32) (capacity buf size) buf

-- The C string at a buffer: the units before the first zero.
unfoldable pub c_str : List ℕ → Text
c_str [] = []
c_str (c ∷ s) = if c == 0 then [] else c ∷ c_str s

-- A method that fails before it delivers leaves the caller's memory alone.
abbrev pub answer : Option (List ℕ) → Option ℕ → Outcome Out → Out
answer buf size (ok out) = out
answer buf size (fail e) = record { hr = e; buf = buf; size = size }
answer buf size diverge = record { hr = e_core; buf = buf; size = size }
