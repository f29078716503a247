-- ===== src/Com/Stores/Queries.antt =====
-- What `CMsgStore` of com/ComStore.cpp tells of its store and of the library.
use msg_facade.Prelude.{
  ℕ, ◌^◌, Bool, true, false, ◌||◌, Option, none, some, leb, ◌==◌, if◌then◌else◌, Text, codes,
}
use msg_facade.Prelude.Int.{ℤ, pos, negsuc}
use msg_facade.HResult.{HResult, s_ok, failed}
use msg_facade.Types.{to_signed}
use msg_facade.Outcome.{Outcome, ok, fail, diverge, ◌>>=◌}
use msg_facade.Core.{Msgcore}
use msg_facade.Store.{Store}
use msg_facade.Store.Queries.{get_filename, get_rootname, get_dirty, put_dirty, get_size, get_valid}
use msg_facade.Library.{type_name, type_of_name, wildcard_match, is_valid_name}
use msg_facade.Com.{Answer, answered, raised, unending, converted}
use msg_facade.Com.Codes.{code, from_facade, c_closed}
use msg_facade.HResult.{e_invalidarg}
use msg_facade.Com.Strings.{zeros, or_zero, string_at, read_string}
use msg_facade.Com.Stores.{MsgStore, on_store, answered_with}

module _ (core : Msgcore) where
  -- A read of the store.
  read_held : {A : Type 0} → (Store core → Answer A) → Option (Store core) → Answer A
  read_held f none = raised c_closed
  read_held f (some s) = f s

  unfoldable pub file_name : MsgStore core → Answer Text
  unfolding read_held
  file_name st = read_held (λ s. converted (read_string (get_filename core s))) st.held

  unfoldable pub root_name_of : MsgStore core → Answer Text
  unfolding read_held
  root_name_of st = read_held (λ s. converted (read_string (get_rootname core s))) st.held

  unfoldable pub is_dirty_store : MsgStore core → Answer Bool
  unfolding read_held
  is_dirty_store st = read_held (λ s. converted (get_dirty core s true)) st.held

  unfoldable pub set_dirty_store : Bool → MsgStore core → Answer (Unit {0}) × MsgStore core
  set_dirty_store dirty = on_store core λ s st. answered_with core st (put_dirty core dirty s)

  unfoldable pub size_of_store : MsgStore core → Answer ℤ
  unfolding read_held
  size_of_store st =
      read_held (λ s. converted (get_size core s true >>= λ n. ok (to_signed (2 ^ 32) n))) st.held

  -- The one that does not fail.
  valid_or_not : Outcome Bool → Answer Bool
  valid_or_not (ok valid) = answered valid
  valid_or_not (fail e) = answered false
  valid_or_not diverge = unending

  unfoldable pub is_valid_store : MsgStore core → Answer Bool
  unfolding valid_or_not
  is_valid_store st = elim st.held [
    | none ↦ answered false
    | some s ↦ valid_or_not (get_valid core s true)
  ]

  -- A method that wants the library.
  on_lib : {A : Type 0} → Answer A → Option ℕ → Answer A
  on_lib body none = raised c_closed
  on_lib body (some lib) = body

  -- The name of a type, by two calls.
  name_again : ℕ → ℕ → Answer Text
  name_again t n =
      let got = type_name t (some (zeros n)) (some n) in
      if failed got.hr then raised (from_facade (code got.hr)) else answered (string_at got.buf)

  name_of_code : ℕ → Answer Text
  unfolding name_again
  name_of_code t =
      let first = type_name t none (some 0) in
      if failed first.hr || leb (or_zero first.size) 1
      then answered (codes "UNKNOWN")
      else name_again t (or_zero first.size)

  name_in_range : ℤ → Answer Text
  unfolding name_of_code
  name_in_range (negsuc n) = raised (code e_invalidarg)
  name_in_range (pos t) = if leb t 255 then name_of_code t else raised (code e_invalidarg)

  unfoldable pub name_of_type : ℤ → MsgStore core → Answer Text
  unfolding on_lib name_in_range
  name_of_type t st = on_lib (name_in_range t) st.lib

  -- A name that there is not is -1.
  code_or_minus : Outcome ℕ → Answer ℤ
  code_or_minus (ok t) = answered (pos t)
  code_or_minus (fail e) = answered (negsuc 0)
  code_or_minus diverge = unending

  unfoldable pub type_of_text : Text → MsgStore core → Answer ℤ
  unfolding on_lib code_or_minus
  type_of_text name st = on_lib (code_or_minus (type_of_name (some name) true)) st.lib

  is_s_ok : Outcome HResult → Answer Bool
  is_s_ok (ok hr) = answered (code hr == code s_ok)
  is_s_ok (fail e) = answered false
  is_s_ok diverge = unending

  unfoldable pub matches : Text → Text → MsgStore core → Answer Bool
  unfolding on_lib is_s_ok
  matches pattern name st = on_lib (is_s_ok (wildcard_match core (some pattern) (some name))) st.lib

  unfoldable pub is_name : Text → MsgStore core → Answer Bool
  unfolding on_lib
  is_name name st = on_lib (answered (code (is_valid_name core (some name)) == code s_ok)) st.lib
