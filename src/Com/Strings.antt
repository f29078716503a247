-- ===== src/Com/Strings.antt =====
-- `ReadString` of com/ComUtil.cpp: the two calls by which the COM layer gets a text from the facade.
use msg_facade.Prelude.{
  ℕ, zero, suc, ◌+◌, ◌^◌, ◌<◌, ◌≡◌, refl, ◌≢◌, Option, none, some, List, [], ◌∷◌, arith, leb,
  if◌then◌else◌, Text, length, All,
}
use msg_facade.HResult.{s_ok, failed}
use msg_facade.CopyOut.{Out, copy_out, c_str, needed}
use msg_facade.CopyOut.Protocol.{text_at, two_calls_lem}
use msg_facade.Outcome.{Outcome, ok, fail}

-- `std::vector<wchar_t> buf ( cch );`
unfoldable pub zeros : ℕ → List ℕ
zeros zero = []
zeros (suc n) = 0 ∷ zeros n

abbrev pub or_zero : Option ℕ → ℕ
or_zero none = 0
or_zero (some n) = n

abbrev pub string_at : Option (List ℕ) → Text
string_at none = []
string_at (some b) = c_str b

-- The second call, with a buffer of the size that the first one has given.
unfoldable pub read_again : (Option (List ℕ) → Option ℕ → Out) → ℕ → Outcome Text
read_again ask n =
    if leb n 1
    then ok []
    else let got = ask (some (zeros n)) (some n) in
      if failed got.hr then fail got.hr else ok (string_at got.buf)

-- `ask` is the method of the facade, which answers by CopyOut.
unfoldable pub read_string : (Option (List ℕ) → Option ℕ → Out) → Outcome Text
unfolding read_again
read_string ask =
    let first = ask none (some 0) in
    if failed first.hr then fail first.hr else read_again ask (or_zero first.size)

string_at-text_at : (b : Option (List ℕ)) (t : Text) → text_at b ≡ some t → string_at b ≡ t
string_at-text_at none t h = cc
string_at-text_at (some b) t h = cc

read_again_got :
    (ask : Option (List ℕ) → Option ℕ → Out) (t : Text) (n : ℕ)
    → 1 < n
    → (ask (some (zeros n)) (some n)).hr ≡ s_ok
    → text_at (ask (some (zeros n)) (some n)).buf ≡ some t
    → read_again ask n ≡ ok t
unfolding read_again
read_again_got ask t n more good h = rw good (rw (string_at-text_at _ t h) (ground arith))

first_call :
    (t : Text)
    → copy_out (some t) none (some 0) ≡ record { hr = s_ok; buf = none; size = some (needed t) }
unfolding copy_out
first_call t = refl

second_call :
    (t : Text)
    → length t + 1 < 2 ^ 32
    → All (λ c. c ≢ 0) t
    → ((copy_out (some t) (some (zeros (needed t))) (some (needed t))).hr ≡ s_ok)
      × (text_at (copy_out (some t) (some (zeros (needed t))) (some (needed t))).buf ≡ some t)
unfolding copy_out
second_call t h k = let (good, size, text) = two_calls_lem t 0 zeros h k in (good, text)

-- A text without a zero unit and shorter than 2^32 - 1 units comes through whole, for every method of
-- the facade that answers it by CopyOut.
pub read_string-copy_out :
    (t : Text) → length t + 1 < 2 ^ 32 → All (λ c. c ≢ 0) t → read_string (copy_out (some t)) ≡ ok t
unfolding read_string
read_string-copy_out [] h k = unfold copy_out in refl
read_string-copy_out (c ∷ t) h k =
    let (good, text) = second_call (c ∷ t) h k in
    rw (first_call (c ∷ t))
      (read_again_got (copy_out (some (c ∷ t))) (c ∷ t) (needed (c ∷ t)) (omega arith) good text)
