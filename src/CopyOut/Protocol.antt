-- ===== src/CopyOut/Protocol.antt =====
-- What a caller can rely on: the size is always reported, nothing is written past the capacity, a
-- short buffer is left alone, and a second call with the size of the first gets the whole value.
use msg_facade.Prelude.{
  ℕ, ◌+◌, ◌^◌, ◌≤◌, ◌<◌, ◌≡◌, refl, ap, ◌∙◌, ◌≢◌, inl, inr, true, Option, none, some, List, [], ◌∷◌,
  ◌++◌, append_assoc, arith, ltb, le→ltb_false, Bool-cases, Text, length, drop, length-drop,
  length-append, All,
}
use msg_facade.HResult.{failed, s_ok, more_data}
use msg_facade.CopyOut.{Out, overwrite, capacity, needed, deliver, copy_out, copy_out_bytes, c_str}

length-overwrite : (v mem : List ℕ) → length v ≤ length mem → length (overwrite v mem) ≡ length mem
length-overwrite v mem h =
    omega (arith, length-append v (drop (length v) mem), length-drop (length v) mem)

length-snoc : (v : Text) → length (v ++ 0 ∷ []) ≡ length v + 1
length-snoc v = omega (arith, length-append v (0 ∷ []))

-- The buffer's length, 0 for a NULL pointer.
abbrev pub size_of : Option (List ℕ) → ℕ
size_of none = 0
size_of (some mem) = length mem

deliver-size_of :
    (v : List ℕ) (need have : ℕ) (buf : Option (List ℕ))
    → length v ≤ need
    → have ≤ size_of buf
    → size_of (deliver v need have buf).buf ≡ size_of buf
unfolding deliver
deliver-size_of v need have none h k = refl
deliver-size_of v need have (some mem) h k = elim (Bool-cases (ltb have need)) [
  | inl short ↦ rw short refl
  | inr fits ↦ rw fits (length-overwrite v mem (ground arith))
]

capacity-le : (buf : Option (List ℕ)) (c : ℕ) → c ≤ size_of buf → capacity buf c ≤ size_of buf
capacity-le none c h = omega arith
capacity-le (some mem) c h = h

-- If the capacity that the caller states is not more than the buffer has, and the value with its
-- terminator is shorter than 2^32, then no call changes the length of the caller's buffer.
pub copy_out-size_of :
    (v : Text) (buf : Option (List ℕ)) (cch : ℕ)
    → length v + 1 < 2 ^ 32
    → cch ≤ size_of buf
    → size_of (copy_out (some v) buf (some cch)).buf ≡ size_of buf
unfolding copy_out
copy_out-size_of v buf cch h k =
    deliver-size_of (v ++ 0 ∷ []) (needed v) (capacity buf cch) buf (omega (arith, length-snoc v))
      (capacity-le buf cch k)

c_str-append : (v rest : Text) → All (λ c. c ≢ 0) v → c_str (v ++ 0 ∷ rest) ≡ v
unfolding c_str
c_str-append [] rest h = refl
c_str-append (c ∷ v) rest h = ground (arith, c_str-append v rest h.1)

deliver_fits :
    (v mem : List ℕ) (need have : ℕ)
    → need ≤ have
    → deliver v need have (some mem)
      ≡ record { hr = s_ok; buf = some (overwrite v mem); size = some need }
unfolding deliver
deliver_fits v mem need have h = rw (le→ltb_false have need h)

c_str-overwrite : (v mem : Text) → All (λ c. c ≢ 0) v → c_str (overwrite (v ++ 0 ∷ []) mem) ≡ v
c_str-overwrite v mem k =
    let rest = drop (length (v ++ 0 ∷ [])) mem in
    ap c_str (append_assoc v (0 ∷ []) rest) ∙ c_str-append v rest k

-- The text that a call left at the caller's pointer.
abbrev pub text_at : Option (List ℕ) → Option Text
text_at none = none
text_at (some mem) = some (c_str mem)

-- The two calls of the protocol: ask for the size with no buffer, then call with a buffer of that size.
abbrev pub two_calls : Text → ℕ → (ℕ → List ℕ) → Out
two_calls v cch alloc = elim (copy_out (some v) none (some cch)).size [
  | none ↦ copy_out (some v) none none
  | some n ↦ copy_out (some v) (some (alloc n)) (some n)
]

-- For a text without a zero unit and shorter than 2^32 - 1 units, whatever capacity the first call
-- states and whatever the new buffer holds: the second call succeeds, reports the size with the
-- terminator, and the C string at the buffer is the text.
pub two_calls_lem :
    (v : Text) (cch : ℕ) (alloc : ℕ → List ℕ)
    → length v + 1 < 2 ^ 32
    → All (λ c. c ≢ 0) v
    → ((two_calls v cch alloc).hr ≡ s_ok)
      × ((two_calls v cch alloc).size ≡ some (length v + 1))
      × (text_at (two_calls v cch alloc).buf ≡ some v)
unfolding copy_out deliver
two_calls_lem v cch alloc h k =
    let n = needed v in
    let e = deliver_fits (v ++ 0 ∷ []) (alloc n) n n (omega arith) in
    (
      ap (λ (o : Out). o.hr) e,
      ap (λ (o : Out). o.size) e ∙ ap some (omega arith),
      ap (λ (o : Out). text_at o.buf) e ∙ ap some (c_str-overwrite v (alloc n) k),
    )

-- What a call with a buffer of the size that is needed leaves.
pub copy_out-needed :
    (v : Text) (mem : List ℕ)
    → copy_out (some v) (some mem) (some (needed v))
      ≡ record { hr = s_ok; buf = some (overwrite (v ++ 0 ∷ []) mem); size = some (needed v) }
unfolding copy_out
copy_out-needed v mem = deliver_fits (v ++ 0 ∷ []) mem (needed v) (needed v) (omega arith)

-- A call with a `cch` pointer that fails has left the buffer alone, has reported the size that is
-- needed, and was given a buffer with a capacity below that size; it answers ERROR_MORE_DATA.
pub copy_out-failed :
    (v : Text) (buf : Option (List ℕ)) (cch : ℕ)
    → length v + 1 < 2 ^ 32
    → failed (copy_out (some v) buf (some cch)).hr ≡ true
    → ((copy_out (some v) buf (some cch)).hr ≡ more_data)
      × ((copy_out (some v) buf (some cch)).buf ≡ buf)
      × ((copy_out (some v) buf (some cch)).size ≡ some (length v + 1))
      × (cch < length v + 1)
unfolding copy_out deliver
copy_out-failed v none cch h f = cc
copy_out-failed v (some mem) cch h f = ground arith

-- The same protocol for bytes: with a buffer of the reported size, the second call puts all the
-- bytes at the front of the buffer and succeeds, for a value shorter than 2^32, an empty one included.
pub copy_out_bytes_two_calls :
    (v : List ℕ) (cap : ℕ) (alloc : ℕ → List ℕ)
    → length v < 2 ^ 32
    → ((copy_out_bytes v none (some cap)).size ≡ some (length v))
      × ((copy_out_bytes v (some (alloc (length v))) (some (length v))).hr ≡ s_ok)
      × ((copy_out_bytes v (some (alloc (length v))) (some (length v))).buf
          ≡ some (overwrite v (alloc (length v))))
unfolding copy_out_bytes deliver
copy_out_bytes_two_calls v cap alloc h = (ap some (omega arith), ground arith, ground arith)
