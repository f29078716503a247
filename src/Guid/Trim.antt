-- ===== src/Guid/Trim.antt =====
-- White space and braces around the GUID text make no difference to ParseGuid.
use msg_facade.Prelude.{
  ℕ, ◌≡◌, refl, ◌≢◌, Bool, true, false, some, [], ◌∷◌, ◌++◌, arith, Text, length, All, All-append,
}
use msg_facade.Guid.{
  Guid, is_space, trim_front, trim_back, split_last, unbrace, parse_guid, format_guid,
}
use msg_facade.Guid.RoundTrip.{
  IsGuid, NoSpace, Plain, length-format_guid, format_guid-Plain, read_guid-format_guid,
}

abbrev pub IsSpace : ℕ → Type 0
IsSpace c = is_space c ≡ true

trim_front_none : (s : Text) → All NoSpace s → trim_front s ≡ s
unfolding trim_front
trim_front_none [] k = refl
trim_front_none (c ∷ s) (k, ks) = rw k refl

trim_front-append :
    (pre s post : Text)
    → All IsSpace pre
    → All NoSpace s
    → s ≢ []
    → trim_front (pre ++ (s ++ post)) ≡ s ++ post
unfolding trim_front
trim_front-append [] [] post h k n = absurd (n refl)
trim_front-append [] (c ∷ s) post h (k, ks) n = rw k refl
trim_front-append (c ∷ pre) s post (h, hs) k n = rw h (trim_front-append pre s post hs k n)

trim_back-All : (post : Text) → All IsSpace post → trim_back post ≡ []
unfolding trim_back
trim_back-All [] h = refl
trim_back-All (c ∷ post) (h, hs) = rw (trim_back-All post hs, h) refl

trim_back_step : (c : ℕ) (s t : Text) → NoSpace c → trim_back s ≡ t → trim_back (c ∷ s) ≡ c ∷ t
unfolding trim_back
trim_back_step c s [] n e = rw (e, n) refl
trim_back_step c s (d ∷ t) n e = rw e refl

trim_back-append : (s post : Text) → All NoSpace s → All IsSpace post → trim_back (s ++ post) ≡ s
trim_back-append [] post k h = trim_back-All post h
trim_back-append (c ∷ s) post (k, ks) h =
    trim_back_step c (s ++ post) s k (trim_back-append s post ks h)

split_last-append : (d l : ℕ) (s : Text) → split_last d (s ++ l ∷ []) ≡ (d ∷ s, l)
unfolding split_last
split_last-append d l [] = refl
split_last-append d l (c ∷ s) = rw (split_last-append c l s) refl

-- A text as it stands, or between braces.
abbrev pub enclose : Bool → Text → Text
enclose false s = s
enclose true s = b'{' ∷ (s ++ b'}' ∷ [])

unbrace-enclose : (b : Bool) (s : Text) → s ≢ [] → All Plain s → unbrace (enclose b s) ≡ s
unfolding unbrace
unbrace-enclose b [] n k = absurd (n refl)
unbrace-enclose true (c ∷ s) n k = rw (split_last-append c b'}' s) refl
unbrace-enclose false (c ∷ []) n k = refl
unbrace-enclose false (c ∷ d ∷ s) n ((k, kb), ks) = ground arith

Plain-NoSpace : (s : Text) → All Plain s → All NoSpace s
Plain-NoSpace [] k = tt
Plain-NoSpace (c ∷ s) (k, ks) = (k.0, Plain-NoSpace s ks)

brace_NoSpace : NoSpace b'{' × NoSpace b'}'
unfolding is_space
brace_NoSpace = (refl, refl)

enclose-NoSpace : (b : Bool) (s : Text) → All NoSpace s → All NoSpace (enclose b s)
enclose-NoSpace false s k = k
enclose-NoSpace true s k =
    (brace_NoSpace.0, All-append NoSpace s (b'}' ∷ []) k (brace_NoSpace.1, tt))

ne-nil_of_length : (s : Text) → length s ≡ 36 → s ≢ []
ne-nil_of_length [] e n = absurd (omega arith)
ne-nil_of_length (c ∷ s) e n = cc

enclose-ne-nil : (b : Bool) (s : Text) → s ≢ [] → enclose b s ≢ []
enclose-ne-nil false s h = h
enclose-ne-nil true s h = λ e. cc

-- For every GUID whose fields are in range: the text that ReadGuid prints, in braces or not, with any
-- white space before and behind it, is parsed to that GUID.
pub parse_guid-format_guid :
    (g : Guid) (pre post : Text) (braced : Bool)
    → IsGuid g
    → All IsSpace pre
    → All IsSpace post
    → parse_guid (some (pre ++ (enclose braced (format_guid g) ++ post))) ≡ some g
unfolding parse_guid
parse_guid-format_guid g pre post braced w h k =
    let f = format_guid g in
    let plain = format_guid-Plain g in
    let len = length-format_guid g w in
    let some_text = ne-nil_of_length f len in
    let no_space = enclose-NoSpace braced f (Plain-NoSpace f plain) in
    rw
      (trim_front-append pre (enclose braced f) post h no_space (enclose-ne-nil braced f some_text))
      (rw (trim_back-append (enclose braced f) post no_space k)
        (rw (unbrace-enclose braced f some_text plain) (rw len (read_guid-format_guid g w))))
