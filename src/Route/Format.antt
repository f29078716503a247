-- ===== src/Route/Format.antt =====
-- The path that FormatRoute prints is parsed to the route that it was printed from.
use msg_facade.Prelude.{
  ℕ, zero, suc, ◌+◌, ◌*◌, ◌≤◌, ◌<◌, ◌≡◌, refl, sym, ap, ◌∙◌, ◌≢◌, ◌⊎◌, Bool, true, false, some, [],
  ◌∷◌, ◌++◌, append_assoc, append-nil, arith, leb, ◌==◌, if◌then◌else◌, Text, length, length-append,
  All,
}
use msg_facade.HResult.{s_ok}
use msg_facade.Route.{
  Step, Route, take_name, scope_of, is_usable_name, parse_loop, parse_route, format_step,
  format_loop, format_route, scope_attr, max_depth, max_name,
}
use msg_facade.Route.Parse.{IsNamed, IsRoute, format_route-append, parse_loop_step}

-- A unit that the path grammar does not use.
abbrev pub IsNameUnit : ℕ → Type 0
IsNameUnit c = (c ≢ b'.') × (c ≢ b'@')

-- The rest of a path behind a name: nothing, or a unit that introduces a step.
abbrev Delimited : Text → Type 0
Delimited [] = Unit
Delimited (c ∷ s) = (c ≡ b'.') ⊎ (c ≡ b'@')

take_name_stop : (s : Text) → Delimited s → take_name s ≡ ([], s)
unfolding take_name
take_name_stop [] d = refl
take_name_stop (c ∷ s) d = ground arith

take_name-name :
    (name s : Text) → All IsNameUnit name → Delimited s → take_name (name ++ s) ≡ (name, s)
unfolding take_name
take_name-name [] s h d = take_name_stop s d
take_name-name (c ∷ name) s (h, hs) d = ground (arith, take_name-name name s hs d)

pub format_route_one : (t : Step) → format_route (t ∷ []) ≡ format_step t
unfolding format_route format_loop
format_route_one t = refl

module _ (valid_itemname : Text → Bool)
    (valid_units : (n : Text) → valid_itemname n ≡ true → All IsNameUnit n) where
  pub usable_units :
      (name : Text) → is_usable_name valid_itemname (some name) ≡ true → All IsNameUnit name
  unfolding is_usable_name
  usable_units [] h = tt
  usable_units (c ∷ s) h = valid_units (c ∷ s) (ground arith)

  -- The unit that introduces a step of a named route.
  unfoldable pub mark : Step → ℕ
  mark t = if t.scope == scope_attr then b'@' else b'.'

  scope_of-mark : (t : Step) → IsNamed valid_itemname t → scope_of (mark t) ≡ some t.scope
  unfolding scope_of mark
  scope_of-mark t n = ground (arith, n.in_scope)

  pub format_step_named : (t : Step) → IsNamed valid_itemname t → format_step t ≡ mark t ∷ t.name
  unfolding format_step mark
  format_step_named t n = ground (arith, n.in_scope)

  format_route-cons :
      (t : Step) (r : Route)
      → IsNamed valid_itemname t
      → format_route (t ∷ r) ≡ mark t ∷ (t.name ++ format_route r)
  format_route-cons t r n =
      format_route-append (t ∷ []) r
      ∙ ap (λ front. front ++ format_route r) (format_route_one t ∙ format_step_named t n)

  format_route-Delimited : (r : Route) → All (IsNamed valid_itemname) r → Delimited (format_route r)
  format_route-Delimited [] h = unfold format_route format_loop in tt
  format_route-Delimited (t ∷ r) (n, h) = rw (format_route-cons t r n) (unfold mark in ground arith)

  parse_loop-format_route :
      (f : ℕ) (r out : Route)
      → All (IsNamed valid_itemname) r
      → length out + length r ≤ max_depth
      → length r < f
      → parse_loop valid_itemname f (format_route r) out
        ≡ some (record { hr = s_ok; out = out ++ r })
  parse_loop-format_route zero r out h d k = absurd (omega arith)
  parse_loop-format_route (suc f) [] out h d k =
      unfold parse_loop format_route format_loop in
      ap (λ o. some (record { hr = s_ok; out = o })) (sym (append-nil out))
  parse_loop-format_route (suc f) (t ∷ r) out (n, h) d k =
      let rest = format_route r in
      let room : leb max_depth (length out) ≡ false = ground arith in
      let same : Path Step (record t { index = 0 }) t =
        ap (λ i. record t { index = i }) (sym n.no_index) in
      let fits : length (out ++ t ∷ []) + length r ≤ max_depth =
        omega (arith, length-append out (t ∷ [])) in
      let name =
        take_name-name t.name rest (usable_units t.name n.usable) (format_route-Delimited r h) in
      rw
        (
          format_route-cons t r n,
          parse_loop_step valid_itemname f (mark t) t.scope (t.name ++ rest) out
              (scope_of-mark t n),
          name,
        )
        (rw (n.usable, room)
          (rw same (
            parse_loop-format_route f r (out ++ t ∷ []) h fits (omega arith)
            ∙ ap (λ o. some (record { hr = s_ok; out = o })) (append_assoc out (t ∷ []) r))))

  length-format_route :
      (r : Route) → All (IsNamed valid_itemname) r → length r ≤ length (format_route r)
  length-format_route [] h = omega arith
  length-format_route (t ∷ r) (n, h) = omega (
    arith,
    ap (λ (s : Text). length s) (format_route-cons t r n),
    length-append t.name (format_route r),
    length-format_route r h,
  )

  length-usable :
      (name : Text) → is_usable_name valid_itemname (some name) ≡ true → length name ≤ max_name
  unfolding is_usable_name
  length-usable [] h = omega arith
  length-usable (c ∷ s) h = ground arith

  -- A path of usable names has at most MAX_NAME + 1 units for each step.
  pub format_route-length :
      (r : Route)
      → All (IsNamed valid_itemname) r
      → length (format_route r) ≤ (max_name + 1) * length r
  format_route-length [] h = unfold format_route format_loop in omega arith
  format_route-length (t ∷ r) (n, h) = omega (
    arith,
    ap (λ (s : Text). length s) (format_route-cons t r n),
    length-append t.name (format_route r),
    length-usable t.name n.usable,
    format_route-length r h,
  )

  -- If the core's validator refuses every name that holds '.' or '@', then for every route of at most
  -- MAX_DEPTH steps, each in a public scope with a usable name, ParseRoute reads the path that
  -- FormatRoute prints back as that route.
  pub parse_route-format_route :
      (r : Route)
      → IsRoute valid_itemname r
      → parse_route valid_itemname (some (format_route r)) ≡ some (record { hr = s_ok; out = r })
  unfolding parse_route
  parse_route-format_route r w =
      parse_loop-format_route (suc (length (format_route r))) r [] w.steps (omega (arith, w.depth))
        (omega (arith, length-format_route r w.steps))
