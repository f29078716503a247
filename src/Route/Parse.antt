-- ===== src/Route/Parse.antt =====
-- What ParseRoute accepts, and that it ends.
use msg_facade.Prelude.{
  ℕ, zero, suc, ◌≤◌, ◌<◌, ◌≡◌, refl, sym, ap, ◌∙◌, ◌≢◌, ◌⊎◌, inl, inr, Bool, true, false, not,
  Option, none, some, [], ◌∷◌, ◌++◌, append_assoc, append-nil, arith, leb, if◌then◌else◌,
  Option-cases, Text, length, length-append, All, All-append,
}
use msg_facade.HResult.{s_ok, e_path, e_depth}
use msg_facade.Route.{
  Step, Route, named, Parsed, take_name, scope_of, is_usable_name, parse_loop, parse_route,
  format_step, format_loop, format_route, scope_child, scope_attr, max_depth,
}

length-take_name : (s : Text) → length (take_name s).1 ≤ length s
unfolding take_name
length-take_name [] = omega arith
length-take_name (c ∷ s) = ground (arith, length-take_name s)

take_name-append : (s : Text) → (take_name s).0 ++ (take_name s).1 ≡ s
unfolding take_name
take_name-append [] = refl
take_name-append (c ∷ s) = ground (arith, take_name-append s)

format_loop-append : (r : Route) (out : Text) → format_loop r out ≡ out ++ format_route r
unfolding format_loop format_route
format_loop-append [] out = sym (append-nil out)
format_loop-append (t ∷ r) out = simp (
  format_loop-append r (out ++ format_step t),
  format_loop-append r (format_step t),
  append_assoc,
)

pub format_route-append : (r q : Route) → format_route (r ++ q) ≡ format_route r ++ format_route q
unfolding format_route format_loop
format_route-append [] q = refl
format_route-append (t ∷ r) q =
    simp (format_loop-append (r ++ q) (format_step t), format_loop-append r (format_step t))
      (rw (format_route-append r q)
        (sym (append_assoc (format_step t) (format_route r) (format_route q))))

module _ (valid_itemname : Text → Bool) where
  -- A step that a path can name: a public scope, a usable name, and no index.
  pub record IsNamed (t : Step) : Type 0 where
    pub in_scope : (t.scope ≡ scope_child) ⊎ (t.scope ≡ scope_attr)
    pub usable : is_usable_name valid_itemname (some t.name) ≡ true
    pub no_index : t.index ≡ 0

  -- A route that a node can have.
  pub record IsRoute (r : Route) : Type 0 where
    pub steps : All IsNamed r
    pub depth : length r ≤ max_depth

  parse_loop_bad :
      (f c : ℕ) (s : Text) (out : Route)
      → scope_of c ≡ none
      → parse_loop valid_itemname (suc f) (c ∷ s) out ≡ some (record { hr = e_path; out = out })
  unfolding parse_loop
  parse_loop_bad f c s out e = rw (e, parse_loop) refl

  pub parse_loop_step :
      (f c scope : ℕ) (s : Text) (out : Route)
      → scope_of c ≡ some scope
      → parse_loop valid_itemname (suc f) (c ∷ s) out ≡ (
          if not (is_usable_name valid_itemname (some (take_name s).0))
          then some (record { hr = e_path; out = out })
          else if leb max_depth (length out)
          then some (record { hr = e_depth; out = out })
          else parse_loop valid_itemname f
              (take_name s).1
              (out ++ named scope (take_name s).0 ∷ []))
  unfolding parse_loop
  parse_loop_step f c scope s out e = rw (e, parse_loop) refl

  -- Two amounts of fuel above the length of the text give the same result.
  pub parse_loop_enough :
      (f g : ℕ) (s : Text) (out : Route)
      → length s < f
      → length s < g
      → parse_loop valid_itemname f s out ≡ parse_loop valid_itemname g s out
  parse_loop_enough zero g s out h k = absurd (omega arith)
  parse_loop_enough (suc f) zero s out h k = absurd (omega arith)
  parse_loop_enough (suc f) (suc g) [] out h k = unfold parse_loop in refl
  parse_loop_enough (suc f) (suc g) (c ∷ s) out h k = elim (Option-cases (scope_of c)) [
    | inl bad ↦ parse_loop_bad f c s out bad ∙ sym (parse_loop_bad g c s out bad)
    | inr (scope, e) ↦
        rw
          (
            parse_loop_step f c scope s out e,
            parse_loop_step g c scope s out e,
            parse_loop_enough f g (take_name s).1 (out ++ named scope (take_name s).0 ∷ [])
                (omega (arith, length-take_name s)) (omega (arith, length-take_name s)),
          )
          refl
  ]

  parse_loop_total :
      (f : ℕ) (s : Text) (out : Route) → length s < f → parse_loop valid_itemname f s out ≢ none
  parse_loop_total zero s out h = absurd (omega arith)
  parse_loop_total (suc f) [] out h = unfold parse_loop in λ e. cc
  parse_loop_total (suc f) (c ∷ s) out h = elim (Option-cases (scope_of c)) [
    | inl bad ↦ rw (parse_loop_bad f c s out bad) (λ e. cc)
    | inr (scope, e) ↦ ground (
      arith,
      parse_loop_step f c scope s out e,
      parse_loop_total f (take_name s).1 (out ++ named scope (take_name s).0 ∷ [])
          (omega (arith, length-take_name s)),
    )
  ]

  -- ParseRoute always answers: its loop ends within the fuel.
  pub parse_route-ne-none : (path : Option Text) → parse_route valid_itemname path ≢ none
  unfolding parse_route
  parse_route-ne-none none = λ e. cc
  parse_route-ne-none (some s) = parse_loop_total (suc (length s)) s [] (omega arith)

  pub IsRoute-snoc :
      (out : Route) (t : Step)
      → IsRoute out
      → IsNamed t
      → leb max_depth (length out) ≡ false
      → IsRoute (out ++ t ∷ [])
  IsRoute-snoc out t w n d = record {
    steps = All-append IsNamed out (t ∷ []) w.steps (n, tt);
    depth = ground (arith, length-append out (t ∷ []));
  }

  scope_of-named :
      (c scope : ℕ)
      → scope_of c ≡ some scope
      → ((scope ≡ scope_child) × (c ≡ b'.')) ⊎ ((scope ≡ scope_attr) × (c ≡ b'@'))
  unfolding scope_of
  scope_of-named c scope e = ground arith

  format_named :
      (c scope : ℕ) (name : Text)
      → scope_of c ≡ some scope
      → format_route (named scope name ∷ []) ≡ c ∷ name
  unfolding format_route format_loop format_step
  format_named c scope name e = elim (scope_of-named c scope e) [
    | inl (child, dot) ↦ rw (child, dot) refl
    | inr (attr, at) ↦ rw (attr, at) refl
  ]

  scope_of-IsNamed :
      (c scope : ℕ) (name : Text)
      → scope_of c ≡ some scope
      → not (is_usable_name valid_itemname (some name)) ≡ false
      → IsNamed (named scope name)
  scope_of-IsNamed c scope name e u = record {
    in_scope = elim (scope_of-named c scope e) [ inl p ↦ inl p.0 | inr p ↦ inr p.0 ];
    usable = ground arith;
    no_index = refl;
  }

  accepted : Route → Option Parsed
  accepted r = some (record { hr = s_ok; out = r })

  -- A round that ends in success was not stopped, and goes on behind the step that it added.
  parse_loop_continue :
      (f c scope : ℕ) (s : Text) (out r : Route)
      → scope_of c ≡ some scope
      → parse_loop valid_itemname (suc f) (c ∷ s) out ≡ accepted r
      → (not (is_usable_name valid_itemname (some (take_name s).0)) ≡ false)
        × (leb max_depth (length out) ≡ false)
        × (parse_loop valid_itemname f (take_name s).1 (out ++ named scope (take_name s).0 ∷ [])
            ≡ accepted r)
  unfolding accepted
  parse_loop_continue f c scope s out r known e =
      ground (arith, parse_loop_step f c scope s out known)

  parse_loop_sound :
      (f : ℕ) (s : Text) (out r : Route)
      → IsRoute out
      → parse_loop valid_itemname f s out ≡ accepted r
      → IsRoute r × (format_route r ≡ format_route out ++ s)
  unfolding accepted
  parse_loop_sound zero s out r w e = unfold parse_loop in cc
  parse_loop_sound (suc f) [] out r w e =
      let same : out ≡ r = unfold parse_loop in cc in
      rw (← same) (w, sym (append-nil (format_route out)))
  parse_loop_sound (suc f) (c ∷ s) out r w e = elim (Option-cases (scope_of c)) [
    | inl bad ↦ cc (parse_loop_bad f c s out bad)
    | inr (scope, known) ↦
        let (usable, room, rest) = parse_loop_continue f c scope s out r known e in
        let t = named scope (take_name s).0 in
        let (route, text) =
          parse_loop_sound f (take_name s).1 (out ++ t ∷ []) r
            (IsRoute-snoc out t w (scope_of-IsNamed c scope (take_name s).0 known usable) room)
            rest in
        (
          route,
          text
              ∙ ap (λ front. front ++ (take_name s).1) (format_route-append out (t ∷ []))
              ∙ ap (λ step. (format_route out ++ step) ++ (take_name s).1)
                  (format_named c scope (take_name s).0 known)
              ∙ append_assoc (format_route out) (c ∷ (take_name s).0) (take_name s).1
              ∙ ap (λ rest. format_route out ++ c ∷ rest) (take_name-append s),
        )
  ]

  -- If ParseRoute accepts a path, then the route has at most MAX_DEPTH steps, each in a public scope
  -- with a usable name, and FormatRoute prints it as that path.
  pub format_route-parse_route :
      (s : Text) (r : Route)
      → parse_route valid_itemname (some s) ≡ some (record { hr = s_ok; out = r })
      → IsRoute r × (format_route r ≡ s)
  unfolding parse_route accepted
  format_route-parse_route s r e =
      let (route, text) =
        parse_loop_sound (suc (length s)) s [] r (record { steps = tt; depth = omega arith }) e in
      (route, text ∙ unfold format_route format_loop in refl)
