-- ===== src/Store/Search/Sound.antt =====
-- The route that RouteOfPos finds resolves to an object at the position that was asked for.
use msg_facade.Prelude.{
  ℕ, zero, suc, ◌≤◌, ◌≡◌, refl, ap, ◌∙◌, ◌⊎◌, inl, inr, Bool, true, false, not, Option, none, some,
  List, [], ◌∷◌, arith, ◌==◌, if◌then◌else◌, ==→eq, Bool-cases, Text, length,
}
use mathlib.Core.Option
use msg_facade.HResult.{e_no_pos}
use msg_facade.Outcome.{Outcome, ok, fail, diverge, attempt, guard, ◌>>=◌, >>=-eq-ok, attempt-eq-ok}
use msg_facade.Route.{Step, Route, named, scope_child, scope_attr, scope_elem, max_depth}
use msg_facade.Core.{Msgcore}
use msg_facade.Store.{
  Store, open_store, find_child, resolve_child, resolve_step, resolve_from, resolve_object,
}
use msg_facade.Store.Resolve.{open_store-eq-ok, resolve_object_lem}
use msg_facade.Store.Search.{search_child, search_names, search_pos, collect_names, route_of_pos}

-- What it takes for the search below a child to give a route.
below_cases :
    (field : Option Bool) (below : Outcome (Option Route)) (step : Step) (r : Route)
    → (attempt field >>= λ f.
        if f then (below >>= λ b. ok (Option.map (λ (q : Route). step ∷ q) b)) else ok none)
      ≡ ok (some r)
    → (q : Route) × (field ≡ some true) × (below ≡ ok (some q)) × (r ≡ step ∷ q)
below_cases none below step r h = cc
below_cases (some false) below step r h = cc
below_cases (some true) (fail e) step r h = cc
below_cases (some true) diverge step r h = cc
below_cases (some true) (ok none) step r h = cc
below_cases (some true) (ok (some q)) step r h = (q, refl, refl, cc)

late_cases :
    (below rest : Outcome (Option Route)) (r : Route)
    → (below >>= λ b. elim b [ none ↦ rest | some q ↦ ok (some q) ]) ≡ ok (some r)
    → (below ≡ ok (some r)) ⊎ (rest ≡ ok (some r))
late_cases (fail e) rest r h = cc
late_cases diverge rest r h = cc
late_cases (ok none) rest r h = inr h
late_cases (ok (some q)) rest r h = inl h

top_cases :
    (here : Option ℕ) (found : Outcome (Option Route)) (target : ℕ) (r : Route)
    → (attempt here >>= λ p.
        if p == target
        then ok []
        else found >>= λ f. elim f [ none ↦ fail e_no_pos | some q ↦ ok q ])
      ≡ ok r
    → ((here ≡ some target) × (r ≡ [])) ⊎ (found ≡ ok (some r))
top_cases none found target r h = cc
top_cases (some p) (fail e) target r h = ground (arith, ==→eq p target)
top_cases (some p) diverge target r h = ground (arith, ==→eq p target)
top_cases (some p) (ok none) target r h = ground (arith, ==→eq p target)
top_cases (some p) (ok (some q)) target r h = ground (arith, ==→eq p target)

here_cases :
    (here : Option ℕ) (below : Outcome (Option Route)) (target : ℕ) (step : Step) (r : Route)
    → (attempt here >>= λ p. if p == target then ok (some (step ∷ [])) else below) ≡ ok (some r)
    → ((here ≡ some target) × (r ≡ step ∷ [])) ⊎ (below ≡ ok (some r))
here_cases none below target step r h = cc
here_cases (some p) below target step r h = elim (Bool-cases (p == target)) [
  | inl same ↦ inl (ap some (==→eq p target same), ground arith)
  | inr other ↦ inr (ground arith)
]

module _ (core : Msgcore) (m : core.Mgr) (target : ℕ) where
  open core use {Object, root, is_field, p2pos, goto_name, cursor_object}

  -- The route leads from `parent` to an object at the target, in at most `left` steps.
  pub record Leads (left : ℕ) (parent : Object) (r : Route) : Type 0 where
    pub depth : length r ≤ left
    pub object : Object
    pub resolves : resolve_from core m parent r ≡ ok object
    pub found : p2pos m object ≡ some target

  -- Every route that the search below a field gives leads to the target.
  abbrev IsSearch : ℕ → (Object → Outcome (Option Route)) → Type 0
  IsSearch left deeper =
      (child : Object) (r : Route)
      → is_field m child ≡ some true
      → deeper child ≡ ok (some r)
      → Leads left child r

  -- A child that the search by name finds is the one to which the resolver goes.
  resolve_found :
      (parent child : Object) (scope : ℕ) (name : Text)
      → (scope == scope_elem) ≡ false
      → is_field m parent ≡ some true
      → find_child core m parent scope name ≡ ok (some child)
      → resolve_step core m parent (named scope name) ≡ ok child
  unfolding resolve_step resolve_child
  resolve_found parent child scope name s p f = rw (s, p, f) refl

  Leads-cons :
      (left : ℕ) (parent child : Object) (step : Step) (r : Route)
      → resolve_step core m parent step ≡ ok child
      → Leads left child r
      → Leads (suc left) parent (step ∷ r)
  Leads-cons left parent child step r s w = record {
    depth = omega (arith, w.depth);
    object = w.object;
    resolves = unfold resolve_from in rw s w.resolves;
    found = w.found;
  }

  search_child_sound :
      (left : ℕ) (deeper : Object → Outcome (Option Route)) (parent child : Object) (step : Step)
      (r : Route)
      → IsSearch left deeper
      → resolve_step core m parent step ≡ ok child
      → search_child core deeper m target step child ≡ ok (some r)
      → Leads (suc left) parent r
  unfolding search_child
  search_child_sound left deeper parent child step r d s h =
      elim (here_cases (p2pos m child) _ target step r h) [
        | inl (here, last) ↦ rw last (
            Leads-cons left parent child step [] s (record {
              depth = omega arith;
              object = child;
              resolves = unfold resolve_from in refl;
              found = here;
            }))
        | inr more ↦
            let (q, field, below, e) = below_cases (is_field m child) (deeper child) step r more in
            rw e (Leads-cons left parent child step q s (d child q field below))
      ]

  -- One round of the loop gives a route: from the child of that name, or from the names behind it.
  round_cases :
      (found : Outcome (Option Object)) (look : Object → Outcome (Option Route))
      (rest : Outcome (Option Route)) (r : Route)
      → (found >>= λ f. (elim f [ none ↦ ok none | some child ↦ look child ]) >>= λ b. elim b [
        | none ↦ rest
        | some q ↦ ok (some q)
      ])
        ≡ ok (some r)
      → ((child : Object) × (found ≡ ok (some child)) × (look child ≡ ok (some r)))
        ⊎ (rest ≡ ok (some r))
  round_cases (fail e) look rest r h = cc
  round_cases diverge look rest r h = cc
  round_cases (ok none) look rest r h = inr h
  round_cases (ok (some child)) look rest r h = elim (late_cases (look child) rest r h) [
    | inl e ↦ inl (child, refl, e)
    | inr e ↦ inr e
  ]

  search_names_sound :
      (left : ℕ) (deeper : Object → Outcome (Option Route)) (parent : Object) (scope : ℕ)
      (names : List Text) (r : Route)
      → IsSearch left deeper
      → (scope == scope_elem) ≡ false
      → is_field m parent ≡ some true
      → search_names core deeper m parent target scope names ≡ ok (some r)
      → Leads (suc left) parent r
  unfolding search_names
  search_names_sound left deeper parent scope [] r d s p h = cc
  search_names_sound left deeper parent scope (name ∷ names) r d s p h =
      elim (round_cases (find_child core m parent scope name)
        (search_child core deeper m target (named scope name))
        (search_names core deeper m parent target scope names) r h) [
          | inl (child, found, look) ↦
              search_child_sound left deeper parent child (named scope name) r d
                (resolve_found parent child scope name s p found) look
          | inr rest ↦ search_names_sound left deeper parent scope names r d s p rest
        ]

  -- Whatever depth is left: a route that SearchPos gives leads from the field to the target.
  search_pos_sound : (left fuel : ℕ) → IsSearch left (search_pos core left fuel m target)
  unfolding search_pos
  search_pos_sound zero fuel parent r p h = cc
  search_pos_sound (suc left) fuel parent r p h =
      let deeper = search_pos core left fuel m target in
      let (children, _, h₁) = >>=-eq-ok (collect_names core fuel m parent scope_child) _ h in
      elim (late_cases (search_names core deeper m parent target scope_child children) _ r h₁) [
        | inl e ↦
            search_names_sound left deeper parent scope_child children r
              (search_pos_sound left fuel) refl p e
        | inr e ↦
            let (attrs, _, h₂) = >>=-eq-ok (collect_names core fuel m parent scope_attr) _ e in
            search_names_sound left deeper parent scope_attr attrs r (search_pos_sound left fuel)
              refl p h₂
      ]

-- If the root of the store is a field, as it is for every manager, then whatever route RouteOfPos gives
-- for a position resolves, in the same store, to an object that is at that position.
pub route_of_pos_sound :
    (core : Msgcore) (fuel : ℕ) (s : Store core) (target : ℕ) (r : Route)
    → ((m : core.Mgr) (top : core.Object)
        → s.mgr ≡ some m
        → core.root m ≡ some top
        → core.is_field m top ≡ some true)
    → route_of_pos core fuel s target ≡ ok r
    → (m : core.Mgr) × (object : core.Object) × (s.mgr ≡ some m)
      × (resolve_object core s r ≡ ok object)
      × (core.p2pos m object ≡ some target)
unfolding route_of_pos
route_of_pos_sound core fuel s target r field h =
    let (m, opened, h₁) = >>=-eq-ok (open_store core s) _ h in
    let (_, _, h₂) = >>=-eq-ok (guard (not (target == 0)) e_no_pos) _ h₁ in
    let (top, rooted, h₃) = >>=-eq-ok (attempt (core.root m)) _ h₂ in
    let (_, m_is) = open_store-eq-ok core s m opened in
    let top_is = attempt-eq-ok (core.root m) rooted in
    elim (top_cases (core.p2pos m top) (search_pos core max_depth fuel m target top) target r h₃) [
      | inl (here, nil) ↦ (
        m,
        top,
        m_is,
        rw nil (
            resolve_object_lem core s m top [] opened (omega arith) top_is
            ∙ unfold resolve_from in refl),
        here,
      )
      | inr found ↦
          let w =
            search_pos_sound core m target max_depth fuel top r (field m top m_is top_is) found in
          (
            m,
            w.object,
            m_is,
            resolve_object_lem core s m top r opened w.depth top_is ∙ w.resolves,
            w.found,
          )
    ]
