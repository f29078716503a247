-- ===== src/Store/Resolve.antt =====
-- Laws of the route resolver.
use msg_facade.Prelude.{
  ℕ, ◌≤◌, ◌≡◌, refl, sym, ap, ◌∙◌, Bool, true, false, Option, none, some, [], ◌∷◌, ◌++◌, arith, leb,
  if◌then◌else◌, leb→le, le→leb, Text, length, length-append,
}
use mathlib.Core.Path.{fun_ext, subst}
use msg_facade.HResult.{e_depth, e_type}
use msg_facade.Outcome.{
  Outcome, ok, fail, diverge, ◌>>=◌, >>=-eq-ok, guard-eq-ok, attempt-eq-ok, attempt, guard,
}
use msg_facade.Route.{Route, max_depth, Step}
use msg_facade.Core.{Msgcore}
use msg_facade.Store.{
  Store, open_store, resolve_step, resolve_from, resolve_object, resolve_child, scope_cursor,
  find_child,
}

>>=_assoc :
    {A B C : Type 0} (m : Outcome A) (f : A → Outcome B) (g : B → Outcome C)
    → (m >>= f >>= g) ≡ (m >>= λ a. f a >>= g)
>>=_assoc (ok a) f g = refl
>>=_assoc (fail e) f g = refl
>>=_assoc diverge f g = refl

module _ (core : Msgcore) where
  open core use {Mgr, Object, root, is_field}

  -- Resolving a route in two parts: the second part goes on from the object that the first one names,
  -- and a failure of the first part is the failure of the whole.
  pub resolve_from-append :
      (m : Mgr) (cur : Object) (r q : Route)
      → resolve_from core m cur (r ++ q)
        ≡ (resolve_from core m cur r >>= λ next. resolve_from core m next q)
  unfolding resolve_from
  resolve_from-append m cur [] q = refl
  resolve_from-append m cur (t ∷ r) q =
      let first = resolve_step core m cur t in
      ap (λ (k : Object → Outcome Object). first >>= k)
        (fun_ext λ next. resolve_from-append m next r q)
      ∙ sym (
          >>=_assoc first (λ next. resolve_from core m next r) (λ next. resolve_from core m next q))

  pub open_store-eq-ok :
      (s : Store core) (m : Mgr) → open_store core s ≡ ok m → (s.closed ≡ false) × (s.mgr ≡ some m)
  unfolding open_store
  open_store-eq-ok s m h = (ground arith, ground arith)

  -- What resolving does in an open store, for a route within MAX_DEPTH.
  pub resolve_object_lem :
      (s : Store core) (m : Mgr) (top : Object) (r : Route)
      → open_store core s ≡ ok m
      → length r ≤ max_depth
      → root m ≡ some top
      → resolve_object core s r ≡ resolve_from core m top r
  unfolding resolve_object
  resolve_object_lem s m top r opened depth rooted =
      rw (opened, le→leb (length r) 64 depth, rooted) refl

  -- Where a route resolves, so does the route of each node above it.
  pub resolve_object-prefix :
      (s : Store core) (r q : Route) (o : Object)
      → resolve_object core s (r ++ q) ≡ ok o
      → (p : Object) × (resolve_object core s r ≡ ok p)
  unfolding resolve_object
  resolve_object-prefix s r q o h =
      let (m, opened, h₁) = >>=-eq-ok (open_store core s) _ h in
      let (_, short, h₂) = >>=-eq-ok (guard (leb (length (r ++ q)) max_depth) e_depth) _ h₁ in
      let (top, found, h₃) = >>=-eq-ok (attempt (root m)) _ h₂ in
      let (p, there, _) =
        >>=-eq-ok (resolve_from core m top r) _ (sym (resolve_from-append m top r q) ∙ h₃) in
      let fits = leb→le _ _ (guard-eq-ok _ e_depth short) in
      (
        p,
        resolve_object_lem s m top r opened (omega (arith, fits, length-append r q))
              (attempt-eq-ok (root m) found)
            ∙ there,
      )

  -- Where a route resolves, its last step goes from the object above it.
  pub resolve_object-last :
      (s : Store core) (m : Mgr) (r : Route) (t : Step) (o : Object)
      → open_store core s ≡ ok m
      → resolve_object core s (r ++ t ∷ []) ≡ ok o
      → (p : Object) × (resolve_object core s r ≡ ok p) × (resolve_step core m p t ≡ ok o)
  unfolding resolve_object resolve_from
  resolve_object-last s m r t o opened h =
      let (_, short, h₂) = >>=-eq-ok (guard (leb (length (r ++ t ∷ [])) max_depth) e_depth) _ (
        subst
          (λ (first : Outcome Mgr).
            (first >>= λ n. guard (leb (length (r ++ t ∷ [])) max_depth) e_depth >>= λ _.
            attempt (root n) >>= λ top. resolve_from core n top (r ++ t ∷ []))
            ≡ ok o)
          opened h) in
      let (top, found, h₃) = >>=-eq-ok (attempt (root m)) _ h₂ in
      let (p, there, h₄) =
        >>=-eq-ok (resolve_from core m top r) _ (sym (resolve_from-append m top r (t ∷ [])) ∙ h₃) in
      let (next, step, same) = >>=-eq-ok (resolve_step core m p t) _ h₄ in
      let fits = leb→le _ _ (guard-eq-ok _ e_depth short) in
      (
        p,
        resolve_object_lem s m top r opened (omega (arith, fits, length-append r (t ∷ [])))
              (attempt-eq-ok (root m) found)
            ∙ there,
        step ∙ same,
      )

  -- The cursor that has found a child.
  pub record IsChild (m : Mgr) (p : Object) (scope : ℕ) (name : Text) (o : Object) : Type 0 where
    pub field : is_field m p ≡ some true
    pub curs : core.Cursor
    pub seated : scope_cursor core m p scope ≡ some curs
    pub hit : (core.goto_name m curs name).0 ≡ some true
    pub there : core.cursor_object m (core.goto_name m curs name).1 ≡ some o

  taken : (m : Mgr) (d : core.Cursor) → Bool → Outcome (Option Object)
  taken m d hit =
      if hit then (attempt (core.cursor_object m d) >>= λ object. ok (some object)) else ok none

  taken-eq-ok :
      (m : Mgr) (d : core.Cursor) (hit : Bool) (o : Object)
      → taken m d hit ≡ ok (some o)
      → (hit ≡ true) × (core.cursor_object m d ≡ some o)
  unfolding taken
  taken-eq-ok m d hit o h = ground arith

  find_child-eq-ok :
      (m : Mgr) (p : Object) (scope : ℕ) (name : Text) (o : Object)
      → find_child core m p scope name ≡ ok (some o)
      → (c : core.Cursor) × (scope_cursor core m p scope ≡ some c)
        × ((core.goto_name m c name).0 ≡ some true)
        × (core.cursor_object m (core.goto_name m c name).1 ≡ some o)
  unfolding find_child taken
  find_child-eq-ok m p scope name o h =
      let (c, seated, h₁) = >>=-eq-ok (attempt (scope_cursor core m p scope)) _ h in
      let (hit, moved, h₂) = >>=-eq-ok (attempt (core.goto_name m c name).0) _ h₁ in
      let (true_hit, there) = taken-eq-ok m (core.goto_name m c name).1 hit o h₂ in
      (c, attempt-eq-ok _ seated, attempt-eq-ok _ moved ∙ ap some true_hit, there)

  pub resolve_child-eq-ok :
      (m : Mgr) (p : Object) (scope : ℕ) (name : Text) (o : Object)
      → resolve_child core m p scope name ≡ ok o
      → IsChild m p scope name o
  unfolding resolve_child
  resolve_child-eq-ok m p scope name o h =
      let (field, is, h₁) = >>=-eq-ok (attempt (is_field m p)) _ h in
      let (_, passes, h₂) = >>=-eq-ok (guard field e_type) _ h₁ in
      let (found, look, h₃) = >>=-eq-ok (find_child core m p scope name) _ h₂ in
      let e : found ≡ some o = ground arith in
      let (c, seated, hit, there) = find_child-eq-ok m p scope name o (look ∙ ap ok e) in
      record {
        field = attempt-eq-ok _ is ∙ ap some (guard-eq-ok _ e_type passes);
        curs = c;
        seated = seated;
        hit = hit;
        there = there;
      }
