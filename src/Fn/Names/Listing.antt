-- ===== src/Fn/Names/Listing.antt =====
-- That the names which `Node::names` collects are those of the elements.
use msg_facade.Prelude.{
  ℕ, zero, suc, ◌+◌, ◌^◌, ◌<◌, ◌≡◌, refl, ap, ◌∙◌, some, List, [], ◌∷◌, ◌++◌, arith, Text, length,
  drop, length-append,
}
use msg_facade.CopyOut.{copy_out, overwrite, needed}
use msg_facade.CopyOut.Protocol.{copy_out-needed}
use msg_facade.Outcome.{ok}
use msg_facade.Core.{Msgcore}
use msg_facade.Route.{Route}
use msg_facade.Store.{Store, open_store}
use msg_facade.Node.Restructure.{open_cursor}
use msg_facade.Cursor.{FacadeCursor}
use msg_facade.Cursor.Moves.{Positions, is_end_lem, get_name_lem, next_moves}
use msg_facade.Com.Strings.{zeros}
use msg_facade.Fn.Names.{all_but_last, units_of, fill_string, get_string, collect_names, names}

length-zeros : (n : ℕ) → length (zeros n) ≡ n
unfolding zeros
length-zeros zero = refl
length-zeros (suc n) = omega (arith, length-zeros n)

drop_all : (n : ℕ) (b : List ℕ) → length b ≡ n → drop n b ≡ []
drop_all zero [] h = refl
drop_all zero (c ∷ b) h = absurd (omega arith)
drop_all (suc n) [] h = absurd (omega arith)
drop_all (suc n) (c ∷ b) h = drop_all n b (omega arith)

all_but_last-snoc : (t : Text) → all_but_last ((t ++ 0 ∷ []) ++ []) ≡ t
unfolding all_but_last
all_but_last-snoc [] = refl
all_but_last-snoc (c ∷ []) = refl
all_but_last-snoc (c ∷ d ∷ t) = ap (λ u. c ∷ u) (all_but_last-snoc (d ∷ t))

overwritten :
    (t : Text) (n : ℕ) → n ≡ length t + 1 → all_but_last (overwrite (t ++ 0 ∷ []) (zeros n)) ≡ t
overwritten t n h =
    let e : drop (length (t ++ 0 ∷ [])) (zeros n) ≡ [] =
      drop_all (length (t ++ 0 ∷ [])) (zeros n)
        (omega (arith, length-zeros n, length-append t (0 ∷ []))) in
    ap (λ r. all_but_last ((t ++ 0 ∷ []) ++ r)) e ∙ all_but_last-snoc t

-- A text shorter than 2^32 - 1 units comes through whole, its zero units included.
pub get_string-copy_out : (t : Text) → length t + 1 < 2 ^ 32 → get_string (copy_out (some t)) ≡ ok t
unfolding get_string fill_string copy_out units_of
get_string-copy_out [] h = refl
get_string-copy_out (c ∷ t) h =
    let whole = overwritten (c ∷ t) (needed (c ∷ t)) (omega arith) in
    rw (copy_out-needed (c ∷ t) (zeros (needed (c ∷ t)))) (ground (arith, whole))

module _ (core : Msgcore) (m : core.Mgr) (p : Positions core m) where
  open p use {size, index}

  -- The names that the core gives as its cursor moves on from where it stands, none too long for a buffer.
  abbrev pub Listing : core.Cursor → List Text → Type 0
  Listing c [] = index c ≡ size c
  Listing c (n ∷ ns) =
      (index c < size c)
      × (core.cursor_name m c ≡ some n)
      × (length n + 1 < 2 ^ 32)
      × Listing (core.advance m c).1 ns

  collect_names_lem :
      (f : FacadeCursor core) (ns : List Text) (fuel : ℕ)
      → open_store core f.store ≡ ok m
      → Listing f.curs ns
      → length ns < fuel
      → (collect_names core fuel f ≡ ok ns) × (index f.curs + length ns ≡ size f.curs)
  unfolding collect_names
  collect_names_lem f ns zero o l k = absurd (omega arith)
  collect_names_lem f [] (suc fuel) o l k = (rw ((is_end_lem core m p f o).1 l) refl, ground arith)
  collect_names_lem f (n ∷ ns) (suc fuel) o (at, name, short, l) k =
      let rest =
        collect_names_lem (record f { curs = (core.advance m f.curs).1 }) ns fuel o l
          (omega arith) in
      let (_, moved, same) = p.advance_is f.curs at in
      (
        rw (next_moves core m p f o at) (
            rw (rest.0) (
              rw ((is_end_lem core m p f o).0 at) (
                rw (get_name_lem core m p f n o at name) (rw (get_string-copy_out n short) refl)))),
        omega (arith, rest.1, moved, same),
      )

  -- `names` of a node of an open store, whose new cursor stands on its first element: with more fuel than
  -- there are names it ends, and gives the names of the elements in their order, each one of less than
  -- 2^32 - 1 units, and as many as the cursor has elements.
  pub names_lem :
      (s : Store core) (r : Route) (scope : ℕ) (f : FacadeCursor core) (ns : List Text) (fuel : ℕ)
      → open_cursor core s r scope ≡ ok f
      → open_store core f.store ≡ ok m
      → index f.curs ≡ 0
      → Listing f.curs ns
      → length ns < fuel
      → (names core fuel s r scope ≡ ok ns) × (length ns ≡ size f.curs)
  unfolding names
  names_lem s r scope f ns fuel made o first l k =
      let (done, all) = collect_names_lem f ns fuel o l k in
      (rw made done, omega (arith, all, first))
