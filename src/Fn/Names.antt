-- ===== src/Fn/Names.antt =====
-- `Node::names` of include/MsgFacadeFn.hpp, with the methods of `Cursor` that it calls. An `Error` that is
-- thrown is the failure of an outcome. Whether the loop ends is up to the core, so it runs on fuel.
pub mod Listing
use msg_facade.Prelude.{
  ℕ, zero, suc, true, Option, none, some, List, [], ◌∷◌, leb, if◌then◌else◌, Text,
}
use msg_facade.HResult.{failed}
use msg_facade.CopyOut.{Out}
use msg_facade.Outcome.{Outcome, ok, fail, diverge, ◌>>=◌}
use msg_facade.Route.{Route}
use msg_facade.Core.{Msgcore}
use msg_facade.Store.{Store}
use msg_facade.Cursor.{FacadeCursor, next, is_end}
use msg_facade.Cursor
use msg_facade.Node.Restructure.{open_cursor}
use msg_facade.Com.Strings.{zeros, or_zero}

-- `std::wstring s ( n - 1, L'\0' )` and its units after a call with `&s[0]`: the buffer has a unit more,
-- the terminator of the string, which is not one of them.
unfoldable pub all_but_last : List ℕ → List ℕ
all_but_last [] = []
all_but_last (c ∷ []) = []
all_but_last (c ∷ d ∷ s) = c ∷ all_but_last (d ∷ s)

unfoldable pub units_of : Option (List ℕ) → Text
units_of none = []
units_of (some b) = all_but_last b

-- The second call of `Cursor::name`, with the size that the first one has given.
unfoldable pub fill_string : (Option (List ℕ) → Option ℕ → Out) → ℕ → Outcome Text
fill_string ask n =
    if leb n 1
    then ok []
    else let got = ask (some (zeros n)) (some n) in
      if failed got.hr then fail got.hr else ok (units_of got.buf)

unfoldable pub get_string : (Option (List ℕ) → Option ℕ → Out) → Outcome Text
get_string ask =
    let first = ask none (some 0) in
    if failed first.hr then fail first.hr else fill_string ask (or_zero first.size)

module _ (core : Msgcore) where
  -- `for ( ; !c.end ( ); c.next ( ) ) a.push_back ( c.name ( ) );`, where what `next` answers is not used.
  unfoldable pub collect_names : ℕ → FacadeCursor core → Outcome (List Text)
  collect_names zero f = diverge
  collect_names (suc fuel) f =
      let rest = collect_names fuel (next core f).1 in
      is_end core f true >>= λ end.
      if end
      then ok []
      else (get_string (Cursor.get_name core f) >>= λ name. rest >>= λ names. ok (name ∷ names))

  unfoldable pub names : ℕ → Store core → Route → ℕ → Outcome (List Text)
  names fuel s r scope = open_cursor core s r scope >>= λ f. collect_names fuel f
