-- ===== src/Com/Walk.antt =====
-- `CMsgRecurs` of com/ComWalk.cpp: a walk of the facade, and the names on the way to where it stands, from
-- which the path of the stop is put together.
pub mod Paths
use msg_facade.Prelude.{
  ℕ, zero, suc, Bool, true, not, Option, none, some, List, [], ◌∷◌, ◌++◌, leb, ◌==◌, if◌then◌else◌,
  Text,
}
use msg_facade.HResult.{HResult, s_ok, failed, e_pointer, e_type, e_range}
use msg_facade.CopyOut.{Out}
use msg_facade.Outcome.{Outcome, ok, fail, diverge, ◌>>=◌}
use msg_facade.Route.{Route}
use msg_facade.Core.{Msgcore}
use msg_facade.Store.{Store, open_store}
use msg_facade.Store.Tree.{node_from_path}
use msg_facade.Cursor.{Kind}
use msg_facade.Walker
use msg_facade.Walker.{FacadeWalker}
use msg_facade.Node.{get_path}
use msg_facade.Node.Restructure.{open_walker}
use msg_facade.Com.{Answer, answered, raised, unending, converted}
use msg_facade.Com.Codes.{code, from_facade, c_closed, c_no_field, c_range}
use msg_facade.Com.Strings.{zeros, or_zero, string_at, read_string}
use msg_facade.Com.Kinds.{kind_is}

-- `m_ancestry.resize ( n )`: new entries are empty names.
unfoldable pub resize : ℕ → List Text → List Text
resize zero names = []
resize (suc n) [] = [] ∷ resize n []
resize (suc n) (name ∷ names) = name ∷ resize n names

-- `s += L'.'; s += m_ancestry[i];`
unfoldable pub join : List Text → Text
join [] = []
join (name ∷ names) = b'.' ∷ (name ++ join names)

module _ (core : Msgcore) where
  -- `held`: the CMsgStore still has its store, which is that of the walk.
  pub record MsgRecurs : Type 0 where
    pub held : Bool
    pub walk : FacadeWalker core
    pub root_path : Text
    pub ancestry : List Text

  -- The name of the stop, by two calls of GetName: `none` where Track gives up.
  unfoldable pub stop_name : FacadeWalker core → Option Text
  stop_name w =
      let first = Walker.get_name core w none (some 0) in
      let n = or_zero first.size in
      if failed first.hr
      then none
      else if leb n 1
      then none
      else let got = Walker.get_name core w (some (zeros n)) (some n) in
        if failed got.hr then none else some (string_at got.buf)

  -- `m_ancestry.resize ( nDepth ); m_ancestry.push_back ( … );`
  tracked : MsgRecurs → Option Text → MsgRecurs
  tracked r none = r
  tracked r (some name) = record r {
    ancestry = resize (Walker.depth core r.walk) r.ancestry ++ name ∷ [];
  }

  -- `Track`: at the end of the walk, and where a call of the walker fails, the last stop stays.
  unfoldable pub track : MsgRecurs → MsgRecurs
  unfolding tracked
  track r = elim (Walker.is_end core r.walk true) [
    | ok end ↦ if end then r else tracked r (stop_name r.walk)
    | fail e ↦ r
    | diverge ↦ r
  ]

  started : Store core → Route → Outcome MsgRecurs
  started s root = do
    path ← read_string (get_path core s root)
    w ← open_walker core s root 0
    ok (track (record { held = true; walk = w; root_path = path; ancestry = [] }))

  unfoldable pub make : Store core → Route → Bool → Answer MsgRecurs
  unfolding started
  make s root out = if not out then raised (code e_pointer) else converted (started s root)

  -- `Bind`, then the rest of the method.
  on_walk : {A : Type 0} → (MsgRecurs → Answer A × MsgRecurs) → MsgRecurs → Answer A × MsgRecurs
  on_walk body r = if r.held then body r else (raised c_closed, r)

  -- A move of the walk, and what is done after it has succeeded.
  moved :
      {A : Type 0}
      → (MsgRecurs → A × MsgRecurs)
      → MsgRecurs
      → Outcome HResult × FacadeWalker core
      → Answer A × MsgRecurs
  moved after r (ok hr, w) = let (a, r') = after (record r { walk = w }) in (answered a, r')
  moved after r (fail e, w) = (raised (from_facade (code e)), record r { walk = w })
  moved after r (diverge, w) = (unending, record r { walk = w })

  unfoldable pub move_next : MsgRecurs → Answer (Unit {0}) × MsgRecurs
  unfolding on_walk moved
  move_next = on_walk λ r. moved (λ q. (tt, track q)) r (Walker.next core r.walk)

  -- The depth that Push reports. What cannot be descended into is no failure.
  pushed : MsgRecurs → Outcome HResult × FacadeWalker core → Answer ℕ × MsgRecurs
  unfolding moved
  pushed r (fail e, w) =
      if code e == code e_type
      then (answered (Walker.depth core w), record r { walk = w })
      else (raised (from_facade (code e)), record r { walk = w })
  pushed r step = moved (λ q. (Walker.depth core q.walk, q)) r step

  unfoldable pub push : MsgRecurs → Answer ℕ × MsgRecurs
  unfolding on_walk pushed
  push = on_walk λ r. pushed r (Walker.push core r.walk)

  unfoldable pub pop : MsgRecurs → Answer ℕ × MsgRecurs
  unfolding on_walk moved
  pop = on_walk λ r. moved (λ q. (Walker.depth core q.walk, track q)) r (Walker.pop core r.walk)

  unfoldable pub break : MsgRecurs → Answer (Unit {0}) × MsgRecurs
  unfolding on_walk moved
  break = on_walk λ r. moved (λ q. (tt, track q)) r (Walker.break core r.walk)

  read_walk : {A : Type 0} → (MsgRecurs → Answer A) → MsgRecurs → Answer A
  read_walk body r = if r.held then body r else raised c_closed

  unfoldable pub at_end : MsgRecurs → Answer Bool
  unfolding read_walk
  at_end = read_walk λ r. converted (Walker.is_end core r.walk true)

  unfoldable pub get_name : MsgRecurs → Answer Text
  unfolding read_walk
  get_name = read_walk λ r. converted (read_string (Walker.get_name core r.walk))

  unfoldable pub get_depth : MsgRecurs → Answer ℕ
  unfolding read_walk
  get_depth =
      read_walk λ r. converted (open_store core r.walk.store >>= λ m. ok (Walker.depth core r.walk))

  -- IsField, IsList and IsVect, by the kind that they want.
  unfoldable pub is_kind : Kind → MsgRecurs → Answer Bool
  unfolding read_walk
  is_kind want =
      read_walk λ r. converted (Walker.get_kind core r.walk true >>= λ kind. ok (kind_is want kind))

  unfoldable pub current_path : MsgRecurs → Answer Text
  current_path r = elim r.ancestry [
    | [] ↦ raised c_no_field
    | name ∷ names ↦ answered (r.root_path ++ join (name ∷ names))
  ]

  unfoldable pub get_path_of_stop : MsgRecurs → Answer Text
  unfolding read_walk
  get_path_of_stop = read_walk current_path

  -- The node of the field that get_Field makes.
  unfoldable pub node_of_stop : MsgRecurs → Answer Route
  node_of_stop r = elim (current_path r) [
    | answered path ↦ converted (node_from_path core r.walk.store (some path) true)
    | raised hr ↦ raised hr
    | unending ↦ unending
  ]

  unfoldable pub get_field : MsgRecurs → Answer Route
  unfolding read_walk
  get_field = read_walk node_of_stop
