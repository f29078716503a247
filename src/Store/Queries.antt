-- ===== src/Store/Queries.antt =====
-- What a store tells of itself: GetFilename, GetRootname, IsDirty, SetDirty, GetSize and IsValid of
-- src/FacadeStore.cpp.
use msg_facade.Prelude.{ℕ, ◌%◌, ◌^◌, Bool, false, Option, none, some, List}
use msg_facade.HResult.{e_pointer}
use msg_facade.CopyOut.{Out, copy_out, answer}
use msg_facade.Outcome.{Outcome, ok, attempt, guard, ◌>>=◌, ◌>>◌}
use msg_facade.Core.{Msgcore}
use msg_facade.Store.{Store, open_store}
use msg_facade.Store.Life.{in_store, with_mgr}

module _ (core : Msgcore) where
  open core use {root_name, is_dirty, set_dirty, size_of_mgr, mgr_valid}

  unfoldable pub get_filename : Store core → Option (List ℕ) → Option ℕ → Out
  get_filename s buf cch =
      answer buf cch (open_store core s >>= λ m. ok (copy_out (some s.file) buf cch))

  unfoldable pub get_rootname : Store core → Option (List ℕ) → Option ℕ → Out
  get_rootname s buf cch = answer buf cch (
      open_store core s >>= λ m.
      attempt (root_name m) >>= λ name. ok (copy_out (some name) buf cch))

  unfoldable pub get_dirty : Store core → Bool → Outcome Bool
  get_dirty s out = do m ← open_store core s; guard out e_pointer; attempt (is_dirty m)

  unfoldable pub put_dirty : Bool → Store core → Outcome (Unit {0}) × Store core
  put_dirty dirty =
      in_store core λ m s. let (done, m') = set_dirty dirty m in (attempt done, with_mgr core s m')

  unfoldable pub get_size : Store core → Bool → Outcome ℕ
  get_size s out = do
    m ← open_store core s
    guard out e_pointer
    n ← attempt (size_of_mgr m)
    ok (n % 2 ^ 32)

  -- A raise of the core is the answer "not valid".
  unfoldable pub get_valid : Store core → Bool → Outcome Bool
  get_valid s out = do
    m ← open_store core s
    guard out e_pointer
    elim (mgr_valid m) [ none ↦ ok false | some valid ↦ ok valid ]
