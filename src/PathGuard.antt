-- ===== src/PathGuard.antt =====
-- internal/pathguard: the paths that an import may read and that the deletion of a vault may remove. The
-- files of the os package are the parameter `Machine`, as they are at the time of a call.
pub mod Inside
pub mod Reserved
pub mod Imports
pub mod Vaults
pub mod Removal
use cryp.Prelude.{
  ◌≡◌, ℕ, ◌==◌, length, Bool, true, false, ◌&&◌, ◌||◌, not, Option, none, some, List, [], ◌∷◌, ◌++◌,
  if◌then◌else◌, Result, ok, err, ◌>>=◌, ◌>>◌, guard, or_fail,
}
use cryp.GoText.{Text, text_eq, trim_space}
use cryp.GoPath.{clean, dir, base, is_dot, is_dot_dot, is_rooted, split_path, is_below}

-- What stands at a path.
pub data FileKind : Type 0 where
  directory symlink other_file : FileKind

-- `os.Lstat`: nothing, an error, or a file.
pub data Entry : Type 0 where
  missing unreadable : Entry
  found : FileKind → Entry

-- `os.Getwd`, `filepath.EvalSymlinks`, `os.Stat` (`none` is an error) and `os.Lstat`. Absolute paths
-- are evaluated to absolute paths, and what EvalSymlinks returns is clean.
pub record Machine : Type 0 where
  pub getwd : Option Text
  pub eval_symlinks : Text → Option Text
  pub stat : Text → Option FileKind
  pub lstat : Text → Entry
  pub eval_rooted :
      (p r : Text) → is_rooted p ≡ true → eval_symlinks p ≡ some r → is_rooted r ≡ true
  pub eval_clean : (p r : Text) → eval_symlinks p ≡ some r → clean r ≡ r
  pub getwd_rooted : (d : Text) → getwd ≡ some d → is_rooted d ≡ true

-- `ErrOutsideRoot` and the others; `unresolved` is any error of the os package.
pub data GuardError : Type 0 where
  outside_root symlink_not_allowed root_delete protected_path : GuardError
  not_directory unresolved empty_root invalid_vault_path : GuardError

-- `Guard`.
pub record Guard : Type 0 where
  pub root : Text
  pub reserved : List Text

-- `within`.
unfoldable pub within : Text → Text → Bool
within root candidate = is_below (clean root) (clean candidate)

-- `(*Guard).isReserved`.
unfoldable pub is_reserved : List Text → Text → Bool
is_reserved [] candidate = false
is_reserved (r ∷ rs) candidate = let rest = is_reserved rs candidate in within r candidate || rest

unfoldable pub is_directory : FileKind → Bool
is_directory directory = true
is_directory _ = false

unfoldable pub is_symlink : FileKind → Bool
is_symlink symlink = true
is_symlink _ = false

module _ (os : Machine) where
  -- `filepath.Abs`.
  unfoldable pub abs : Text → Option Text
  abs path =
      if is_rooted path
      then some (clean path)
      else elim os.getwd [ none ↦ none | some folder ↦ some (clean (folder ++ (47 ∷ path))) ]

  -- The path that a reserved item stands for: its links are evaluated if it is there.
  unfoldable pub real_item : Text → Text
  real_item path = elim (os.eval_symlinks path) [ none ↦ clean path | some real ↦ real ]

  -- The loop of `NewWithReserved`.
  unfoldable pub reserve : Text → List Text → Result GuardError (List Text)
  reserve root_real [] = ok []
  reserve root_real (item ∷ items) =
      if length (trim_space item) == 0
      then reserve root_real items
      else or_fail (abs (trim_space item)) GuardError.unresolved >>= λ path.
          reserve root_real items >>= λ others.
          ok (if within root_real (real_item path) then clean (real_item path) ∷ others else others)

  -- `NewWithReserved`.
  unfoldable pub new_with_reserved : Text → List Text → Result GuardError Guard
  new_with_reserved root reserved = do
    let trimmed = trim_space root
    guard (not (length trimmed == 0)) GuardError.empty_root
    abs_root ← or_fail (abs trimmed) GuardError.unresolved
    kind ← or_fail (os.stat abs_root) GuardError.unresolved
    guard (is_directory kind) GuardError.not_directory
    root_real ← or_fail (os.eval_symlinks abs_root) GuardError.unresolved
    items ← reserve root_real reserved
    ok (record { root = clean abs_root; reserved = items })

  -- The checks that `ResolveDir` and `ValidateEntry` share.
  unfoldable pub check_inside : Guard → Text → Text → Result GuardError Unit
  check_inside g root_real real =
      guard (within root_real real) GuardError.outside_root
      >> guard (not (is_reserved g.reserved real)) GuardError.protected_path

  -- `ResolveDir`.
  unfoldable pub resolve_dir : Guard → Text → Result GuardError Text
  resolve_dir g candidate = do
    abs_candidate ← or_fail (abs candidate) GuardError.unresolved
    root_real ← or_fail (os.eval_symlinks g.root) GuardError.unresolved
    real ← or_fail (os.eval_symlinks abs_candidate) GuardError.unresolved
    inside ← check_inside g root_real real
    kind ← or_fail (os.stat real) GuardError.unresolved
    guard (is_directory kind) GuardError.not_directory
    ok (clean real)

  -- The look at `Lstat` in `ValidateEntry`.
  unfoldable pub check_no_link : Entry → Result GuardError Unit
  check_no_link missing = err GuardError.unresolved
  check_no_link unreadable = err GuardError.unresolved
  check_no_link (found kind) = guard (not (is_symlink kind)) GuardError.symlink_not_allowed >> ok tt

  -- `ValidateEntry`.
  unfoldable pub validate_entry : Guard → Text → Result GuardError Unit
  validate_entry g path = do
    plain ← check_no_link (os.lstat path)
    abs_path ← or_fail (abs path) GuardError.unresolved
    root_real ← or_fail (os.eval_symlinks g.root) GuardError.unresolved
    real ← or_fail (os.eval_symlinks abs_path) GuardError.unresolved
    check_inside g root_real real

  -- `validateTree` on the entries that `filepath.WalkDir` visits, each with its kind.
  unfoldable pub validate_tree : Guard → List (Text × FileKind) → Result GuardError Unit
  validate_tree g [] = ok tt
  validate_tree g ((path, kind) ∷ entries) =
      guard (not (is_symlink kind)) GuardError.symlink_not_allowed
      >> (validate_entry g path >>= λ valid. validate_tree g entries)

  -- `ValidateImport`; `walk` is what `filepath.WalkDir` visits below a directory, or nothing if it fails.
  unfoldable pub validate_import :
      Guard → (Text → Option (List (Text × FileKind))) → Text → Bool → Result GuardError Text
  validate_import g walk candidate delete_source = do
    real ← resolve_dir g candidate
    root_real ← or_fail (os.eval_symlinks g.root) GuardError.unresolved
    guard (not (delete_source && text_eq (clean real) (clean root_real))) GuardError.root_delete
    entries ← or_fail (walk real) GuardError.unresolved
    valid ← validate_tree g entries
    ok real
