-- ===== src/PathGuard/Vaults.antt =====
-- internal/pathguard/vault.go: the directory of a vault that may be deleted.
use cryp.Prelude.{
  ◌==◌, length, drop, Bool, false, ◌&&◌, ◌||◌, not, List, [], ◌∷◌, ◌++◌, Result, ok, err, ◌>>=◌,
  ◌>>◌, guard, or_fail,
}
use cryp.GoText.{Text, text_eq, trim_space}
use cryp.GoPath.{clean, dir, base, elements, is_dot, is_dot_dot}
use cryp.PathGuard.{
  Entry, missing, unreadable, found, Machine, GuardError, within, is_directory, is_symlink, abs,
}

-- `strings.ContainsRune(s, 0)`.
unfoldable pub has_nul : Text → Bool
has_nul [] = false
has_nul (c ∷ cs) = let rest = has_nul cs in (c == 0) || rest

-- The first check of `ValidateVaultPath`, on the trimmed arguments.
unfoldable pub valid_identity : Text → Text → Text → Bool
valid_identity root id candidate =
    not (length root == 0)
    && not (length candidate == 0)
    && not (length id == 0)
    && text_eq (base id) id
    && not (is_dot id)
    && not (is_dot_dot id)
    && not (has_nul id)

-- The look at one element of the path, with what the later ones come to.
unfoldable pub check_part : Entry → Result GuardError Unit → Result GuardError Unit
check_part missing later = ok tt
check_part unreadable later = err GuardError.invalid_vault_path
check_part (found kind) later = guard (not (is_symlink kind)) GuardError.invalid_vault_path >> later

module _ (os : Machine) where
  -- The loop of `rejectSymlinkBelow`.
  unfoldable pub no_link_below : Text → List Text → Result GuardError Unit
  no_link_below current [] = ok tt
  no_link_below current (part ∷ parts) =
      let next = clean (current ++ (47 ∷ part)) in
      check_part (os.lstat next) (no_link_below next parts)

  -- `rejectSymlinkBelow`; the relative path of a path below the root is split into the elements behind
  -- those of the root.
  unfoldable pub reject_symlink_below : Text → Text → Result GuardError Unit
  reject_symlink_below root path =
      no_link_below root (drop (length (elements root)) (elements path))

  -- The look at what stands at the path, or at its parent if nothing does.
  unfoldable pub check_vault_entry : Text → Text → Entry → Result GuardError Unit
  check_vault_entry root_real path unreadable = err GuardError.invalid_vault_path
  check_vault_entry root_real path (found kind) = do
    guard (not (is_symlink kind)) GuardError.invalid_vault_path
    guard (is_directory kind) GuardError.invalid_vault_path
    real ← or_fail (os.eval_symlinks path) GuardError.invalid_vault_path
    guard (within root_real real) GuardError.invalid_vault_path
    ok tt
  check_vault_entry root_real path missing = do
    parent ← or_fail (os.eval_symlinks (dir path)) GuardError.invalid_vault_path
    guard (within root_real parent) GuardError.invalid_vault_path
    ok tt

  -- `ValidateVaultPath`.
  unfoldable pub validate_vault_path : Text → Text → Text → Result GuardError Text
  validate_vault_path vault_root vault_id candidate = do
    let id = trim_space vault_id
    guard (valid_identity (trim_space vault_root) id (trim_space candidate))
        GuardError.invalid_vault_path
    root ← or_fail (abs os (trim_space vault_root)) GuardError.invalid_vault_path
    path ← or_fail (abs os (trim_space candidate)) GuardError.invalid_vault_path
    guard (not (text_eq path root) && within root path && text_eq (base path) id)
        GuardError.invalid_vault_path
    root_real ← or_fail (os.eval_symlinks root) GuardError.invalid_vault_path
    plain ← reject_symlink_below root path
    checked ← check_vault_entry root_real path (os.lstat path)
    ok path
