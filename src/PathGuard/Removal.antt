-- ===== src/PathGuard/Removal.antt =====
-- What the deletion of a vault may remove: a directory of the vault's name below the vault root, reached
-- without links.
use cryp.Prelude.{
  ◌≡◌, ◌⊎◌, refl, ap, ◌∙◌, subst, length, drop, true, false, ◌&&◌, not, some, List, [], ◌∷◌, ◌++◌,
  Result, ok, or_fail, >>=-elim, or_fail-eq-ok, guard-eq-ok, arith, inl, inr,
}
use cryp.GoText.{Text, text_eq, trim_space}
use cryp.GoPath.{is_rooted, elements, clean, dir, base, up_to_slash}
use cryp.GoPath.Below.{starts_with}
use cryp.PathGuard.{
  FileKind, directory, Entry, missing, unreadable, found, Machine, GuardError, within, is_directory,
  is_symlink, abs,
}
use cryp.PathGuard.Vaults.{
  valid_identity, check_part, no_link_below, reject_symlink_below, check_vault_entry,
  validate_vault_path,
}
use cryp.PathGuard.Inside.{within-starts_with}
use cryp.PathGuard.Reserved.{clean-is_rooted, abs_rooted}
use cryp.PathGuard.Imports.{is_directory_lem}

front_rooted : (path : Text) → is_rooted path ≡ true → is_rooted (up_to_slash path) ≡ true
unfolding is_rooted up_to_slash
front_rooted [] h = h
front_rooted (c ∷ cs) h = ground (arith, h)

check_part-cases :
    (entry : Entry) (later : Result GuardError (Unit {0})) {u : Unit {0}}
    → check_part entry later ≡ ok u
    → (entry ≡ missing)
      ⊎ ((kind : FileKind) × (entry ≡ found kind) × (is_symlink kind ≡ false) × (later ≡ ok u))
unfolding check_part
check_part-cases missing later h = inl refl
check_part-cases unreadable later h = absurd (cc)
check_part-cases (found kind) later h =
    let first = guard-eq-ok (not (is_symlink kind)) _ _ h in
    inr (kind, refl, ground (arith, first.0), first.1)

module _ (os : Machine) where
  -- No link on the way, as far as anything is there.
  abbrev pub NoLinks : Text → List Text → Type 0
  NoLinks current [] = Unit {0}
  NoLinks current (part ∷ parts) =
      (os.lstat (clean (current ++ (47 ∷ part))) ≡ missing)
      ⊎ ((kind : FileKind) × (os.lstat (clean (current ++ (47 ∷ part))) ≡ found kind)
          × (is_symlink kind ≡ false)
          × NoLinks (clean (current ++ (47 ∷ part))) parts)

  no_link_below-NoLinks :
      (current : Text) (parts : List Text) {u : Unit {0}}
      → no_link_below os current parts ≡ ok u
      → NoLinks current parts
  unfolding no_link_below
  no_link_below-NoLinks current [] h = tt
  no_link_below-NoLinks current (part ∷ parts) h =
      let next = clean (current ++ (47 ∷ part)) in
      elim (check_part-cases (os.lstat next) (no_link_below os next parts) h) [
        | inl nothing ↦ inl nothing
        | inr (kind, there, plain, later) ↦
            inr (kind, there, plain, no_link_below-NoLinks next parts later)
      ]

  dir-is_rooted : (path : Text) → is_rooted path ≡ true → is_rooted (dir path) ≡ true
  unfolding dir
  dir-is_rooted path h = clean-is_rooted (up_to_slash path) (front_rooted path h)

  -- What stands at the path, and where it leads.
  pub record IsBelowReal (root_real path : Text) : Type 0 where
    pub real : Text
    pub leads :
        ((os.lstat path ≡ found directory) × (os.eval_symlinks path ≡ some real))
        ⊎ ((os.lstat path ≡ missing) × (os.eval_symlinks (dir path) ≡ some real))
    pub inside : starts_with (elements root_real) (elements real) ≡ true

  checked :
      (root_real path : Text) (entry : Entry) {u : Unit {0}}
      → is_rooted root_real ≡ true
      → is_rooted path ≡ true
      → os.lstat path ≡ entry
      → check_vault_entry os root_real path entry ≡ ok u
      → IsBelowReal root_real path
  unfolding check_vault_entry
  checked root_real path unreadable hr hp at h = absurd (cc)
  checked root_real path (found kind) hr hp at h =
      let first = guard-eq-ok (not (is_symlink kind)) _ _ h in
      let second = guard-eq-ok (is_directory kind) _ _ first.1 in
      >>=-elim (or_fail (os.eval_symlinks path) GuardError.invalid_vault_path) _ second.1
        λ real e h1.
          let link = or_fail-eq-ok (os.eval_symlinks path) _ e in
          let third = guard-eq-ok (within root_real real) _ _ h1 in
          record {
            real = real;
            leads = inl (at ∙ ap found (is_directory_lem kind second.0), link);
            inside =
                within-starts_with root_real real hr (os.eval_rooted path real hp link) third.0;
          }
  checked root_real path missing hr hp at h =
      >>=-elim (or_fail (os.eval_symlinks (dir path)) GuardError.invalid_vault_path) _ h
        λ real e h1.
          let link = or_fail-eq-ok (os.eval_symlinks (dir path)) _ e in
          let first = guard-eq-ok (within root_real real) _ _ h1 in
          record {
            real = real;
            leads = inr (at, link);
            inside =
                within-starts_with root_real real hr
                  (os.eval_rooted (dir path) real (dir-is_rooted path hp) link) first.0;
          }

-- The directory that a deletion may remove.
pub record IsRemovable (os : Machine) (vault_root vault_id path : Text) : Type 0 where
  pub root : Text
  pub root_real : Text
  pub root_at : abs os (trim_space vault_root) ≡ some root
  pub resolves : os.eval_symlinks root ≡ some root_real
  pub below : starts_with (elements root) (elements path) ≡ true
  pub not_root : text_eq path root ≡ false
  pub named : text_eq (base path) (trim_space vault_id) ≡ true
  pub no_links : NoLinks os root (drop (length (elements root)) (elements path))
  pub below_real : IsBelowReal os root_real path

-- A path that ValidateVaultPath accepts is below the vault root, element by element, and not the
-- root, its last name is the trimmed vault id, no element behind the root is a link as far as
-- anything is there, and it is a directory that resolves to a place below the resolved root, or
-- nothing is there and its parent resolves below it.
pub validate_vault_path-IsRemovable :
    (os : Machine) (vault_root vault_id candidate path : Text)
    → validate_vault_path os vault_root vault_id candidate ≡ ok path
    → IsRemovable os vault_root vault_id path
unfolding validate_vault_path reject_symlink_below
validate_vault_path-IsRemovable os vault_root vault_id candidate path h =
    let id = trim_space vault_id in
    let first =
      guard-eq-ok (valid_identity (trim_space vault_root) id (trim_space candidate)) _ _ h in
    >>=-elim (or_fail (abs os (trim_space vault_root)) GuardError.invalid_vault_path) _ first.1
      λ root e1 h1.
        >>=-elim (or_fail (abs os (trim_space candidate)) GuardError.invalid_vault_path) _ h1
          λ p e2 h2.
            let second =
              guard-eq-ok (not (text_eq p root) && within root p && text_eq (base p) id) _ _ h2 in
            >>=-elim (or_fail (os.eval_symlinks root) GuardError.invalid_vault_path) _ second.1
              λ root_real e3 h3. >>=-elim (reject_symlink_below os root p) _ h3 λ u e4 h4.
                >>=-elim (check_vault_entry os root_real p (os.lstat p)) _ h4 λ v e5 h5.
                  let same : p ≡ path = ground (arith, h5) in
                  let root_at = or_fail-eq-ok (abs os (trim_space vault_root)) _ e1 in
                  let p_at = or_fail-eq-ok (abs os (trim_space candidate)) _ e2 in
                  let resolves = or_fail-eq-ok (os.eval_symlinks root) _ e3 in
                  let root_rooted = abs_rooted os (trim_space vault_root) root root_at in
                  let p_rooted = abs_rooted os (trim_space candidate) p p_at in
                  let real_rooted = os.eval_rooted root root_real root_rooted resolves in
                  let safe : IsRemovable os vault_root vault_id p = record {
                    root = root;
                    root_real = root_real;
                    root_at = root_at;
                    resolves = resolves;
                    below =
                        within-starts_with root p root_rooted p_rooted (ground (arith, second.0));
                    not_root = ground (arith, second.0);
                    named = ground (arith, second.0);
                    no_links = no_link_below-NoLinks os root _ e4;
                    below_real = checked os root_real p (os.lstat p) real_rooted p_rooted refl e5;
                  } in
                  subst (IsRemovable os vault_root vault_id) same safe
