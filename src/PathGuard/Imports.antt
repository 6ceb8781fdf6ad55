-- ===== src/PathGuard/Imports.antt =====
-- What an import may read: a directory below the source root, without links in it.
use cryp.Prelude.{
  ◌≡◌, refl, sym, ap, ◌∙◌, subst, length, ◌==◌, Bool, true, false, ◌&&◌, not, Option, some, List,
  [], ◌∷◌, All, ok, guard, or_fail, >>=-elim, or_fail-eq-ok, guard-eq-ok, arith,
}
use cryp.GoText.{Text, text_eq, trim_space}
use cryp.GoPath.{is_rooted, elements, clean}
use cryp.GoPath.Below.{starts_with}
use cryp.PathGuard.{
  FileKind, directory, symlink, other_file, Machine, GuardError, Guard, within, is_reserved,
  is_directory, is_symlink, abs, check_inside, resolve_dir, check_no_link, validate_entry,
  validate_tree, validate_import, new_with_reserved, reserve,
}
use cryp.PathGuard.Inside.{within-starts_with}
use cryp.PathGuard.Reserved.{clean-is_rooted, abs_rooted, clean-abs, IsFree, reserve-IsFree}

pub guard_passed :
    {E : Type 0} (test : Bool) (problem : E) {u : Unit {0}}
    → guard test problem ≡ ok u
    → test ≡ true
guard_passed true problem h = refl
guard_passed false problem h = cc

pub is_directory_lem : (kind : FileKind) → is_directory kind ≡ true → kind ≡ directory
unfolding is_directory
is_directory_lem directory h = refl
is_directory_lem symlink h = cc
is_directory_lem other_file h = cc

module _ (os : Machine) where
  module _ (reserved : List Text) (root_real : Text) where
    -- A place that an import may read.
    pub record IsInside (real : Text) : Type 0 where
      pub below : starts_with (elements root_real) (elements real) ≡ true
      pub free : IsFree os root_real reserved real

    inside :
        (g : Guard) (real : Text)
        → is_rooted root_real ≡ true
        → reserve os root_real reserved ≡ ok g.reserved
        → is_rooted real ≡ true
        → {u : Unit {0}} → check_inside os g root_real real ≡ ok u
        → IsInside real
    unfolding check_inside
    inside g real h kept k e =
        let first = guard-eq-ok (within root_real real) _ _ e in
        let free : is_reserved g.reserved real ≡ false =
          ground (arith, guard_passed (not (is_reserved g.reserved real)) _ first.1) in
        record {
          below = within-starts_with root_real real h k first.0;
          free = reserve-IsFree os root_real real h k first.0 reserved g.reserved kept free;
        }

    -- An entry of the tree: no link, and what it resolves to is inside.
    abbrev pub IsPlainEntry : Text × FileKind → Type 0
    IsPlainEntry entry =
        (is_symlink entry.1 ≡ false)
        × ((path : Text) × (real : Text) × (abs os entry.0 ≡ some path)
            × (os.eval_symlinks path ≡ some real)
            × IsInside real)

  module _ (g : Guard) (reserved : List Text) (rooted : is_rooted g.root ≡ true) (root_real : Text)
      (at : os.eval_symlinks g.root ≡ some root_real)
      (kept : reserve os root_real reserved ≡ ok g.reserved) where
    root_rooted : is_rooted root_real ≡ true
    root_rooted = os.eval_rooted g.root root_real rooted at

    -- The root resolves in one way.
    same_root :
        (r : Text) → or_fail (os.eval_symlinks g.root) GuardError.unresolved ≡ ok r → r ≡ root_real
    same_root r e = ground (arith, or_fail-eq-ok (os.eval_symlinks g.root) _ e, at)

    resolved :
        (candidate r : Text)
        → resolve_dir os g candidate ≡ ok r
        → IsInside reserved root_real r × (os.stat r ≡ some directory)
    unfolding resolve_dir is_directory
    resolved candidate r h =
        >>=-elim (or_fail (abs os candidate) GuardError.unresolved) _ h λ path e1 h1.
          >>=-elim (or_fail (os.eval_symlinks g.root) GuardError.unresolved) _ h1 λ root e2 h2.
            >>=-elim (or_fail (os.eval_symlinks path) GuardError.unresolved) _ h2 λ real e3 h3.
              >>=-elim (check_inside os g root real) _ h3 λ u e4 h4.
                >>=-elim (or_fail (os.stat real) GuardError.unresolved) _ h4 λ kind e5 h5.
                  let start =
                    abs_rooted os candidate path (or_fail-eq-ok (abs os candidate) _ e1) in
                  let link = or_fail-eq-ok (os.eval_symlinks path) _ e3 in
                  let checked : check_inside os g root_real real ≡ ok u =
                    subst (λ (t : Text). check_inside os g t real ≡ ok u) (same_root root e2) e4 in
                  let within_it =
                    inside reserved root_real g real root_rooted kept
                      (os.eval_rooted path real start link) checked in
                  let last = guard-eq-ok (is_directory kind) _ _ h5 in
                  let result : real ≡ r =
                    sym (os.eval_clean path real link) ∙ ground (arith, last.1) in
                  let a_directory : os.stat real ≡ some directory =
                    or_fail-eq-ok (os.stat real) _ e5 ∙ ap some (is_directory_lem kind last.0) in
                  (
                    subst (IsInside reserved root_real) result within_it,
                    subst (λ (t : Text). os.stat t ≡ some directory) result a_directory,
                  )

    entry_inside :
        (path : Text) (kind : FileKind) {u : Unit {0}}
        → is_symlink kind ≡ false
        → validate_entry os g path ≡ ok u
        → IsPlainEntry reserved root_real (path, kind)
    unfolding validate_entry
    entry_inside path kind plain h = >>=-elim (check_no_link os (os.lstat path)) _ h λ u1 e1 h1.
        >>=-elim (or_fail (abs os path) GuardError.unresolved) _ h1 λ a e2 h2.
          >>=-elim (or_fail (os.eval_symlinks g.root) GuardError.unresolved) _ h2 λ root e3 h3.
            >>=-elim (or_fail (os.eval_symlinks a) GuardError.unresolved) _ h3 λ real e4 h4.
              let there = or_fail-eq-ok (abs os path) _ e2 in
              let link = or_fail-eq-ok (os.eval_symlinks a) _ e4 in
              let real_rooted = os.eval_rooted a real (abs_rooted os path a there) link in
              let checked : check_inside os g root_real real ≡ ok _ =
                subst (λ (t : Text). check_inside os g t real ≡ ok _) (same_root root e3) h4 in
              (
                plain,
                (
                  a,
                  real,
                  there,
                  link,
                  inside reserved root_real g real root_rooted kept real_rooted checked,
                ),
              )

    tree_inside :
        (entries : List (Text × FileKind)) {u : Unit {0}}
        → validate_tree os g entries ≡ ok u
        → All (IsPlainEntry reserved root_real) entries
    unfolding validate_tree
    tree_inside [] h = tt
    tree_inside ((path, kind) ∷ entries) h =
        let first = guard-eq-ok (not (is_symlink kind)) _ _ h in
        >>=-elim (validate_entry os g path) _ first.1
          λ u e h1. (entry_inside path kind (ground (arith, first.0)) e, tree_inside entries h1)

  -- A guard's root is absolute, and its reserved directories are those below where it resolves to.
  new_guard_made :
      (root : Text) (reserved : List Text) (g : Guard)
      → new_with_reserved os root reserved ≡ ok g
      → (root_real : Text) × (is_rooted g.root ≡ true)
        × (os.eval_symlinks g.root ≡ some root_real)
        × (reserve os root_real reserved ≡ ok g.reserved)
  unfolding new_with_reserved
  new_guard_made root reserved g h =
      let first = guard-eq-ok (not (length (trim_space root) == 0)) _ _ h in
      >>=-elim (or_fail (abs os (trim_space root)) GuardError.unresolved) _ first.1 λ path e1 h1.
        >>=-elim (or_fail (os.stat path) GuardError.unresolved) _ h1 λ kind e2 h2.
          let third = guard-eq-ok (is_directory kind) _ _ h2 in
          >>=-elim (or_fail (os.eval_symlinks path) GuardError.unresolved) _ third.1 λ real e3 h3.
            >>=-elim (reserve os real reserved) _ h3 λ items e4 h4.
              let made : (record { root = clean path; reserved = items }) ≡ g =
                ground (arith, h4) in
              let there = or_fail-eq-ok (abs os (trim_space root)) _ e1 in
              let start = abs_rooted os (trim_space root) path there in
              let link : os.eval_symlinks (clean path) ≡ some real =
                ap os.eval_symlinks (clean-abs os (trim_space root) path there)
                ∙ or_fail-eq-ok (os.eval_symlinks path) _ e3 in
              (
                real,
                subst (λ (k : Guard). is_rooted k.root ≡ true) made (clean-is_rooted path start),
                subst (λ (k : Guard). os.eval_symlinks k.root ≡ some real) made link,
                subst (λ (k : Guard). reserve os real reserved ≡ ok k.reserved) made e4,
              )

-- What an accepted import reads.
pub record IsSafeImport (os : Machine) (g : Guard) (reserved : List Text)
    (walk : Text → Option (List (Text × FileKind))) (delete_source : Bool) (folder : Text)
    : Type 0 where
  pub root_real : Text
  pub entries : List (Text × FileKind)
  pub resolves : os.eval_symlinks g.root ≡ some root_real
  pub inside_root : IsInside os reserved root_real folder
  pub a_directory : os.stat folder ≡ some directory
  pub not_the_root : delete_source ≡ true → text_eq (clean folder) (clean root_real) ≡ false
  pub walked : walk folder ≡ some entries
  pub plain : All (IsPlainEntry os reserved root_real) entries

-- When NewWithReserved makes a guard and ValidateImport accepts a path, the returned directory is
-- at or below the resolved source root, element by element, it is not the root itself if the
-- source is to be deleted, and every entry of the tree that was walked is no link and resolves to
-- a place at or below the root. Neither the directory nor such a place is at or below what any
-- given reserved item that is not blank stands for, links evaluated, if that is at or below the
-- root.
pub validate_import-IsSafeImport :
    (os : Machine) (root candidate folder : Text) (reserved : List Text) (g : Guard)
    (walk : Text → Option (List (Text × FileKind))) (delete_source : Bool)
    → new_with_reserved os root reserved ≡ ok g
    → validate_import os g walk candidate delete_source ≡ ok folder
    → IsSafeImport os g reserved walk delete_source folder
unfolding validate_import
validate_import-IsSafeImport os root candidate folder reserved g walk delete_source made h =
    let (start, rooted, resolves, kept) = new_guard_made os root reserved g made in
    >>=-elim (resolve_dir os g candidate) _ h λ real e1 h1.
      >>=-elim (or_fail (os.eval_symlinks g.root) GuardError.unresolved) _ h1 λ root_real e2 h2.
        let at = or_fail-eq-ok (os.eval_symlinks g.root) _ e2 in
        let one : start ≡ root_real = ground (arith, at, resolves) in
        let kept_here = subst (λ (t : Text). reserve os t reserved ≡ ok g.reserved) one kept in
        let third =
          guard-eq-ok (not (delete_source && text_eq (clean real) (clean root_real))) _ _ h2 in
        >>=-elim (or_fail (walk real) GuardError.unresolved) _ third.1 λ entries e3 h3.
          >>=-elim (validate_tree os g entries) _ h3 λ u e4 h4.
            let same : real ≡ folder = ground (arith, h4) in
            let place = resolved os g reserved rooted root_real at kept_here candidate real e1 in
            let safe : IsSafeImport os g reserved walk delete_source real = record {
              root_real = root_real;
              entries = entries;
              resolves = at;
              inside_root = place.0;
              a_directory = place.1;
              not_the_root = λ delete. ground (arith, third.0, delete);
              walked = or_fail-eq-ok (walk real) _ e3;
              plain = tree_inside os g reserved rooted root_real at kept_here entries e4;
            } in
            subst (IsSafeImport os g reserved walk delete_source) same safe
