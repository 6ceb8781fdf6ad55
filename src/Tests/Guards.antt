-- ===== src/Tests/Guards.antt =====
-- The path guards on concrete paths.
use cryp.Prelude.{◌≡◌, refl, true, Option, some, List, [], ◌∷◌, codes, ok, err}
use cryp.GoText.{Text, text_eq, cut_prefix, trim_space, trim_left, trim_right, is_space}
use cryp.GoPath.{
  clean, dir, base, elements, split_path, onto_first, join_path, clean_onto, keep_element, go_up,
  reverse_onto, is_rooted, is_dot, is_dot_dot, is_cut, is_below, up_to_slash, behind_slash,
  trim_slashes,
}
use cryp.PathGuard.{
  FileKind, other_file, GuardError, Guard, within, is_reserved, is_directory, is_symlink, abs,
  real_item, reserve, new_with_reserved, check_inside, resolve_dir, check_no_link, validate_entry,
  validate_tree, validate_import,
}
use cryp.PathGuard.Vaults.{
  has_nul, valid_identity, check_part, no_link_below, reject_symlink_below, check_vault_entry,
  validate_vault_path,
}
use cryp.PathGuard.Imports.{IsSafeImport, validate_import-IsSafeImport}
use cryp.PathGuard.Removal.{IsRemovable, validate_vault_path-IsRemovable}
use cryp.Toy.Paths.{toy_machine}

abbrev guard_of_data : Guard
guard_of_data = record { root = codes "/data"; reserved = codes "/data/vaults" ∷ [] }

abbrev two_files : Text → Option (List (Text × FileKind))
two_files folder = some ((codes "/data/in/a", other_file) ∷ (codes "/data/in/b", other_file) ∷ [])

made :
    new_with_reserved toy_machine (codes "/data") (codes "/data/vaults" ∷ codes "/other" ∷ [])
    ≡ ok guard_of_data
unfolding new_with_reserved reserve real_item abs within is_directory trim_space trim_left
    trim_right is_space clean elements split_path onto_first join_path clean_onto keep_element go_up
    reverse_onto is_rooted is_dot is_dot_dot is_below is_cut cut_prefix text_eq
made = refl

accepted :
    validate_import toy_machine guard_of_data two_files (codes "/data/vaults2/../in/") true
    ≡ ok (codes "/data/in")
unfolding validate_import resolve_dir check_inside is_reserved validate_tree validate_entry
    check_no_link is_symlink abs within is_directory clean elements split_path onto_first join_path
    clean_onto keep_element go_up reverse_onto is_rooted is_dot is_dot_dot is_below is_cut
    cut_prefix text_eq
accepted = refl

validate_import-IsSafeImport_example :
    IsSafeImport toy_machine guard_of_data
      (codes "/data/vaults" ∷ codes "/other" ∷ [])
      two_files
      true
      (codes "/data/in")
validate_import-IsSafeImport_example =
    validate_import-IsSafeImport toy_machine (codes "/data") (codes "/data/vaults2/../in/")
      (codes "/data/in") (codes "/data/vaults" ∷ codes "/other" ∷ []) guard_of_data two_files true
      made accepted

removable :
    validate_vault_path toy_machine (codes "/data/vaults") (codes "v1") (codes "/data/vaults/v1/")
    ≡ ok (codes "/data/vaults/v1")
unfolding validate_vault_path valid_identity has_nul reject_symlink_below no_link_below check_part
    check_vault_entry is_symlink abs within is_directory trim_space trim_left trim_right is_space
    clean base dir elements split_path onto_first join_path clean_onto keep_element go_up
    reverse_onto is_rooted is_dot is_dot_dot is_below is_cut cut_prefix text_eq up_to_slash
    behind_slash trim_slashes
removable = refl

validate_vault_path-IsRemovable_example :
    IsRemovable toy_machine (codes "/data/vaults") (codes "v1") (codes "/data/vaults/v1")
validate_vault_path-IsRemovable_example =
    validate_vault_path-IsRemovable toy_machine (codes "/data/vaults") (codes "v1")
      (codes "/data/vaults/v1/") (codes "/data/vaults/v1") removable

-- Below the root of the file system `within` accepts the root itself only.
root_guard_refuses :
    resolve_dir toy_machine (record { root = codes "/"; reserved = [] }) (codes "/data")
    ≡ err GuardError.outside_root
unfolding resolve_dir check_inside abs within clean elements split_path onto_first join_path
    clean_onto keep_element go_up reverse_onto is_rooted is_dot is_dot_dot is_below is_cut
    cut_prefix text_eq
root_guard_refuses = refl
