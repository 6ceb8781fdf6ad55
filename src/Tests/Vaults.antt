-- ===== src/Tests/Vaults.antt =====
-- The folders of a vault and the records of the index on concrete data.
use cryp.Prelude.{
  ◌≡◌, refl, length, some, none, true, false, List, [], ◌∷◌, ◌++◌, codes, replicate, ok, err, ◌>>=◌,
}
use cryp.Bytes.{Bytes, IsBytes, all_bytes, all_bytes-IsBytes, xor_bytes, big_endian}
use cryp.Bytes.BigEndian.{from_big_endian}
use cryp.GoText.{
  Text, cut_prefix, trim_prefix, is_space, two_bytes, three_bytes, space_ahead, space_behind,
  drop_spaces, backwards, trim_bytes,
}
use cryp.GoPath.{
  onto_first, split_path, join_path, is_dot, is_dot_dot, go_up, keep_element, clean_onto,
  reverse_onto, is_rooted, elements, clean, up_to_slash, behind_slash, dir, trim_slashes, base,
}
use cryp.GoPath.Clean.{absolute}
use cryp.Crypto.Siv.{
  shift_left, xor_last, dbl, pad, clear_top_bit, ctr_iv, generate_subkeys, cmac_chain, cmac_last,
  aes_cmac, s2v, s2v_last, ctr_blocks, xor_key_stream, siv_encrypt,
}
use cryp.Crypto.Base64.{to_char, base64_encode}
use cryp.Crypto.Names.{encrypt_file_name, decrypt_file_name}
use cryp.Crypto.Vault.{
  bytes_eq, FsPath, RootDirMapping, Sha, shorten_enc_name, dir_id_of, file_path, resolve_parts,
  resolve_path, get_encrypted_file_path, resolve_existing_file_path, note_long_name, make_folder,
  create_encrypted_directory,
}
use cryp.Crypto.Vault.Walk.{arrived}
use cryp.Crypto.Vault.Locate.{
  resolve_existing_file_path-create_encrypted_directory,
  resolve_existing_file_path-get_encrypted_file_path,
}
use cryp.Crypto.Names.Index.{normalize_index_path, encrypt_index_path, decrypt_index_path}
use cryp.FileIndex.{EntryInput, EntryRecord, build_entry_record}
use cryp.FileIndex.Links.{build_entry_record-links, name_aad}
use cryp.Toy.{toy_aes}
use cryp.Toy.Files.{toy_files, read_disk, path_eq}

abbrev mac_key : Bytes
mac_key = replicate 32 9

abbrev toy_sha : Sha
toy_sha = λ b. replicate 32 7

abbrev root : RootDirMapping
root = record { root_dir_id = codes "id-0"; root_enc_name = codes "ROOT" }

abbrev docs : List Text
docs = codes "docs" ∷ []

-- The path as a client sends it.
abbrev given : Text
given = codes "/music/..//docs/"

given_rooted : is_rooted given ≡ true
unfolding is_rooted
given_rooted = refl

given_parts : elements given ≡ [] ++ docs
unfolding elements split_path onto_first clean_onto keep_element go_up reverse_onto is_rooted is_dot
    is_dot_dot
given_parts = refl

abbrev empty_disk : List (FsPath × Bytes)
empty_disk = []

abbrev encrypted : Bytes
encrypted = elim (encrypt_file_name toy_aes mac_key (codes "docs") (codes "id-0")) [
  | ok e ↦ e
  | err e ↦ []
]

encrypts : encrypt_file_name toy_aes mac_key (codes "docs") (codes "id-0") ≡ ok encrypted
unfolding encrypt_file_name siv_encrypt s2v
encrypts = refl

abbrev made_disk : List (FsPath × Bytes)
made_disk =
    elim (create_encrypted_directory toy_aes toy_sha toy_files mac_key empty_disk (some root) given
      (some (codes "id-1"))) [ ok e ↦ e | err e ↦ [] ]

makes :
    create_encrypted_directory toy_aes toy_sha toy_files mac_key empty_disk
      (some root)
      given
      (some (codes "id-1"))
    ≡ ok made_disk
unfolding create_encrypted_directory resolve_path resolve_parts make_folder note_long_name
    shorten_enc_name clean dir base elements split_path onto_first join_path clean_onto keep_element
    go_up reverse_onto is_rooted is_dot is_dot_dot up_to_slash behind_slash trim_slashes trim_prefix
    cut_prefix encrypt_file_name siv_encrypt s2v s2v_last dbl shift_left xor_last pad clear_top_bit
    ctr_iv generate_subkeys cmac_chain cmac_last aes_cmac ctr_blocks xor_key_stream base64_encode
    to_char xor_bytes big_endian
makes = refl

resolve_existing_file_path-create_encrypted_directory_example :
    (folder : FsPath) × (resolve_existing_file_path toy_aes toy_sha toy_files mac_key made_disk
        (some root)
        given
      ≡ ok folder)
    × (resolve_path toy_aes toy_sha toy_files mac_key made_disk (some root) given
        ≡ ok (folder, codes "id-1"))
resolve_existing_file_path-create_encrypted_directory_example =
    resolve_existing_file_path-create_encrypted_directory toy_aes toy_sha toy_files mac_key
      empty_disk made_disk root given [] (codes "docs") (codes "ROOT" ∷ []) (codes "id-0")
      (codes "id-1") given_rooted given_parts arrived makes

-- A file next to it.
abbrev noted_disk : List (FsPath × Bytes)
noted_disk =
    elim (get_encrypted_file_path toy_aes toy_sha toy_files mac_key empty_disk (some root) given) [
      | ok (e, p) ↦ e
      | err e ↦ []
    ]

abbrev noted_path : FsPath
noted_path =
    elim (get_encrypted_file_path toy_aes toy_sha toy_files mac_key empty_disk (some root) given) [
      | ok (e, p) ↦ p
      | err e ↦ []
    ]

notes :
    get_encrypted_file_path toy_aes toy_sha toy_files mac_key empty_disk (some root) given
    ≡ ok (noted_disk, noted_path)
unfolding get_encrypted_file_path resolve_path resolve_parts note_long_name shorten_enc_name
    file_path clean dir base elements split_path onto_first join_path clean_onto keep_element go_up
    reverse_onto is_rooted is_dot is_dot_dot up_to_slash behind_slash trim_slashes trim_prefix
    cut_prefix encrypt_file_name siv_encrypt s2v s2v_last dbl shift_left xor_last pad clear_top_bit
    ctr_iv generate_subkeys cmac_chain cmac_last aes_cmac ctr_blocks xor_key_stream base64_encode
    to_char xor_bytes big_endian
notes = refl

no_folder :
    (enc : Bytes)
    → encrypt_file_name toy_aes mac_key (codes "docs") (codes "id-0") ≡ ok enc
    → dir_id_of toy_aes toy_sha toy_files mac_key empty_disk
        ((codes "ROOT" ∷ []) ++ ((shorten_enc_name toy_aes toy_sha toy_files mac_key enc).0 ∷ []))
      ≡ none
unfolding dir_id_of read_disk
no_folder enc e = refl

resolve_existing_file_path-get_encrypted_file_path_example :
    resolve_existing_file_path toy_aes toy_sha toy_files mac_key noted_disk (some root) given
    ≡ ok noted_path
resolve_existing_file_path-get_encrypted_file_path_example =
    resolve_existing_file_path-get_encrypted_file_path toy_aes toy_sha toy_files mac_key empty_disk
      noted_disk root given [] (codes "docs") (codes "ROOT" ∷ []) (codes "id-0") noted_path
      given_rooted given_parts arrived no_folder notes

-- The last byte of a letter is no space, but a no-break space of two bytes is.
trims_bytes : trim_bytes (0x20 ∷ 0xC3 ∷ 0xA0 ∷ 0xC2 ∷ 0xA0 ∷ 0x0A ∷ []) ≡ 0xC3 ∷ 0xA0 ∷ []
unfolding trim_bytes backwards drop_spaces space_ahead space_behind two_bytes three_bytes is_space
trims_bytes = refl

-- A folder that is made for the root itself is one more folder below it, named by a slash.
abbrev disk_of_root : List (FsPath × Bytes)
disk_of_root =
    elim (create_encrypted_directory toy_aes toy_sha toy_files mac_key empty_disk (some root)
      (codes "/") (some (codes "id-1"))) [ ok e ↦ e | err e ↦ [] ]

root_stays :
    (length disk_of_root ≡ 1)
    × (resolve_path toy_aes toy_sha toy_files mac_key disk_of_root (some root) (codes "/")
        ≡ ok (codes "ROOT" ∷ [], codes "id-0"))
unfolding create_encrypted_directory resolve_path resolve_parts make_folder note_long_name
    shorten_enc_name clean dir base elements split_path onto_first join_path clean_onto keep_element
    go_up reverse_onto is_rooted is_dot is_dot_dot up_to_slash behind_slash trim_slashes trim_prefix
    cut_prefix encrypt_file_name siv_encrypt s2v s2v_last dbl shift_left xor_last pad clear_top_bit
    ctr_iv generate_subkeys cmac_chain cmac_last aes_cmac ctr_blocks xor_key_stream base64_encode
    to_char xor_bytes big_endian
root_stays = (refl, refl)

-- A path with a step above the root is no fixed point.
above_root : normalize_index_path (codes "../x") ≡ codes "/../x"
unfolding normalize_index_path clean elements split_path onto_first join_path clean_onto
    keep_element go_up reverse_onto is_rooted is_dot is_dot_dot
above_root = refl

above_root_again : normalize_index_path (codes "/../x") ≡ codes "/x"
unfolding normalize_index_path clean elements split_path onto_first join_path clean_onto
    keep_element go_up reverse_onto is_rooted is_dot is_dot_dot
above_root_again = refl

abbrev input : EntryInput
input = record {
  vault_id = codes "v1";
  virtual_path = codes "/docs//a.txt";
  is_dir = false;
  children_indexed = false;
  size = 5;
  mod_time = 9;
  protected_hash = [];
}

rooted : is_rooted (codes "/docs//a.txt") ≡ true
unfolding is_rooted
rooted = refl

splits : elements (codes "/docs//a.txt") ≡ codes "docs" ∷ codes "a.txt" ∷ []
unfolding elements split_path onto_first clean_onto keep_element go_up reverse_onto is_rooted is_dot
    is_dot_dot
splits = refl

vault_bytes : IsBytes (codes "v1")
unfolding all_bytes
vault_bytes = all_bytes-IsBytes (codes "v1") refl

build_entry_record-links_example :
    (e : EntryRecord) × (build_entry_record toy_aes mac_key input ≡ ok e)
    × (decrypt_index_path toy_aes mac_key (codes "v1") e.path_key
        ≡ ok (absolute (docs ++ (codes "a.txt" ∷ []))))
    × (encrypt_index_path toy_aes mac_key (codes "v1") (absolute docs) ≡ ok e.parent_key)
    × (decrypt_file_name toy_aes mac_key e.name_key (name_aad (codes "v1") e.parent_key)
        ≡ ok (codes "a.txt"))
unfolding all_bytes join_path
build_entry_record-links_example =
    build_entry_record-links toy_aes mac_key refl input docs (codes "a.txt") rooted splits
      vault_bytes (all_bytes-IsBytes (absolute (docs ++ (codes "a.txt" ∷ []))) refl)
      (all_bytes-IsBytes (absolute docs) refl) (all_bytes-IsBytes (codes "a.txt") refl)

-- A folder that is made again gets another id.
remakes :
    (create_encrypted_directory toy_aes toy_sha toy_files mac_key made_disk
        (some root)
        (absolute docs)
        (some (codes "id-2"))
      >>= λ e. resolve_path toy_aes toy_sha toy_files mac_key e (some root) (absolute docs))
    ≡ (resolve_path toy_aes toy_sha toy_files mac_key made_disk (some root) (absolute docs) >>= λ r.
        ok (r.0, codes "id-2"))
unfolding create_encrypted_directory resolve_path resolve_parts make_folder note_long_name
    shorten_enc_name dir_id_of read_disk path_eq bytes_eq clean dir base elements split_path
    onto_first join_path clean_onto keep_element go_up reverse_onto is_rooted is_dot is_dot_dot
    up_to_slash behind_slash trim_slashes trim_prefix cut_prefix encrypt_file_name siv_encrypt s2v
    s2v_last dbl shift_left xor_last pad clear_top_bit ctr_iv generate_subkeys cmac_chain cmac_last
    aes_cmac ctr_blocks xor_key_stream base64_encode to_char xor_bytes big_endian from_big_endian
remakes = refl
