-- ===== src/FileIndex/Links.antt =====
-- How the keys of an index record hang together: the path, the folder and the name.
use cryp.Prelude.{
  ◌≡◌, refl, sym, ap, ◌∙◌, ◌<◌, true, false, List, [], ◌∷◌, ◌++◌, ◌==◌, length, codes, arith,
  length-append, ok, if◌then◌else◌,
}
use cryp.Bytes.{Bytes, IsBytes, IsBytes-append, all_bytes, all_bytes-IsBytes}
use cryp.GoText.{Text}
use cryp.GoPath.{join_path, is_dot, is_rooted, elements}
use cryp.GoPath.Clean.{
  is_name, all_names, absolute, elements-names, elements-absolute, clean-rooted,
}
use cryp.GoPath.Parent.{all_names-front, all_names-last, dir-absolute, base-absolute}
use cryp.Crypto.Aes.{Aes}
use cryp.Crypto.Names.{decrypt_file_name, encrypt_entry_name_key}
use cryp.Crypto.Names.Laws.{decrypt_file_name-encrypt_file_name, encrypt_file_name-IsBytes}
use cryp.Crypto.Names.Index.{
  is_root, normalize_index_path, parent_virtual_path, base_virtual_name, index_path_aad,
  encrypt_index_path, decrypt_index_path,
}
use cryp.FileIndex.{EntryInput, EntryRecord, parent_key_of, build_entry_record}

pub normalize-rooted :
    (path : Text) → is_rooted path ≡ true → normalize_index_path path ≡ absolute (elements path)
unfolding normalize_index_path is_dot is_rooted
normalize-rooted path rooted = rw (clean-rooted path rooted, normalize_index_path) refl

-- NormalizeVirtualPath of an absolute path is a fixed point of NormalizeVirtualPath.
pub normalize_index_path-absolute :
    (path : Text)
    → is_rooted path ≡ true
    → normalize_index_path (normalize_index_path path) ≡ normalize_index_path path
unfolding is_rooted
normalize_index_path-absolute path rooted =
    ap (λ (p : Text). normalize_index_path p) (normalize-rooted path rooted)
    ∙ normalize-rooted (absolute (elements path)) refl
    ∙ ap (λ (ns : List Text). absolute ns)
        (elements-absolute (elements path) (elements-names path rooted))
    ∙ sym (normalize-rooted path rooted)

normalize-absolute :
    (ns : List Text) → all_names ns ≡ true → normalize_index_path (absolute ns) ≡ absolute ns
unfolding is_rooted
normalize-absolute ns h =
    normalize-rooted (absolute ns) refl
    ∙ ap (λ (ms : List Text). absolute ms) (elements-absolute ns h)

not_root :
    (ns : List Text) (s : Text)
    → all_names (ns ++ (s ∷ [])) ≡ true
    → is_root (absolute (ns ++ (s ∷ []))) ≡ false
unfolding is_root all_names is_name join_path
not_root [] s h = ground (arith, h)
not_root (n ∷ []) s h = ground (arith, length-append n (47 ∷ s))
not_root (n ∷ m ∷ ns) s h = ground (arith, length-append n (47 ∷ join_path (m ∷ (ns ++ (s ∷ [])))))

parent-absolute :
    (ns : List Text) (s : Text)
    → all_names (ns ++ (s ∷ [])) ≡ true
    → parent_virtual_path (absolute (ns ++ (s ∷ []))) ≡ absolute ns
unfolding parent_virtual_path is_dot
parent-absolute ns s h =
    rw (normalize-absolute (ns ++ (s ∷ [])) h, not_root ns s h, dir-absolute ns s h) refl

base-name :
    (ns : List Text) (s : Text)
    → all_names (ns ++ (s ∷ [])) ≡ true
    → base_virtual_name (absolute (ns ++ (s ∷ []))) ≡ s
unfolding base_virtual_name
base-name ns s h =
    rw (normalize-absolute (ns ++ (s ∷ [])) h, not_root ns s h) (base-absolute ns s h)

index_path_aad-IsBytes : (vault_id : Bytes) → IsBytes vault_id → IsBytes (index_path_aad vault_id)
unfolding index_path_aad all_bytes
index_path_aad-IsBytes vault_id h =
    IsBytes-append (codes "cryp:file-index-path:v1:") vault_id
      (all_bytes-IsBytes (codes "cryp:file-index-path:v1:") refl) h

-- The associated data of a name.
unfoldable pub name_aad : Bytes → Bytes → Bytes
name_aad vault_id parent_key =
    codes "cryp:entry-name:v1:" ++ (vault_id ++ (codes ":" ++ parent_key))

name_aad-IsBytes :
    (vault_id parent_key : Bytes)
    → IsBytes vault_id
    → IsBytes parent_key
    → IsBytes (name_aad vault_id parent_key)
unfolding name_aad all_bytes
name_aad-IsBytes vault_id parent_key h k =
    IsBytes-append (codes "cryp:entry-name:v1:") (vault_id ++ (codes ":" ++ parent_key))
      (all_bytes-IsBytes (codes "cryp:entry-name:v1:") refl)
      (IsBytes-append vault_id (codes ":" ++ parent_key) h
        (IsBytes-append (codes ":") parent_key (all_bytes-IsBytes (codes ":") refl) k))

module _ (aes : Aes) (mac_key : Bytes) (mac_size : length mac_key ≡ 32) where
  -- With a 32-byte MAC key BuildEntryRecord succeeds on every absolute path of bytes below the
  -- root, its path key decrypts to the clean path, its parent key is the path key of the
  -- folder, and its name key decrypts to the last name under the parent key.
  pub build_entry_record-links :
      (input : EntryInput) (ns : List Text) (s : Text)
      → is_rooted input.virtual_path ≡ true
      → elements input.virtual_path ≡ ns ++ (s ∷ [])
      → IsBytes input.vault_id
      → IsBytes (absolute (ns ++ (s ∷ [])))
      → IsBytes (absolute ns)
      → IsBytes s
      → (e : EntryRecord) × (build_entry_record aes mac_key input ≡ ok e)
        × (decrypt_index_path aes mac_key input.vault_id e.path_key
            ≡ ok (absolute (ns ++ (s ∷ []))))
        × (encrypt_index_path aes mac_key input.vault_id (absolute ns) ≡ ok e.parent_key)
        × (decrypt_file_name aes mac_key e.name_key (name_aad input.vault_id e.parent_key) ≡ ok s)
  unfolding build_entry_record encrypt_index_path decrypt_index_path parent_key_of
      encrypt_entry_name_key name_aad is_name
  build_entry_record-links input ns s rooted split hv hp hq hs =
      let names : all_names (ns ++ (s ∷ [])) ≡ true =
        ap (λ (l : List Text). all_names l) (sym split)
        ∙ elements-names input.virtual_path rooted in
      let path = absolute (ns ++ (s ∷ [])) in
      let there : 0 < length s = ground (arith, all_names-last ns s names) in
      let not_empty : (length s == 0) ≡ false = ground (arith, there) in
      let normal : normalize_index_path input.virtual_path ≡ path =
        normalize-rooted input.virtual_path rooted ∙ ap (λ (l : List Text). absolute l) split in
      let again : normalize_index_path path ≡ path = normalize-absolute (ns ++ (s ∷ [])) names in
      let parent = parent-absolute ns s names in
      let parent_normal : normalize_index_path (absolute ns) ≡ absolute ns =
        normalize-absolute ns (all_names-front ns s names) in
      let parent_there : (length (absolute ns) == 0) ≡ false = ground arith in
      let aad = index_path_aad-IsBytes input.vault_id hv in
      let (k, enc, dec) =
        decrypt_file_name-encrypt_file_name aes mac_key path (index_path_aad input.vault_id)
          mac_size (omega arith) hp aad in
      let (p, enc_p, dec_p) =
        decrypt_file_name-encrypt_file_name aes mac_key (absolute ns)
          (index_path_aad input.vault_id) mac_size (omega arith) hq aad in
      let hk =
        encrypt_file_name-IsBytes aes mac_key (absolute ns) (index_path_aad input.vault_id) p
          enc_p in
      let (n, enc_n, dec_n) =
        decrypt_file_name-encrypt_file_name aes mac_key s (name_aad input.vault_id p) mac_size there
          hs (name_aad-IsBytes input.vault_id p hv hk) in
      (
        record {
          vault_id = input.vault_id;
          path_key = k;
          parent_key = p;
          name_key = n;
          is_dir = input.is_dir;
          children_indexed = input.children_indexed;
          content_hash = if input.is_dir then [] else input.protected_hash;
          size = if input.is_dir then 0 else input.size;
          mod_time = input.mod_time;
          created_at = 0;
          updated_at = 0;
        },
        rw
            (
              normal,
              again,
              enc,
              parent,
              parent_normal,
              enc_p,
              parent_there,
              base-name ns s names,
              not_empty,
              enc_n,
            )
            refl,
        dec,
        rw (parent_normal) enc_p,
        dec_n,
      )
