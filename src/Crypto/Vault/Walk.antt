-- ===== src/Crypto/Vault/Walk.antt =====
-- The folders that `ResolvePath` goes through.
use cryp.Prelude.{
  ◌≡◌, refl, ap, ◌∙◌, ◌+◌, ◌≤◌, true, false, ◌||◌, some, List, [], ◌∷◌, ◌++◌, ◌==◌, length,
  length-append, codes, ok, arith,
}
use cryp.Bytes.{Bytes}
use cryp.GoText.{Text, cut_prefix, trim_prefix}
use cryp.GoPath.{join_path, clean, dir, base, is_dot, is_rooted, elements}
use cryp.GoPath.Clean.{
  is_name, all_names, absolute, elements-absolute, clean-of_elements, elements-all_names,
  split_path-join_path, names-plain,
}
use cryp.GoPath.Parent.{all_names-front, dir-absolute, base-absolute}
use cryp.Crypto.Aes.{Aes}
use cryp.Crypto.Names.{encrypt_file_name}
use cryp.Crypto.Vault.{
  FsPath, FileSystem, Sha, RootDirMapping, dir_id_file, shorten_enc_name, dir_id_of, resolve_parts,
  resolve_path,
}

module _ (aes : Aes) (sha : Sha) (files : FileSystem) (mac_key : Bytes) where
  -- The way from a folder through folders of these names to another one, with their ids.
  pub data Walk (disk : files.D) : FsPath → Bytes → List Text → FsPath → Bytes → Type 0 where
    arrived : {folder : FsPath} {id : Bytes} → Walk disk folder id [] folder id
    enters :
        {folder last : FsPath} {id last_id : Bytes} {names : List Text} (part enc inner : Bytes)
        → encrypt_file_name aes mac_key part id ≡ ok enc
        → dir_id_of aes sha files mac_key disk
            (folder ++ ((shorten_enc_name aes sha files mac_key enc).0 ∷ []))
          ≡ some inner
        → Walk disk
            (folder ++ ((shorten_enc_name aes sha files mac_key enc).0 ∷ []))
            inner
            names
            last
            last_id
        → Walk disk folder id (part ∷ names) last last_id

  module _ (disk : files.D) where
    pub resolve_parts-Walk :
        {folder last : FsPath} {id last_id : Bytes} {names : List Text}
        → Walk disk folder id names last last_id
        → resolve_parts aes sha files mac_key disk folder id names ≡ ok (last, last_id)
    unfolding resolve_parts
    resolve_parts-Walk arrived = refl
    resolve_parts-Walk (enters part enc inner e there w) =
        rw (e, there, resolve_parts) (resolve_parts-Walk w)

    pub append-Walk :
        {folder last : FsPath} {id last_id : Bytes} {names : List Text} (part enc inner : Bytes)
        → Walk disk folder id names last last_id
        → encrypt_file_name aes mac_key part last_id ≡ ok enc
        → dir_id_of aes sha files mac_key disk
            (last ++ ((shorten_enc_name aes sha files mac_key enc).0 ∷ []))
          ≡ some inner
        → Walk disk folder id
            (names ++ (part ∷ []))
            (last ++ ((shorten_enc_name aes sha files mac_key enc).0 ∷ []))
            inner
    append-Walk part enc inner arrived e there = enters part enc inner e there arrived
    append-Walk part enc inner (enters p c i e0 there0 w) e there =
        enters p c i e0 there0 (append-Walk part enc inner w e there)

    pub length-Walk :
        {folder last : FsPath} {id last_id : Bytes} {names : List Text}
        → Walk disk folder id names last last_id
        → length folder ≤ length last
    length-Walk arrived = omega arith
    length-Walk {folder = folder} (enters part enc inner e there w) = omega (
      arith,
      length-Walk w,
      length-append folder ((shorten_enc_name aes sha files mac_key enc).0 ∷ []),
    )

    -- A disk with the same files near the root has the same folders there.
    pub keeps-Walk :
        (other : files.D) {folder last : FsPath} {id last_id : Bytes} {names : List Text}
        → ((q : FsPath)
            → length q ≤ length last + 1
            → files.read_file other q ≡ files.read_file disk q)
        → Walk disk folder id names last last_id
        → Walk other folder id names last last_id
    unfolding dir_id_of
    keeps-Walk other same arrived = arrived
    keeps-Walk other {folder = folder} same (enters part enc inner e there w) =
        let folder2 : FsPath = folder ++ ((shorten_enc_name aes sha files mac_key enc).0 ∷ []) in
        let near =
          same (folder2 ++ (dir_id_file ∷ []))
            (omega (arith, length-Walk w, length-append folder2 (dir_id_file ∷ []))) in
        enters part enc inner e (near ∙ there) (keeps-Walk other same w)

  trim_prefix-absolute :
      (names : List Text) → trim_prefix (codes "/") (absolute names) ≡ join_path names
  unfolding trim_prefix cut_prefix
  trim_prefix-absolute names = refl

  trimmed :
      (path : Text) (names : List Text)
      → is_rooted path ≡ true
      → elements path ≡ names
      → trim_prefix (codes "/") (clean path) ≡ join_path names
  trimmed path names rooted e =
      ap (λ (p : Text). trim_prefix (codes "/") p) (clean-of_elements path names rooted e)
      ∙ trim_prefix-absolute names

  no_dot :
      (n : Text) (ns : List Text)
      → is_name n ≡ true
      → (length (join_path (n ∷ ns)) == 0) || is_dot (join_path (n ∷ ns)) ≡ false
  unfolding is_name is_dot join_path
  no_dot n [] h = ground (arith, h)
  no_dot [] (m ∷ ms) h = ground (arith, h)
  no_dot (c ∷ cs) (m ∷ ms) h = ground (arith, length-append cs (47 ∷ join_path (m ∷ ms)))

  pub resolve_path-of_elements :
      (disk : files.D) (root : RootDirMapping) (path : Text) (names : List Text)
      → is_rooted path ≡ true
      → elements path ≡ names
      → resolve_path aes sha files mac_key disk (some root) path
        ≡ resolve_parts aes sha files mac_key disk (root.root_enc_name ∷ []) root.root_dir_id names
  unfolding resolve_path resolve_parts all_names join_path
  resolve_path-of_elements disk root path [] rooted e =
      rw (trimmed path [] rooted e, resolve_path) refl
  resolve_path-of_elements disk root path (n ∷ ns) rooted e =
      let h = elements-all_names path (n ∷ ns) rooted e in
      let there = no_dot n ns (ground (arith, h)) in
      let parts = split_path-join_path n ns (names-plain (n ∷ ns) h) in
      rw (trimmed path (n ∷ ns) rooted e, there, parts, resolve_path) refl

  -- The folder and the name that a path is split into.
  pub parent_found :
      (d : files.D) (root : RootDirMapping) (path : Text) (ns : List Text) (s : Text)
      {last : FsPath} {last_id : Bytes}
      → is_rooted path ≡ true
      → elements path ≡ ns ++ (s ∷ [])
      → Walk d (root.root_enc_name ∷ []) root.root_dir_id ns last last_id
      → resolve_path aes sha files mac_key d (some root) (dir (clean path)) ≡ ok (last, last_id)
  unfolding is_rooted
  parent_found d root path ns s rooted e w =
      let h = elements-all_names path (ns ++ (s ∷ [])) rooted e in
      let front = all_names-front ns s h in
      ap (λ (p : Text). resolve_path aes sha files mac_key d (some root) (dir p))
        (clean-of_elements path (ns ++ (s ∷ [])) rooted e)
      ∙ ap (λ (p : Text). resolve_path aes sha files mac_key d (some root) p) (dir-absolute ns s h)
      ∙ resolve_path-of_elements d root (absolute ns) ns refl (elements-absolute ns front)
      ∙ resolve_parts-Walk d w

pub base_found :
    (path : Text) (ns : List Text) (s : Text)
    → is_rooted path ≡ true
    → elements path ≡ ns ++ (s ∷ [])
    → base (clean path) ≡ s
base_found path ns s rooted e =
    ap (λ (p : Text). base p) (clean-of_elements path (ns ++ (s ∷ [])) rooted e)
    ∙ base-absolute ns s (elements-all_names path (ns ++ (s ∷ [])) rooted e)
