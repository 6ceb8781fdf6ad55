-- ===== src/Crypto/Vault/Locate.antt =====
-- The folders and files of a vault are read where they were written.
use cryp.Prelude.{
  ◌≡◌, refl, sym, ap, ◌∙◌, true, none, some, List, [], ◌∷◌, ◌++◌, ok, ◌>>=◌, >>=-elim,
}
use cryp.Bytes.{Bytes}
use cryp.GoText.{Text}
use cryp.GoPath.{is_rooted, elements}
use cryp.Crypto.Aes.{Aes}
use cryp.Crypto.Names.{encrypt_file_name}
use cryp.Crypto.Names.Laws.{encrypt_file_name-base64}
use cryp.Crypto.Vault.{
  FsPath, FileSystem, Sha, RootDirMapping, named, shorten_enc_name, dir_id_of, file_path,
  resolve_path, note_long_name, locate, get_encrypted_file_path, resolve_existing_file_path,
  make_folder, create_encrypted_directory,
}
use cryp.Crypto.Vault.Walk.{
  Walk, resolve_parts-Walk, append-Walk, keeps-Walk, resolve_path-of_elements, parent_found,
  base_found,
}
use cryp.Crypto.Vault.Create.{named-eq-ok, note_long_name-near, make_folder-Made}
use cryp.Crypto.Vault.Texts.{spaceless, base64_encode-spaceless}
use cryp.Crypto.Vault.Noted.{make_folder-noted, locate-folder, locate-file, note_long_name-id}

module _ (aes : Aes) (sha : Sha) (files : FileSystem) (mac_key : Bytes) where
  -- Where a path is located, given its folder.
  located :
      (d : files.D) (root : RootDirMapping) (path : Text) (ns : List Text) (s : Text)
      (last : FsPath) (last_id enc : Bytes)
      → is_rooted path ≡ true
      → elements path ≡ ns ++ (s ∷ [])
      → Walk aes sha files mac_key d (root.root_enc_name ∷ []) root.root_dir_id ns last last_id
      → encrypt_file_name aes mac_key s last_id ≡ ok enc
      → resolve_existing_file_path aes sha files mac_key d (some root) path
        ≡ ok (locate aes sha files mac_key d last enc)
  unfolding resolve_existing_file_path
  located d root path ns s last last_id enc h parts w good =
      rw
        (
          parent_found aes sha files mac_key d root path ns s h parts w,
          base_found path ns s h parts,
          good,
          resolve_existing_file_path,
        )
        refl

  -- For an absolute path with at least one element, clean or not: when the parent resolves
  -- through folders and CreateEncryptedDirectory succeeds for it, also for a folder that was
  -- there before, ResolveExistingFilePath and ResolvePath both find the folder, long names
  -- included, and the folder has the new directory id.
  pub resolve_existing_file_path-create_encrypted_directory :
      (d e : files.D) (root : RootDirMapping) (path : Text) (ns : List Text) (s : Text)
      (last : FsPath) (last_id id : Bytes)
      → is_rooted path ≡ true
      → elements path ≡ ns ++ (s ∷ [])
      → Walk aes sha files mac_key d (root.root_enc_name ∷ []) root.root_dir_id ns last last_id
      → create_encrypted_directory aes sha files mac_key d (some root) path (some id) ≡ ok e
      → (folder : FsPath) × (resolve_existing_file_path aes sha files mac_key e (some root) path
          ≡ ok folder)
        × (resolve_path aes sha files mac_key e (some root) path ≡ ok (folder, id))
  unfolding create_encrypted_directory
  resolve_existing_file_path-create_encrypted_directory d e root path ns s last last_id id h parts w
        made =
      let named_folder : (named (encrypt_file_name aes mac_key s last_id) >>= λ enc.
      make_folder aes sha files mac_key d last enc (some id))
          ≡ ok e =
        sym (
          rw
            (
              parent_found aes sha files mac_key d root path ns s h parts w,
              base_found path ns s h parts,
              create_encrypted_directory,
            )
            refl)
        ∙ made in
      >>=-elim (named (encrypt_file_name aes mac_key s last_id)) _ named_folder λ enc got folder.
        let good = named-eq-ok (encrypt_file_name aes mac_key s last_id) got in
        let (c, text) = encrypt_file_name-base64 aes mac_key s last_id enc good in
        let clear : spaceless enc ≡ true =
          ap (λ (t : Bytes). spaceless t) text ∙ base64_encode-spaceless c in
        let there = make_folder-Made aes sha files mac_key d e last enc id folder in
        let kept = keeps-Walk aes sha files mac_key d e there.near w in
        let way = append-Walk aes sha files mac_key e s enc id kept good there.has_id in
        let place =
          locate-folder aes sha files mac_key e last enc id
            (make_folder-noted aes sha files mac_key d e last enc id folder clear) there.has_id in
        (
          last ++ ((shorten_enc_name aes sha files mac_key enc).0 ∷ []),
          located e root path ns s last last_id enc h parts kept good
              ∙ ap (λ (p : FsPath). ok p) place,
          resolve_path-of_elements aes sha files mac_key e root path (ns ++ (s ∷ [])) h parts
              ∙ resolve_parts-Walk aes sha files mac_key e way,
        )

  -- For an absolute path with at least one element, clean or not: when the parent resolves
  -- through folders, no folder has the name, and GetEncryptedFilePath succeeds,
  -- ResolveExistingFilePath finds the file at the path that was handed out, long names
  -- included.
  pub resolve_existing_file_path-get_encrypted_file_path :
      (d e : files.D) (root : RootDirMapping) (path : Text) (ns : List Text) (s : Text)
      (last : FsPath) (last_id : Bytes) (p : FsPath)
      → is_rooted path ≡ true
      → elements path ≡ ns ++ (s ∷ [])
      → Walk aes sha files mac_key d (root.root_enc_name ∷ []) root.root_dir_id ns last last_id
      → ((enc : Bytes)
          → encrypt_file_name aes mac_key s last_id ≡ ok enc
          → dir_id_of aes sha files mac_key d
              (last ++ ((shorten_enc_name aes sha files mac_key enc).0 ∷ []))
            ≡ none)
      → get_encrypted_file_path aes sha files mac_key d (some root) path ≡ ok (e, p)
      → resolve_existing_file_path aes sha files mac_key e (some root) path ≡ ok p
  unfolding get_encrypted_file_path
  resolve_existing_file_path-get_encrypted_file_path d e root path ns s last last_id p h parts w
        missing written =
      let chain : (named (encrypt_file_name aes mac_key s last_id) >>= λ enc.
      note_long_name aes sha files mac_key d last enc >>= λ n.
      ok (n, file_path aes sha files mac_key last enc))
          ≡ ok (e, p) =
        sym (
          rw
            (
              parent_found aes sha files mac_key d root path ns s h parts w,
              base_found path ns s h parts,
              get_encrypted_file_path,
            )
            refl)
        ∙ written in
      >>=-elim (named (encrypt_file_name aes mac_key s last_id)) _ chain λ enc got rest.
        >>=-elim (note_long_name aes sha files mac_key d last enc) _ rest λ n noted result.
          let good = named-eq-ok (encrypt_file_name aes mac_key s last_id) got in
          let same_disk : n ≡ e = cc result in
          let same_path : file_path aes sha files mac_key last enc ≡ p = cc result in
          let still : dir_id_of aes sha files mac_key e
                (last ++ ((shorten_enc_name aes sha files mac_key enc).0 ∷ []))
              ≡ none =
            ap
              (λ (x : files.D).
                dir_id_of aes sha files mac_key x
                  (last ++ ((shorten_enc_name aes sha files mac_key enc).0 ∷ [])))
              (sym same_disk)
            ∙ note_long_name-id aes sha files mac_key d n last enc noted
            ∙ missing enc good in
          let kept =
            keeps-Walk aes sha files mac_key d e
              (λ q near.
                ap (λ (x : files.D). files.read_file x q) (sym same_disk)
                ∙ note_long_name-near aes sha files mac_key d n last enc q noted near)
              w in
          located e root path ns s last last_id enc h parts kept good
          ∙ ap (λ (x : FsPath). ok x)
              (locate-file aes sha files mac_key e last enc still ∙ same_path)
