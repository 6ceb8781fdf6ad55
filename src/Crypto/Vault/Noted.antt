-- ===== src/Crypto/Vault/Noted.antt =====
-- Long names are noted beside the folders and files that they stand for.
use cryp.Prelude.{
  ◌≡◌, ◌≢◌, refl, sym, ap, ◌∙◌, true, Bool-cases, inl, inr, none, some, [], ◌∷◌, ◌++◌, length, drop,
  drop-append, append_assoc, ok, arith, or_fail, or_fail-eq-ok, >>=-elim,
}
use cryp.Bytes.{Bytes}
use cryp.Crypto.Aes.{Aes}
use cryp.Crypto.Vault.{
  FsPath, FileSystem, Sha, io_error, dir_id_file, short_name_file, shorten_enc_name, dir_id_of,
  file_path, write_short_name_file, read_short_name_file, note_long_name, is_noted, locate,
  make_folder,
}
use cryp.Crypto.Vault.Texts.{bytes_eq_refl, spaceless, trim_bytes-spaceless}

-- The file with the id and the file with the long name are two files.
two_entries :
    (parent : FsPath) (name : Bytes)
    → parent ++ (name ∷ short_name_file ∷ []) ≢ (parent ++ (name ∷ [])) ++ (dir_id_file ∷ [])
two_entries parent name same =
    let joined : parent ++ (name ∷ short_name_file ∷ []) ≡ parent ++ (name ∷ dir_id_file ∷ []) =
      same ∙ append_assoc parent (name ∷ []) (dir_id_file ∷ []) in
    let tails : name ∷ short_name_file ∷ [] ≡ name ∷ dir_id_file ∷ [] =
      sym (drop-append (length parent) parent (name ∷ short_name_file ∷ []) refl)
      ∙ ap (λ (r : FsPath). drop (length parent) r) joined
      ∙ drop-append (length parent) parent (name ∷ dir_id_file ∷ []) refl in
    let seconds : short_name_file ≡ dir_id_file = cc tails in absurd (ground (arith, seconds))

module _ (aes : Aes) (sha : Sha) (files : FileSystem) (mac_key : Bytes) where
  note_long_name-noted :
      (d n : files.D) (parent : FsPath) (enc : Bytes)
      → note_long_name aes sha files mac_key d parent enc ≡ ok n
      → spaceless enc ≡ true
      → is_noted aes sha files mac_key n parent enc ≡ true
  unfolding note_long_name is_noted write_short_name_file read_short_name_file
  note_long_name-noted d n parent enc h clear =
      let (fs_name, is_short) = shorten_enc_name aes sha files mac_key enc in
      elim (Bool-cases is_short) [
        | inr plain ↦ rw (plain, is_noted) refl
        | inl long ↦
            let wrote : write_short_name_file aes sha files mac_key d parent fs_name enc ≡ ok n =
              sym (rw (long, note_long_name) refl) ∙ h in
            >>=-elim (or_fail (files.mkdir_all d (parent ++ (fs_name ∷ []))) io_error) _ wrote
              λ made e1 e2.
                let entry : FsPath = parent ++ (fs_name ∷ short_name_file ∷ []) in
                let there =
                  files.read_written made n entry enc
                    (or_fail-eq-ok (files.write_file made entry enc) io_error e2) in
                rw (long, is_noted, there, trim_bytes-spaceless enc clear) (bytes_eq_refl enc)
      ]

  is_noted-kept :
      (d e : files.D) (parent : FsPath) (enc : Bytes)
      → files.read_file e
          (parent ++ ((shorten_enc_name aes sha files mac_key enc).0 ∷ short_name_file ∷ []))
        ≡ files.read_file d
            (parent ++ ((shorten_enc_name aes sha files mac_key enc).0 ∷ short_name_file ∷ []))
      → is_noted aes sha files mac_key e parent enc ≡ is_noted aes sha files mac_key d parent enc
  unfolding is_noted read_short_name_file
  is_noted-kept d e parent enc same = rw same refl

  pub make_folder-noted :
      (d e : files.D) (parent : FsPath) (enc id : Bytes)
      → make_folder aes sha files mac_key d parent enc (some id) ≡ ok e
      → spaceless enc ≡ true
      → is_noted aes sha files mac_key e parent enc ≡ true
  unfolding make_folder
  make_folder-noted d e parent enc id h clear =
      let fs_name = (shorten_enc_name aes sha files mac_key enc).0 in
      let new_dir : FsPath = parent ++ (fs_name ∷ []) in
      let entry : FsPath = new_dir ++ (dir_id_file ∷ []) in
      >>=-elim (or_fail (files.mkdir_all d new_dir) io_error) _ h λ made e1 h1.
        >>=-elim (note_long_name aes sha files mac_key made parent enc) _ h1 λ noted e2 h2.
          let wrote : files.write_file noted entry id ≡ some e =
            or_fail-eq-ok (files.write_file noted entry id) io_error h2 in
          is_noted-kept noted e parent enc (
            files.read_other noted e entry (parent ++ (fs_name ∷ short_name_file ∷ [])) id wrote
              (two_entries parent fs_name))
          ∙ note_long_name-noted made noted parent enc e2 clear

  -- A folder is located at its own path, and what has no folder at the path of a file.
  pub locate-folder :
      (d : files.D) (parent : FsPath) (enc id : Bytes)
      → is_noted aes sha files mac_key d parent enc ≡ true
      → dir_id_of aes sha files mac_key d
          (parent ++ ((shorten_enc_name aes sha files mac_key enc).0 ∷ []))
        ≡ some id
      → locate aes sha files mac_key d parent enc
        ≡ parent ++ ((shorten_enc_name aes sha files mac_key enc).0 ∷ [])
  unfolding locate
  locate-folder d parent enc id noted there = rw (noted, there) refl

  pub locate-file :
      (d : files.D) (parent : FsPath) (enc : Bytes)
      → dir_id_of aes sha files mac_key d
          (parent ++ ((shorten_enc_name aes sha files mac_key enc).0 ∷ []))
        ≡ none
      → locate aes sha files mac_key d parent enc ≡ file_path aes sha files mac_key parent enc
  unfolding locate
  locate-file d parent enc missing =
      elim (Bool-cases (is_noted aes sha files mac_key d parent enc)) [
        | inl noted ↦ rw (noted, locate, missing) refl
        | inr unknown ↦ rw (unknown, locate) refl
      ]

  -- Noting a long name leaves the id of its folder.
  pub note_long_name-id :
      (d n : files.D) (parent : FsPath) (enc : Bytes)
      → note_long_name aes sha files mac_key d parent enc ≡ ok n
      → dir_id_of aes sha files mac_key n
          (parent ++ ((shorten_enc_name aes sha files mac_key enc).0 ∷ []))
        ≡ dir_id_of aes sha files mac_key d
            (parent ++ ((shorten_enc_name aes sha files mac_key enc).0 ∷ []))
  unfolding note_long_name write_short_name_file dir_id_of
  note_long_name-id d n parent enc h =
      let (fs_name, is_short) = shorten_enc_name aes sha files mac_key enc in
      let inner : FsPath = parent ++ (fs_name ∷ []) in
      let id_file : FsPath = inner ++ (dir_id_file ∷ []) in
      elim (Bool-cases is_short) [
        | inr plain ↦
            let same : ok d ≡ ok n = sym (rw (plain, note_long_name) refl) ∙ h in
            let disks : d ≡ n = cc same in
            ap (λ (x : files.D). files.read_file x id_file) (sym disks)
        | inl long ↦
            let wrote : write_short_name_file aes sha files mac_key d parent fs_name enc ≡ ok n =
              sym (rw (long, note_long_name) refl) ∙ h in
            let entry : FsPath = parent ++ (fs_name ∷ short_name_file ∷ []) in
            >>=-elim (or_fail (files.mkdir_all d inner) io_error) _ wrote λ made e1 e2.
              files.read_other made n entry id_file enc
                (or_fail-eq-ok (files.write_file made entry enc) io_error e2)
                (λ same. two_entries parent fs_name (sym same))
              ∙ files.read_mkdir d made inner id_file
                  (or_fail-eq-ok (files.mkdir_all d inner) io_error e1)
      ]
