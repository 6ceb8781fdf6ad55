-- ===== src/Crypto/Vault/Create.antt =====
-- `CreateEncryptedDirectory`: the folder that it makes is found under its path.
use cryp.Prelude.{
  ◌≡◌, ◌≢◌, refl, sym, ap, ◌∙◌, ◌+◌, ◌≤◌, ◌<◌, Bool-cases, inl, inr, some, [], ◌∷◌, ◌++◌, length,
  length-append, Result, ok, err, arith, or_fail, or_fail-eq-ok, >>=-elim,
}
use cryp.Bytes.{Bytes}
use cryp.Crypto.Aes.{Aes}
use cryp.Crypto.Siv.{NameError}
use cryp.Crypto.Vault.{
  FsPath, FileSystem, Sha, io_error, named, dir_id_file, short_name_file, shorten_enc_name,
  dir_id_of, write_short_name_file, note_long_name, make_folder,
}

pub shorter-≢ : {p q : FsPath} → length q < length p → q ≢ p
shorter-≢ less same = absurd (omega (arith, ap (λ (r : FsPath). length r) same, less))

pub named-eq-ok : {A : Type 0} (r : Result NameError A) {a : A} → named r ≡ ok a → r ≡ ok a
named-eq-ok (ok x) h = ground (arith, h)
named-eq-ok (err e) h = absurd (ground (arith, h))

module _ (aes : Aes) (sha : Sha) (files : FileSystem) (mac_key : Bytes) where
  -- Writing a long name leaves what is nearer to the root.
  pub write_short_name_file-near :
      (d e : files.D) (parent : FsPath) (name enc : Bytes) (q : FsPath)
      → write_short_name_file aes sha files mac_key d parent name enc ≡ ok e
      → length q ≤ length parent + 1
      → files.read_file e q ≡ files.read_file d q
  unfolding write_short_name_file
  write_short_name_file-near d e parent name enc q h near =
      let entry : FsPath = parent ++ (name ∷ short_name_file ∷ []) in
      >>=-elim (or_fail (files.mkdir_all d (parent ++ (name ∷ []))) io_error) _ h λ made e1 e2.
        files.read_other made e entry q enc
          (or_fail-eq-ok (files.write_file made entry enc) io_error e2)
          (shorter-≢ (omega (arith, near, length-append parent (name ∷ short_name_file ∷ []))))
        ∙ files.read_mkdir d made (parent ++ (name ∷ [])) q
            (or_fail-eq-ok (files.mkdir_all d (parent ++ (name ∷ []))) io_error e1)

  pub note_long_name-near :
      (d e : files.D) (parent : FsPath) (enc : Bytes) (q : FsPath)
      → note_long_name aes sha files mac_key d parent enc ≡ ok e
      → length q ≤ length parent + 1
      → files.read_file e q ≡ files.read_file d q
  unfolding note_long_name
  note_long_name-near d e parent enc q h near =
      let (fs_name, is_short) = shorten_enc_name aes sha files mac_key enc in
      elim (Bool-cases is_short) [
        | inl long ↦
            write_short_name_file-near d e parent fs_name enc q
              (sym (rw (long, note_long_name) refl) ∙ h) near
        | inr plain ↦
            let same : ok d ≡ ok e = sym (rw (plain, note_long_name) refl) ∙ h in
            let disks : d ≡ e = cc same in ap (λ (x : files.D). files.read_file x q) (sym disks)
      ]

  -- A folder that was made has its id, and nothing nearer to the root changed.
  pub record Made (d e : files.D) (parent : FsPath) (enc id : Bytes) : Type 0 where
    pub has_id :
        dir_id_of aes sha files mac_key e
          (parent ++ ((shorten_enc_name aes sha files mac_key enc).0 ∷ []))
        ≡ some id
    pub near :
        (q : FsPath) → length q ≤ length parent + 1 → files.read_file e q ≡ files.read_file d q

  pub make_folder-Made :
      (d e : files.D) (parent : FsPath) (enc id : Bytes)
      → make_folder aes sha files mac_key d parent enc (some id) ≡ ok e
      → Made d e parent enc id
  unfolding make_folder dir_id_of
  make_folder-Made d e parent enc id h =
      let fs_name = (shorten_enc_name aes sha files mac_key enc).0 in
      let new_dir : FsPath = parent ++ (fs_name ∷ []) in
      let entry : FsPath = new_dir ++ (dir_id_file ∷ []) in
      >>=-elim (or_fail (files.mkdir_all d new_dir) io_error) _ h λ made e1 h1.
        >>=-elim (note_long_name aes sha files mac_key made parent enc) _ h1 λ noted e2 h2.
          let wrote : files.write_file noted entry id ≡ some e =
            or_fail-eq-ok (files.write_file noted entry id) io_error h2 in
          record {
            has_id = files.read_written noted e entry id wrote;
            near = λ q short.
                files.read_other noted e entry q id wrote (
                  shorter-≢ (
                    omega (
                      arith,
                      short,
                      length-append new_dir (dir_id_file ∷ []),
                      length-append parent (fs_name ∷ []),
                    )))
                ∙ note_long_name-near made noted parent enc q e2 short
                ∙ files.read_mkdir d made new_dir q
                    (or_fail-eq-ok (files.mkdir_all d new_dir) io_error e1);
          }
