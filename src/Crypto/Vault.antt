-- ===== src/Crypto/Vault.antt =====
-- The folders of a vault, of internal/crypto/vault.go: where a virtual path is stored. A path of the
-- file system is the list of its elements below the folder `d` of the vault, so `filepath.Join` is
-- `++`; file names are encrypted, and never `..` or with a slash. What `root.json` holds is an argument.
pub mod Walk
pub mod Create
pub mod Texts
pub mod Noted
pub mod Locate
use cryp.Prelude.{
  ℕ, Bool, true, false, ◌&&◌, ◌||◌, not, Option, none, some, List, [], ◌∷◌, ◌++◌, ◌==◌, leb, length,
  if◌then◌else◌, codes, Result, ok, err, or_fail, ◌>>=◌, ◌≡◌, ◌≢◌,
}
use cryp.Bytes.{Bytes}
use cryp.GoText.{Text, trim_prefix, trim_bytes}
use cryp.GoPath.{split_path, clean, dir, base, is_dot}
use cryp.Crypto.Aes.{Aes}
use cryp.Crypto.Base64.{base64_encode}
use cryp.Crypto.Siv.{NameError}
use cryp.Crypto.Names.{encrypt_file_name}

abbrev pub FsPath : Type 0
FsPath = List Bytes

-- What the vault uses of the `os` package: `ReadFile`, `WriteFile` and `MkdirAll`. A file that was
-- written is read back, and neither call changes another file.
pub record FileSystem : Type 1 where
  pub D : Type 0
  pub read_file : D → FsPath → Option Bytes
  pub write_file : D → FsPath → Bytes → Option D
  pub mkdir_all : D → FsPath → Option D
  pub read_written :
      (d e : D) (p : FsPath) (b : Bytes) → write_file d p b ≡ some e → read_file e p ≡ some b
  pub read_other :
      (d e : D) (p q : FsPath) (b : Bytes)
      → write_file d p b ≡ some e
      → q ≢ p
      → read_file e q ≡ read_file d q
  pub read_mkdir : (d e : D) (p q : FsPath) → mkdir_all d p ≡ some e → read_file e q ≡ read_file d q

-- `sha256.Sum256`.
abbrev pub Sha : Type 0
Sha = Bytes → Bytes

-- `RootDirMapping`.
pub record RootDirMapping : Type 0 where
  pub root_dir_id : Bytes
  pub root_enc_name : Bytes

pub data VaultError : Type 0 where
  no_root_mapping no_randomness io_error : VaultError
  bad_name : NameError → VaultError

abbrev pub named : {A : Type 0} → Result NameError A → Result VaultError A
named (ok a) = ok a
named (err e) = err (bad_name e)

abbrev pub dir_id_file : Bytes
dir_id_file = codes "dirid.c9r"

abbrev pub encrypted_ext : Bytes
encrypted_ext = codes ".c9r"

abbrev pub short_name_dir : Bytes
short_name_dir = codes ".c9s"

abbrev pub short_name_file : Bytes
short_name_file = codes "name.c9r"

abbrev pub contents_file : Bytes
contents_file = codes "contents.c9r"

abbrev pub max_encrypted_name_len : ℕ
max_encrypted_name_len = 220

-- `a == b` of two strings.
unfoldable pub bytes_eq : Bytes → Bytes → Bool
bytes_eq [] [] = true
bytes_eq [] (y ∷ ys) = false
bytes_eq (x ∷ xs) [] = false
bytes_eq (x ∷ xs) (y ∷ ys) = let rest = bytes_eq xs ys in (x == y) && rest

module _ (aes : Aes) (sha : Sha) (files : FileSystem) (mac_key : Bytes) where
  -- `shortenEncName`.
  unfoldable pub shorten_enc_name : Bytes → Bytes × Bool
  shorten_enc_name enc_name =
      if leb (length enc_name) max_encrypted_name_len
      then (enc_name, false)
      else (base64_encode (sha enc_name) ++ short_name_dir, true)

  -- `os.ReadFile` or `os.Stat` of the file with the id of a folder.
  unfoldable pub dir_id_of : files.D → FsPath → Option Bytes
  dir_id_of disk folder = files.read_file disk (folder ++ (dir_id_file ∷ []))

  -- The path of a file that is no folder.
  unfoldable pub file_path : FsPath → Bytes → FsPath
  file_path folder enc_name =
      let (fs_name, is_short) = shorten_enc_name enc_name in
      if is_short
      then folder ++ (fs_name ∷ contents_file ∷ [])
      else folder ++ ((enc_name ++ encrypted_ext) ∷ [])

  -- The loop of `ResolvePath`.
  unfoldable pub resolve_parts :
      files.D → FsPath → Bytes → List Text → Result VaultError (FsPath × Bytes)
  resolve_parts disk folder dir_id [] = ok (folder, dir_id)
  resolve_parts disk folder dir_id (part ∷ rest) =
      elim (encrypt_file_name aes mac_key part dir_id) [
        | err e ↦ err (bad_name e)
        | ok enc_name ↦
            let inner : FsPath = folder ++ ((shorten_enc_name enc_name).0 ∷ []) in
            elim (dir_id_of disk inner) [
              | some id ↦ resolve_parts disk inner id rest
              | none ↦ ok (file_path folder enc_name, dir_id)
            ]
      ]

  -- `ResolvePath`.
  unfoldable pub resolve_path :
      files.D → Option RootDirMapping → Text → Result VaultError (FsPath × Bytes)
  resolve_path disk mapping virtual_path = do
    root ← or_fail mapping no_root_mapping
    let path = trim_prefix (codes "/") (clean virtual_path)
    if (length path == 0) || is_dot path
        then ok (root.root_enc_name ∷ [], root.root_dir_id)
        else resolve_parts disk (root.root_enc_name ∷ []) root.root_dir_id (split_path path)

  -- `writeShortNameFile`.
  unfoldable pub write_short_name_file :
      files.D → FsPath → Bytes → Bytes → Result VaultError files.D
  write_short_name_file disk parent short_name full_enc_name = do
    made ← or_fail (files.mkdir_all disk (parent ++ (short_name ∷ []))) io_error
    or_fail (files.write_file made (parent ++ (short_name ∷ short_name_file ∷ [])) full_enc_name)
        io_error

  -- `readShortNameFile`.
  unfoldable pub read_short_name_file : files.D → FsPath → Bytes → Option Bytes
  read_short_name_file disk parent short_name =
      elim (files.read_file disk (parent ++ (short_name ∷ short_name_file ∷ []))) [
        | none ↦ none
        | some text ↦ some (trim_bytes text)
      ]

  -- A long name is noted.
  unfoldable pub note_long_name : files.D → FsPath → Bytes → Result VaultError files.D
  note_long_name disk parent enc_name =
      let (fs_name, is_short) = shorten_enc_name enc_name in
      if is_short then write_short_name_file disk parent fs_name enc_name else ok disk

  -- `GetEncryptedFilePath`: where a file is written.
  unfoldable pub get_encrypted_file_path :
      files.D → Option RootDirMapping → Text → Result VaultError (files.D × FsPath)
  get_encrypted_file_path disk mapping virtual_path = do
    let path = clean virtual_path
    parent ← resolve_path disk mapping (dir path)
    enc_name ← named (encrypt_file_name aes mac_key (base path) parent.1)
    noted ← note_long_name disk parent.0 enc_name
    ok (noted, file_path parent.0 enc_name)

  -- Whether a name that is not long, or the noted long name, is this one.
  unfoldable pub is_noted : files.D → FsPath → Bytes → Bool
  is_noted disk parent enc_name =
      let (fs_name, is_short) = shorten_enc_name enc_name in
      if is_short
      then elim (read_short_name_file disk parent fs_name) [
        | none ↦ false
        | some name ↦ bytes_eq name enc_name
      ]
      else true

  -- The part of `ResolveExistingFilePath` on the encrypted name.
  unfoldable pub locate : files.D → FsPath → Bytes → FsPath
  locate disk parent enc_name =
      let inner : FsPath = parent ++ ((shorten_enc_name enc_name).0 ∷ []) in
      if not (is_noted disk parent enc_name)
      then file_path parent enc_name
      else elim (dir_id_of disk inner) [ some id ↦ inner | none ↦ file_path parent enc_name ]

  -- `ResolveExistingFilePath`: where a file is read.
  unfoldable pub resolve_existing_file_path :
      files.D → Option RootDirMapping → Text → Result VaultError FsPath
  resolve_existing_file_path disk mapping virtual_path = do
    let path = clean virtual_path
    parent ← resolve_path disk mapping (dir path)
    enc_name ← named (encrypt_file_name aes mac_key (base path) parent.1)
    ok (locate disk parent.0 enc_name)

  -- The part of `CreateEncryptedDirectory` that writes, with the id that `generateDirID` returns.
  unfoldable pub make_folder : files.D → FsPath → Bytes → Option Bytes → Result VaultError files.D
  make_folder disk parent enc_name new_dir_id = do
    let new_dir : FsPath = parent ++ ((shorten_enc_name enc_name).0 ∷ [])
    made ← or_fail (files.mkdir_all disk new_dir) io_error
    noted ← note_long_name made parent enc_name
    id ← or_fail new_dir_id no_randomness
    or_fail (files.write_file noted (new_dir ++ (dir_id_file ∷ [])) id) io_error

  -- `CreateEncryptedDirectory`.
  unfoldable pub create_encrypted_directory :
      files.D → Option RootDirMapping → Text → Option Bytes → Result VaultError files.D
  create_encrypted_directory disk mapping virtual_path new_dir_id = do
    let path = clean virtual_path
    parent ← resolve_path disk mapping (dir path)
    enc_name ← named (encrypt_file_name aes mac_key (base path) parent.1)
    make_folder disk parent.0 enc_name new_dir_id
