-- ===== src/Crypto/Names/Index.antt =====
-- Virtual paths of internal/crypto/filename.go (`NormalizeVirtualPath`, `ParentVirtualPath`,
-- `BaseVirtualName`) and the keys of the index (`EncryptIndexPath`, `DecryptIndexPath`).
use cryp.Prelude.{Bool, false, ◌&&◌, not, [], ◌∷◌, ◌++◌, ◌==◌, length, if◌then◌else◌, codes, Result}
use cryp.Bytes.{Bytes}
use cryp.GoText.{Text}
use cryp.GoPath.{clean, dir, base, is_dot, is_rooted}
use cryp.Crypto.Aes.{Aes}
use cryp.Crypto.Siv.{NameError}
use cryp.Crypto.Names.{encrypt_file_name, decrypt_file_name}

-- `path == "/"`.
unfoldable pub is_root : Text → Bool
is_root [] = false
is_root (c ∷ cs) = (c == 47) && (length cs == 0)

-- `normalizeIndexPath` and `NormalizeVirtualPath`.
unfoldable pub normalize_index_path : Text → Text
normalize_index_path virtual_path =
    let cleaned = clean virtual_path in
    if is_dot cleaned then codes "/" else if not (is_rooted cleaned) then 47 ∷ cleaned else cleaned

-- `ParentVirtualPath`.
unfoldable pub parent_virtual_path : Text → Text
parent_virtual_path virtual_path =
    let normalized = normalize_index_path virtual_path in
    if is_root normalized
    then []
    else let parent = dir normalized in if is_dot parent then codes "/" else parent

-- `BaseVirtualName`.
unfoldable pub base_virtual_name : Text → Text
base_virtual_name virtual_path =
    let normalized = normalize_index_path virtual_path in
    if is_root normalized then codes "/" else base normalized

-- `indexPathAAD`.
unfoldable pub index_path_aad : Bytes → Bytes
index_path_aad vault_id = codes "cryp:file-index-path:v1:" ++ vault_id

module _ (aes : Aes) where
  -- `EncryptIndexPath`.
  unfoldable pub encrypt_index_path : Bytes → Bytes → Bytes → Result NameError Bytes
  encrypt_index_path mac_key vault_id virtual_path =
      encrypt_file_name aes mac_key (normalize_index_path virtual_path) (index_path_aad vault_id)

  -- `DecryptIndexPath`.
  unfoldable pub decrypt_index_path : Bytes → Bytes → Bytes → Result NameError Bytes
  decrypt_index_path mac_key vault_id encrypted_path =
      decrypt_file_name aes mac_key encrypted_path (index_path_aad vault_id)
