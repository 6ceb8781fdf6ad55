-- ===== src/Crypto/Names.antt =====
-- File names of internal/crypto/filename.go (`EncryptFileName`, `DecryptFileName`,
-- `EncryptEntryNameKey`). A Go string is its bytes.
pub mod Index
pub mod Laws
use cryp.Prelude.{
  ℕ, Bool, not, [], ◌++◌, ◌==◌, length, take, drop, if◌then◌else◌, codes, Result, ok, err, guard,
  or_fail, ◌>>=◌, ◌>>◌,
}
use cryp.Bytes.{Bytes}
use cryp.Crypto.Aes.{Aes}
use cryp.Crypto.Base64.{base64_encode, base64_decode}
use cryp.Crypto.Siv.{NameError, siv_encrypt, siv_decrypt}

module _ (aes : Aes) where
  -- `EncryptFileName`; `deriveSIVKeys` halves the key.
  unfoldable pub encrypt_file_name : Bytes → Bytes → Bytes → Result NameError Bytes
  encrypt_file_name mac_key name dir_id = do
    guard (length mac_key == 32) NameError.invalid_mac_key
    guard (not (length name == 0)) NameError.empty_name
    ciphertext ← siv_encrypt aes (take 16 mac_key) (drop 16 mac_key) name dir_id
    ok (base64_encode ciphertext)

  -- `DecryptFileName`.
  unfoldable pub decrypt_file_name : Bytes → Bytes → Bytes → Result NameError Bytes
  decrypt_file_name mac_key encrypted_name dir_id = do
    guard (length mac_key == 32) NameError.invalid_mac_key
    ciphertext ← or_fail (base64_decode encrypted_name) NameError.bad_base64
    siv_decrypt aes (take 16 mac_key) (drop 16 mac_key) ciphertext dir_id

  -- `EncryptEntryNameKey`.
  unfoldable pub encrypt_entry_name_key : Bytes → Bytes → Bytes → Bytes → Result NameError Bytes
  encrypt_entry_name_key mac_key vault_id parent_key name =
      encrypt_file_name mac_key (if length name == 0 then codes "/" else name)
        (codes "cryp:entry-name:v1:" ++ (vault_id ++ (codes ":" ++ parent_key)))
