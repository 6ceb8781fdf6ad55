-- ===== src/Crypto/Gcm.antt =====
-- What internal/crypto/content.go uses of Go's AES-GCM (`NewGCM`, `Seal`, `Open`): a parameter with
-- the laws of an authenticated cipher whose tag has 16 bytes.
use cryp.Prelude.{◌+◌, ◌≡◌, Option, some, length}
use cryp.Bytes.{Bytes}

pub record Gcm : Type 0 where
  pub seal : Bytes → Bytes → Bytes → Bytes → Bytes
  pub unseal : Bytes → Bytes → Bytes → Bytes → Option Bytes
  pub length-seal : (key nonce p aad : Bytes) → length (seal key nonce p aad) ≡ length p + 16
  pub unseal-seal : (key nonce p aad : Bytes) → unseal key nonce (seal key nonce p aad) aad ≡ some p
