-- ===== src/Crypto/Aes.antt =====
-- What internal/crypto uses of Go's crypto/aes and crypto/rand. The cipher itself and the source
-- of randomness are parameters with the laws that their packages document.
use cryp.Prelude.{ℕ, ◌≡◌, Bool, ◌||◌, Option, some, ◌==◌, length}
use cryp.Bytes.{Bytes, IsBytes}

-- A block of 16 bytes, `aes.BlockSize`.
abbrev pub IsBlock : Bytes → Type 0
IsBlock b = (length b ≡ 16) × IsBytes b

-- The block cipher under a key: a permutation of the blocks.
pub record Aes : Type 0 where
  pub encrypt : Bytes → Bytes → Bytes
  pub decrypt : Bytes → Bytes → Bytes
  pub encrypt-IsBlock : (key b : Bytes) → IsBlock b → IsBlock (encrypt key b)
  pub decrypt-IsBlock : (key b : Bytes) → IsBlock b → IsBlock (decrypt key b)
  pub decrypt-encrypt : (key b : Bytes) → IsBlock b → decrypt key (encrypt key b) ≡ b
  pub encrypt-decrypt : (key b : Bytes) → IsBlock b → encrypt key (decrypt key b) ≡ b

-- `aes.NewCipher` accepts keys of 16, 24 and 32 bytes, and fails on any other.
abbrev pub is_key_size : Bytes → Bool
is_key_size key = length key == 16 || length key == 24 || length key == 32

-- `rand.Read` into a buffer of the given size; `none` is its error.
pub record Rand : Type 1 where
  pub Seed : Type 0
  pub read : Seed → ℕ → Option Bytes × Seed
  pub read_size : (s : Seed) (n : ℕ) (b : Bytes) → (read s n).0 ≡ some b → length b ≡ n
  pub read-IsBytes : (s : Seed) (n : ℕ) (b : Bytes) → (read s n).0 ≡ some b → IsBytes b
