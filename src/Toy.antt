-- ===== src/Toy.antt =====
-- Stand-ins for what the program takes from other packages, for tests and witnesses.
pub mod Files
pub mod Paths
pub mod Records
use cryp.Prelude.{
  ℕ, zero, suc, ◌+◌, ◌%◌, ◌<◌, ◌≡◌, ◌∙◌, ◌-◌, ◌++◌, ap, refl, true, Option, some, arith, length,
  take, replicate, length-replicate, length-append, take-append,
}
use cryp.Bytes.{Bytes, IsBytes, xor_bytes, length-xor_bytes}
use cryp.Bytes.Xor.{xor_bytes_cancel, IsBytes-xor_bytes}
use cryp.Crypto.Aes.{Aes, Rand, IsBlock}
use cryp.Crypto.Gcm.{Gcm}
use cryp.Crypto.Keys.{Scrypt}
use cryp.Crypto.Content.Chunk.{Sink}

-- A stand-in for the cipher in the witnesses: every byte changes, and twice gives the block back.
abbrev pub mask : Bytes
mask = replicate 16 0x5a

abbrev pub toy_encrypt : Bytes → Bytes → Bytes
toy_encrypt key b = xor_bytes b mask

pub toy_encrypt-IsBlock : (key b : Bytes) → IsBlock b → IsBlock (toy_encrypt key b)
toy_encrypt-IsBlock key b h =
    (length-xor_bytes b mask ∙ h.0, IsBytes-xor_bytes b mask h.1 (omega arith))

pub toy_cancel : (key b : Bytes) → IsBlock b → toy_encrypt key (toy_encrypt key b) ≡ b
toy_cancel key b h = xor_bytes_cancel b mask

abbrev pub toy_aes : Aes
toy_aes = record {
  encrypt = toy_encrypt;
  decrypt = toy_encrypt;
  encrypt-IsBlock = toy_encrypt-IsBlock;
  decrypt-IsBlock = toy_encrypt-IsBlock;
  decrypt-encrypt = toy_cancel;
  encrypt-decrypt = toy_cancel;
}

IsBytes-replicate : (n x : ℕ) → x < 256 → IsBytes (replicate n x)
IsBytes-replicate zero x h = tt
IsBytes-replicate (suc n) x h = (h, IsBytes-replicate n x h)

pub toy_read_size : (s n : ℕ) (b : Bytes) → some (replicate n (s % 256)) ≡ some b → length b ≡ n
toy_read_size s n b e = ground (arith, length-replicate n (s % 256))

pub toy_read-IsBytes : (s n : ℕ) (b : Bytes) → some (replicate n (s % 256)) ≡ some b → IsBytes b
toy_read-IsBytes s n b e = ground (arith, IsBytes-replicate n (s % 256) (omega arith))

-- A stand-in for the randomness: one repeated byte, a new one for each call.
abbrev pub toy_rand : Rand
toy_rand = record {
  Seed = ℕ;
  read = λ s n. (some (replicate n (s % 256)), s + 1);
  read_size = toy_read_size;
  read-IsBytes = toy_read-IsBytes;
}

-- A stand-in for GCM: the text is left as it is, and the tag is constant.
abbrev toy_seal : Bytes → Bytes → Bytes → Bytes → Bytes
toy_seal key nonce p aad = p ++ replicate 16 0x77

abbrev toy_unseal : Bytes → Bytes → Bytes → Bytes → Option Bytes
toy_unseal key nonce c aad = some (take (length c - 16) c)

pub length-toy_seal : (key nonce p aad : Bytes) → length (toy_seal key nonce p aad) ≡ length p + 16
length-toy_seal key nonce p aad =
    omega (arith, length-append p (replicate 16 0x77), length-replicate {A = ℕ} 16 0x77)

pub toy_opens :
    (key nonce p aad : Bytes) → toy_unseal key nonce (toy_seal key nonce p aad) aad ≡ some p
toy_opens key nonce p aad =
    let size : length p ≡ length (toy_seal key nonce p aad) - 16 =
      omega (arith, length-toy_seal key nonce p aad) in
    ap some (take-append (length (toy_seal key nonce p aad) - 16) p (replicate 16 0x77) size)

abbrev pub toy_gcm : Gcm
toy_gcm = record {
  seal = toy_seal;
  unseal = toy_unseal;
  length-seal = length-toy_seal;
  unseal-seal = toy_opens;
}

-- A file in memory that accepts every write.
abbrev pub toy_sink : Sink
toy_sink = record {
  W = Bytes;
  contents = λ w. w;
  write = λ w b. (w ++ b, true);
  contents-write = λ w b e. refl;
}

pub toy_key_size : (size : ℕ) (k : Bytes) → some (replicate size 0x2b) ≡ some k → length k ≡ size
toy_key_size size k e = ground (arith, length-replicate {A = ℕ} size 0x2b)

-- A stand-in for the password hash.
abbrev pub toy_scrypt : Scrypt
toy_scrypt = record {
  key = λ password salt n r p size. some (replicate size 0x2b);
  key_size = λ password salt n r p size k e. toy_key_size size k e;
}
