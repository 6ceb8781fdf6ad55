-- ===== src/Crypto/KeyWrap.antt =====
-- AES key wrap of internal/crypto/keys.go (`AESKeyWrap`, `AESKeyUnwrap`). The registers r[1..n] are
-- a list; the counter i of the inner loops runs with it, upwards in wrap and downwards in unwrap.
pub mod Steps
pub mod Inverse
use cryp.Prelude.{
  ℕ, zero, suc, ◌+◌, ◌-◌, ◌*◌, ◌/◌, ◌%◌, ◌^◌, Bool, true, false, ◌&&◌, ◌||◌, not, List, [], ◌∷◌,
  ◌++◌, ◌==◌, ltb, length, take, drop, if◌then◌else◌, Result, ok, err, guard, ◌>>=◌, ◌>>◌,
}
use cryp.Bytes.{Bytes, xor_bytes, big_endian}
use cryp.Crypto.Aes.{Aes, is_key_size}

pub data WrapError : Type 0 where
  not_multiple_of_8 invalid_key_size invalid_ciphertext_length integrity_check_failed : WrapError

-- `defaultIV`.
abbrev pub default_iv : Bytes
default_iv = 0xA6 ∷ 0xA6 ∷ 0xA6 ∷ 0xA6 ∷ 0xA6 ∷ 0xA6 ∷ 0xA6 ∷ 0xA6 ∷ []

-- The comparison loop over two slices of one length.
unfoldable pub same_bytes : Bytes → Bytes → Bool
same_bytes [] [] = true
same_bytes (x ∷ xs) (y ∷ ys) = x == y && same_bytes xs ys
same_bytes _ _ = false

-- The first `n` groups of 8 bytes, `r[i] = plaintext[i*8 : (i+1)*8]`.
unfoldable pub registers : ℕ → Bytes → List Bytes
registers zero bytes = []
registers (suc n) bytes = take 8 bytes ∷ registers n (drop 8 bytes)

unfoldable pub joined : List Bytes → Bytes
joined [] = []
joined (r ∷ rs) = r ++ joined rs

-- The value `t = uint64(n*j + i)` as 8 bytes.
abbrev pub counter : ℕ → ℕ → ℕ → Bytes
counter n j i = big_endian 8 ((n * j + i) % 2 ^ 64)

module _ (aes : Aes) (kek : Bytes) where
  -- One pass of the body of wrap's inner loop: B = AES(A | R), A = MSB(B) ^ t, R = LSB(B).
  unfoldable pub wrap_step : Bytes → Bytes → Bytes → Bytes × Bytes
  wrap_step t a r = let buf = aes.encrypt kek (a ++ r) in (xor_bytes (take 8 buf) t, drop 8 buf)

  -- One pass of unwrap's inner loop: B = AES-1((A ^ t) | R), A = MSB(B), R = LSB(B).
  unfoldable pub unwrap_step : Bytes → Bytes → Bytes → Bytes × Bytes
  unwrap_step t a r = let buf = aes.decrypt kek (xor_bytes a t ++ r) in (take 8 buf, drop 8 buf)

  -- `for i := 1; i <= n; i++`, from register i on.
  unfoldable pub wrap_round : ℕ → ℕ → ℕ → Bytes × List Bytes → Bytes × List Bytes
  wrap_round n j i (a, []) = (a, [])
  wrap_round n j i (a, r ∷ rs) =
      let (a', r') = wrap_step (counter n j i) a r in
      let (a'', rs') = wrap_round n j (suc i) (a', rs) in (a'', r' ∷ rs')

  -- `for i := n; i >= 1; i--`, down to register i.
  unfoldable pub unwrap_round : ℕ → ℕ → ℕ → Bytes × List Bytes → Bytes × List Bytes
  unwrap_round n j i (a, []) = (a, [])
  unwrap_round n j i (a, r ∷ rs) =
      let (a', rs') = unwrap_round n j (suc i) (a, rs) in
      let (a'', r') = unwrap_step (counter n j i) a' r in (a'', r' ∷ rs')

  -- The first `j` rounds of `for j := 0; j <= 5; j++`.
  unfoldable pub wrap_rounds : ℕ → ℕ → Bytes × List Bytes → Bytes × List Bytes
  wrap_rounds n zero s = s
  wrap_rounds n (suc j) s = wrap_round n j 1 (wrap_rounds n j s)

  -- The rounds of `for j := 5; j >= 0; j--` from j - 1 on.
  unfoldable pub unwrap_rounds : ℕ → ℕ → Bytes × List Bytes → Bytes × List Bytes
  unwrap_rounds n zero s = s
  unwrap_rounds n (suc j) s = unwrap_rounds n j (unwrap_round n j 1 s)

  -- `AESKeyWrap`.
  unfoldable pub aes_key_wrap : Bytes → Result WrapError Bytes
  aes_key_wrap plaintext = do
    guard (length plaintext % 8 == 0) not_multiple_of_8
    guard (is_key_size kek) invalid_key_size
    let n = length plaintext / 8
    let (a, r) = wrap_rounds n 6 (default_iv, registers n plaintext)
    ok (a ++ joined r)

  -- `AESKeyUnwrap`.
  unfoldable pub aes_key_unwrap : Bytes → Result WrapError Bytes
  aes_key_unwrap ciphertext = do
    guard (not (not (length ciphertext % 8 == 0) || ltb (length ciphertext) 24))
        invalid_ciphertext_length
    guard (is_key_size kek) invalid_key_size
    let n = length ciphertext / 8 - 1
    let (a, r) = unwrap_rounds n 6 (take 8 ciphertext, registers n (drop 8 ciphertext))
    guard (same_bytes a default_iv) integrity_check_failed
    ok (joined r)
