-- ===== src/Crypto/Siv.antt =====
-- AES-SIV of internal/crypto/filename.go: `dbl`, `pad`, `aesCMAC`, `s2v`, `sivEncrypt`, `sivDecrypt`.
pub mod Inverse
pub mod Doubling
pub mod Field
use cryp.Prelude.{
  ℕ, zero, suc, ◌+◌, ◌-◌, ◌*◌, ◌/◌, ◌%◌, ◌^◌, Bool, true, false, ◌&&◌, not, Option, none, some,
  List, [], ◌∷◌, ◌++◌, ◌==◌, ltb, leb, bit_and, bit_or, bit_xor, length, take, drop, replicate,
  if◌then◌else◌, Result, ok, err, guard, or_fail, ◌>>=◌, ◌>>◌,
}
use cryp.Bytes.{Bytes, xor_bytes, big_endian}
use cryp.Bytes.BigEndian.{from_big_endian}
use cryp.Crypto.Aes.{Aes, is_key_size}
use cryp.Crypto.KeyWrap.{same_bytes}

pub data NameError : Type 0 where
  invalid_mac_key empty_name invalid_key_size bad_base64 too_short siv_authentication_failed :
      NameError

abbrev pub siv_block_size : ℕ
siv_block_size = 16

-- The loop of `dbl` from the last byte on: the shifted bytes and the carry out of them.
unfoldable pub shift_left : Bytes → Bytes × ℕ
shift_left [] = ([], 0)
shift_left (x ∷ xs) =
    let (ys, carry) = shift_left xs in (bit_or (x * 2 % 256) carry ∷ ys, x / 2 ^ 7)

-- `out[len(out)-1] ^= mask`.
unfoldable pub xor_last : Bytes → ℕ → Bytes
xor_last [] mask = []
xor_last (x ∷ []) mask = bit_xor x mask ∷ []
xor_last (x ∷ y ∷ xs) mask = x ∷ xor_last (y ∷ xs) mask

-- `data[0]`, for the blocks that the package doubles, which are not empty.
abbrev pub first_byte : Bytes → ℕ
first_byte [] = 0
first_byte (x ∷ xs) = x

unfoldable pub dbl : Bytes → Bytes
dbl data' =
    let out = (shift_left data').0 in
    if bit_and (first_byte data') 0x80 == 0 then out else xor_last out 0x87

-- `pad`: a block that begins with the data and 0x80.
unfoldable pub pad : Bytes → Bytes
pad data' = take siv_block_size (data' ++ 0x80 ∷ replicate siv_block_size 0)

-- `ctrIV[i] &= 0x7F`.
unfoldable pub clear_top_bit : ℕ → Bytes → Bytes
clear_top_bit i [] = []
clear_top_bit zero (x ∷ xs) = bit_and x 0x7F ∷ xs
clear_top_bit (suc i) (x ∷ xs) = x ∷ clear_top_bit i xs

unfoldable pub ctr_iv : Bytes → Bytes
unfolding clear_top_bit
ctr_iv siv = clear_top_bit 12 (clear_top_bit 8 siv)

module _ (aes : Aes) where
  -- `generateSubkeys`.
  unfoldable pub generate_subkeys : Bytes → Bytes × Bytes
  generate_subkeys key = let k1 = dbl (aes.encrypt key (replicate siv_block_size 0)) in (k1, dbl k1)

  -- The chaining of the first `n` blocks of `aesCMAC`.
  unfoldable pub cmac_chain : ℕ → Bytes → Bytes → Bytes → Bytes
  cmac_chain zero key x data' = x
  cmac_chain (suc n) key x data' =
      cmac_chain n key (aes.encrypt key (xor_bytes (take siv_block_size data') x))
        (drop siv_block_size data')

  -- The last block of `aesCMAC`, with its subkey.
  unfoldable pub cmac_last : Bytes → Bool → Bytes → Bytes
  unfolding generate_subkeys
  cmac_last key complete rest =
      let (k1, k2) = generate_subkeys key in
      if complete then xor_bytes rest k1 else xor_bytes (pad rest) k2

  -- `aesCMAC`.
  unfoldable pub aes_cmac : Bytes → Bytes → Bytes
  aes_cmac key data' =
      let n = (length data' + 15) / 16 in
      let blocks = if n == 0 then 1 else n in
      let complete = ltb 0 (length data') && length data' % 16 == 0 in
      let x = cmac_chain (blocks - 1) key (replicate siv_block_size 0) data' in
      aes.encrypt key (xor_bytes (cmac_last key complete (drop ((blocks - 1) * 16) data')) x)

  -- `s2v` from the doubled and mixed D on.
  unfoldable pub s2v_last : Bytes → Bytes → Bytes
  s2v_last plaintext d =
      if leb siv_block_size (length plaintext)
      then take (length plaintext - siv_block_size) plaintext
        ++ xor_bytes (drop (length plaintext - siv_block_size) plaintext) d
      else xor_bytes (pad plaintext) (dbl d)

  -- `s2v`.
  unfoldable pub s2v : Bytes → Bytes → Bytes → Result NameError Bytes
  s2v mac_key plaintext ad = do
    guard (is_key_size mac_key) NameError.invalid_key_size
    let d = xor_bytes (dbl (aes_cmac mac_key (replicate siv_block_size 0))) (aes_cmac mac_key ad)
    ok (aes_cmac mac_key (s2v_last plaintext d))

  -- The key stream of `cipher.NewCTR`: the counter as a big-endian number, one more for each block.
  unfoldable pub ctr_blocks : ℕ → Bytes → ℕ → Bytes
  ctr_blocks zero key counter = []
  ctr_blocks (suc n) key counter =
      aes.encrypt key (big_endian 16 (counter % 2 ^ 128)) ++ ctr_blocks n key (counter + 1)

  -- `XORKeyStream`.
  unfoldable pub xor_key_stream : Bytes → Bytes → Bytes → Bytes
  xor_key_stream key iv src =
      xor_bytes src (ctr_blocks ((length src + 15) / 16) key (from_big_endian iv))

  -- `sivEncrypt`, under the two halves of the key.
  unfoldable pub siv_encrypt : Bytes → Bytes → Bytes → Bytes → Result NameError Bytes
  siv_encrypt mac_key enc_key plaintext ad = do
    siv ← s2v mac_key plaintext ad
    guard (is_key_size enc_key) NameError.invalid_key_size
    ok (siv ++ xor_key_stream enc_key (ctr_iv siv) plaintext)

  -- `sivDecrypt`.
  unfoldable pub siv_decrypt : Bytes → Bytes → Bytes → Bytes → Result NameError Bytes
  siv_decrypt mac_key enc_key data' ad = do
    guard (not (ltb (length data') siv_block_size)) NameError.too_short
    let siv = take siv_block_size data'
    let ciphertext = drop siv_block_size data'
    guard (is_key_size enc_key) NameError.invalid_key_size
    let plaintext = xor_key_stream enc_key (ctr_iv siv) ciphertext
    computed_siv ← s2v mac_key plaintext ad
    guard (same_bytes siv computed_siv) NameError.siv_authentication_failed
    ok plaintext
