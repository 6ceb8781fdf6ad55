-- ===== src/Crypto/Content/Sizes/Laws.antt =====
-- What the size arithmetic computes, for sizes up to 2^62, and that the two directions agree.
use cryp.Prelude.{ℕ, ◌+◌, ◌-◌, ◌*◌, ◌/◌, ◌%◌, ◌^◌, ◌≤◌, ◌<◌, ◌≡◌, ◌↔◌, arith}
use cryp.Crypto.Content.Sizes.{
  plaintext_offset_to_cipher_offset, plaintext_size_to_cipher_size, cipher_size_to_plaintext_size,
}

-- PlaintextSize2CipherSize does not overflow up to 2^62 and is 68 + n + 28 * ceil(n / 32768).
pub cipher_size_lem :
    (n : ℕ) → n ≤ 2 ^ 62 → plaintext_size_to_cipher_size n ≡ 68 + n + 28 * ((n + 32767) / 32768)
unfolding plaintext_size_to_cipher_size
cipher_size_lem n h = ground arith

-- CipherSize2PlaintextSize inverts PlaintextSize2CipherSize up to 2^62, without overflow.
pub size_round_trip :
    (n : ℕ) → n ≤ 2 ^ 62 → cipher_size_to_plaintext_size (plaintext_size_to_cipher_size n) ≡ n
unfolding cipher_size_to_plaintext_size
size_round_trip n h = ground (arith, cipher_size_lem n h)

-- What the other direction computes.
plaintext_size_lem :
    (c : ℕ)
    → c ≤ 2 ^ 62
    → cipher_size_to_plaintext_size c ≡ (c - 68) / 32796 * 32768 + ((c - 68) % 32796 - 28)
unfolding cipher_size_to_plaintext_size
plaintext_size_lem c h = ground arith

-- For files of a header or more, both sizes up to 2^61, a plaintext fits into c bytes of
-- ciphertext exactly when it is no longer than CipherSize2PlaintextSize(c).
pub size_largest :
    (n c : ℕ)
    → n ≤ 2 ^ 61
    → c ≤ 2 ^ 61
    → 68 ≤ c
    → (plaintext_size_to_cipher_size n ≤ c) ↔ (n ≤ cipher_size_to_plaintext_size c)
size_largest n c hn hc h = (
  λ fits. omega (arith, cipher_size_lem n (omega arith), plaintext_size_lem c (omega arith)),
  λ small. omega (arith, cipher_size_lem n (omega arith), plaintext_size_lem c (omega arith)),
)

pub offset_lem :
    (o : ℕ)
    → o ≤ 2 ^ 62
    → plaintext_offset_to_cipher_offset o ≡ (68 + o / 32768 * 32796, o / 32768, o % 32768)
unfolding plaintext_offset_to_cipher_offset
offset_lem o h = ground arith

-- For a byte inside a plaintext of up to 2^62 bytes, PlaintextOffset2CipherOffset gives the chunk
-- that holds it, the start of that chunk inside the ciphertext, and what to skip in it.
pub offset_in_file :
    (o n : ℕ)
    → n ≤ 2 ^ 62
    → o < n
    → let (cipher_offset, chunk, skip) = plaintext_offset_to_cipher_offset o in
      (chunk * 32768 + skip ≡ o)
      × (skip < 32768)
      × (cipher_offset ≡ plaintext_size_to_cipher_size (chunk * 32768))
      × (cipher_offset + 28 + skip < plaintext_size_to_cipher_size n)
offset_in_file o n h lt =
    let block : o / 32768 * 32768 ≤ o = omega arith in
    rw (offset_lem o (omega arith)) (
      omega arith,
      omega arith,
      omega (arith, cipher_size_lem (o / 32768 * 32768) (omega arith)),
      omega (arith, cipher_size_lem n h),
    )
