-- ===== src/Crypto/Content/Chunk.antt =====
-- The errors of internal/crypto/content.go, the header, and single chunks (`chunkAAD`,
-- `EncryptChunk`, `DecryptChunk`, `WriteFileHeader`, `ReadFileHeader`).
pub mod Laws
use cryp.Prelude.{
  ℕ, ◌+◌, ◌-◌, replicate, ◌^◌, Bool, true, false, ◌≡◌, Option, none, some, ◌++◌, [], ◌==◌, ltb, not,
  length, take, drop, if◌then◌else◌, Result, ok, err, guard, or_fail, ◌>>=◌, ◌>>◌,
}
use cryp.Bytes.{Bytes, big_endian}
use cryp.Bytes.BigEndian.{from_big_endian}
use cryp.Crypto.Aes.{Rand, is_key_size}
use cryp.Crypto.Gcm.{Gcm}
use cryp.Crypto.Content.Sizes.{
  header_nonce_size, header_payload_size, header_size, header_reserved_value, chunk_nonce_size,
  chunk_tag_size,
}

pub data ContentError : Type 0 where
  rand_failed invalid_key_size write_failed : ContentError
  header_unreadable header_not_authentic invalid_header_reserved_field : ContentError
  corrupt_content read_failed end_of_file : ContentError

pub record FileHeader : Type 0 where
  pub nonce : Bytes
  pub content_key : Bytes

-- An io.Writer: the state afterwards, and whether all was accepted. What is accepted is appended.
pub record Sink : Type 1 where
  pub W : Type 0
  pub contents : W → Bytes
  pub write : W → Bytes → W × Bool
  pub contents-write :
      (w : W) (b : Bytes) → (write w b).1 ≡ true → contents (write w b).0 ≡ contents w ++ b

-- `chunkAAD` and `fillAAD`.
unfoldable pub chunk_aad : ℕ → Bytes → Bytes
chunk_aad chunk_number header_nonce = big_endian 8 chunk_number ++ header_nonce

-- `copy` into a zeroed slice of the given size.
unfoldable pub padded : ℕ → Bytes → Bytes
padded n b = take n (b ++ replicate n 0)

-- The 8 reserved bytes and the content key.
unfoldable pub header_payload : Bytes → Bytes
header_payload content_key =
    big_endian 8 header_reserved_value ++ padded (header_payload_size - 8) content_key

module _ (gcm : Gcm) where
  -- `EncryptChunk`; the nonce is what `GenerateNonce` drew.
  unfoldable pub encrypt_chunk :
      Bytes → Option Bytes → Bytes → ℕ → Bytes → Result ContentError Bytes
  encrypt_chunk key drawn plaintext chunk_number header_nonce = do
    nonce ← or_fail drawn ContentError.rand_failed
    ok (nonce ++ gcm.seal key nonce plaintext (chunk_aad chunk_number header_nonce))

  -- `DecryptChunk`.
  unfoldable pub decrypt_chunk : Bytes → Bytes → ℕ → Bytes → Result ContentError Bytes
  decrypt_chunk key chunk_data chunk_number header_nonce = do
    guard (not (ltb (length chunk_data) (chunk_nonce_size + chunk_tag_size)))
        ContentError.corrupt_content
    let nonce = take chunk_nonce_size chunk_data
    let ciphertext = drop chunk_nonce_size chunk_data
    or_fail (gcm.unseal key nonce ciphertext (chunk_aad chunk_number header_nonce))
        ContentError.corrupt_content

  -- `WriteFileHeader`: what it writes and what it returns.
  unfoldable pub write_file_header :
      (sink : Sink)
      → sink.W
      → Bytes
      → Bytes
      → Option Bytes
      → Result ContentError (sink.W × FileHeader)
  write_file_header sink w master_key content_key drawn = do
    nonce ← or_fail drawn ContentError.rand_failed
    guard (is_key_size master_key) ContentError.invalid_key_size
    let payload = header_payload content_key
    let ciphertext = gcm.seal master_key nonce payload []
    let (w1, wrote_nonce) = sink.write w nonce
    guard wrote_nonce ContentError.write_failed
    let (w2, wrote_payload) = sink.write w1 ciphertext
    guard wrote_payload ContentError.write_failed
    ok (w2, record { nonce = nonce; content_key = content_key })

  -- `ReadFileHeader` on the bytes that the reader holds.
  unfoldable pub read_file_header : Bytes → Bytes → Result ContentError FileHeader
  read_file_header input master_key = do
    let header_bytes = take header_size input
    guard (length header_bytes == header_size) ContentError.header_unreadable
    let nonce = take header_nonce_size header_bytes
    let ciphertext = drop header_nonce_size header_bytes
    guard (is_key_size master_key) ContentError.invalid_key_size
    payload ← or_fail (gcm.unseal master_key nonce ciphertext []) ContentError.header_not_authentic
    guard (from_big_endian (take 8 payload) == header_reserved_value)
        ContentError.invalid_header_reserved_field
    ok (record { nonce = nonce; content_key = padded 32 (drop 8 payload) })
