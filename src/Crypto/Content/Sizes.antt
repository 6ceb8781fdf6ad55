-- ===== src/Crypto/Content/Sizes.antt =====
-- The size and offset arithmetic of internal/crypto/content.go, over int64 bit patterns.
pub mod Laws
use cryp.Prelude.{ℕ, ◌+◌, ◌*◌, ◌^◌, ◌%◌, ◌==◌, if◌then◌else◌}
use cryp.Int64.{add64, sub64, mul64, quot64, rem64, is_positive, le64, lt64}

abbrev pub header_nonce_size : ℕ
header_nonce_size = 12

abbrev pub header_payload_size : ℕ
header_payload_size = 40

abbrev pub header_tag_size : ℕ
header_tag_size = 16

abbrev pub header_size : ℕ
header_size = header_nonce_size + header_payload_size + header_tag_size

abbrev pub chunk_nonce_size : ℕ
chunk_nonce_size = 12

abbrev pub chunk_payload_size : ℕ
chunk_payload_size = 32 * 1024

abbrev pub chunk_tag_size : ℕ
chunk_tag_size = 16

abbrev pub chunk_cipher_size : ℕ
chunk_cipher_size = chunk_nonce_size + chunk_payload_size + chunk_tag_size

abbrev pub header_reserved_value : ℕ
header_reserved_value = 0xFFFFFFFFFFFFFFFF

-- `PlaintextOffset2CipherOffset`: the offset in the file, the chunk, and the bytes to skip in it.
unfoldable pub plaintext_offset_to_cipher_offset : ℕ → ℕ × ℕ × ℕ
plaintext_offset_to_cipher_offset offset =
    let chunk_index = quot64 offset chunk_payload_size in
    let skip_bytes = rem64 offset chunk_payload_size in
    (add64 header_size (mul64 chunk_index chunk_cipher_size), chunk_index, skip_bytes)

-- `PlaintextSize2CipherSize`.
unfoldable pub plaintext_size_to_cipher_size : ℕ → ℕ
plaintext_size_to_cipher_size size =
    if size == 0
    then header_size
    else let full_chunks = quot64 size chunk_payload_size in
      let remainder = rem64 size chunk_payload_size in
      let base = add64 header_size (mul64 full_chunks chunk_cipher_size) in
      if is_positive remainder
      then add64 base (add64 (add64 chunk_nonce_size remainder) chunk_tag_size)
      else base

-- `CipherSize2PlaintextSize`.
unfoldable pub cipher_size_to_plaintext_size : ℕ → ℕ
cipher_size_to_plaintext_size size =
    if le64 size header_size
    then 0
    else let content = sub64 size header_size in
      let full_chunks = quot64 content chunk_cipher_size in
      let remainder = rem64 content chunk_cipher_size in
      let base = mul64 full_chunks chunk_payload_size in
      if is_positive remainder
      then if lt64 remainder (chunk_nonce_size + chunk_tag_size)
        then base
        else add64 base (sub64 remainder (chunk_nonce_size + chunk_tag_size))
      else base
