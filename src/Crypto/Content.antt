-- ===== src/Crypto/Content.antt =====
-- internal/crypto/content.go: the format of an encrypted file, a header and chunks of at most
-- 32 KiB of plaintext each.
pub mod Sizes
pub mod Chunk
pub mod Stream
pub mod Writer
pub mod Reader
pub mod RoundTrip
