-- ===== src/Crypto.antt =====
-- internal/crypto: keys, file contents, file names.
pub mod Aes
pub mod Base64
pub mod KeyWrap
pub mod Siv
pub mod Names
pub mod Vault
pub mod Keys
pub mod Gcm
pub mod Content
