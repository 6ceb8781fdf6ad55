-- ===== src/Crypto/Keys.antt =====
-- internal/crypto/keys.go: the vault keys, their configuration on disk, and unlocking. The password
-- hash is golang.org/x/crypto/scrypt, a parameter; key wrap is the model of `AESKeyWrap`.
pub mod Unlock
use cryp.Prelude.{
  ℕ, ◌+◌, ◌≡◌, Bool, Option, none, some, List, [], ◌∷◌, map, ◌==◌, length, Result, ok, err, guard,
  or_fail, ◌>>=◌, ◌>>◌,
}
use cryp.Bytes.{Bytes}
use cryp.Crypto.Aes.{Aes, Rand}
use cryp.Crypto.KeyWrap.{WrapError, aes_key_wrap, aes_key_unwrap}

abbrev pub scrypt_n : ℕ
scrypt_n = 32768

abbrev pub scrypt_r : ℕ
scrypt_r = 8

abbrev pub scrypt_p : ℕ
scrypt_p = 1

abbrev pub salt_size : ℕ
salt_size = 16

abbrev pub master_key_size : ℕ
master_key_size = 32

abbrev pub mac_key_size : ℕ
mac_key_size = 32

pub record VaultKeys : Type 0 where
  pub master_key : Bytes
  pub mac_key : Bytes

-- `Zero`: every byte of both slices is overwritten.
unfoldable pub zero_keys : VaultKeys → VaultKeys
zero_keys k = record { master_key = map (λ _. 0) k.master_key; mac_key = map (λ _. 0) k.mac_key }

pub record VaultConfig : Type 0 where
  pub scrypt_salt : Bytes
  pub cost_n : ℕ
  pub cost_r : ℕ
  pub cost_p : ℕ
  pub wrapped_master_key : Bytes
  pub wrapped_mac_key : Bytes

pub data KeysError : Type 0 where
  rand_failed invalid_salt_size scrypt_failed : KeysError
  wrap_failed unwrap_master_failed unwrap_mac_failed : WrapError → KeysError

-- `scrypt.Key(password, salt, N, r, p, keyLen)`; `none` is its error on bad parameters. Keys have
-- the length asked for.
pub record Scrypt : Type 0 where
  pub key : Bytes → Bytes → ℕ → ℕ → ℕ → ℕ → Option Bytes
  pub key_size :
      (password salt : Bytes) (n r p size : ℕ) (k : Bytes)
      → key password salt n r p size ≡ some k
      → length k ≡ size

-- The error of `AESKeyWrap` or `AESKeyUnwrap`, wrapped by `fmt.Errorf`.
abbrev pub as_error :
    {A : Type 0} → (WrapError → KeysError) → Result WrapError A → Result KeysError A
as_error f (ok a) = ok a
as_error f (err e) = err (f e)

module _ (aes : Aes) (scrypt : Scrypt) where
  -- `DeriveKEK`.
  unfoldable pub derive_kek : Bytes → Bytes → Result KeysError Bytes
  derive_kek password salt = do
    guard (length salt == salt_size) KeysError.invalid_salt_size
    or_fail (scrypt.key password salt scrypt_n scrypt_r scrypt_p master_key_size)
        KeysError.scrypt_failed

  -- `UnlockVault`.
  unfoldable pub unlock_vault : Bytes → VaultConfig → Result KeysError VaultKeys
  unlock_vault password config = do
    kek ←
        or_fail
          (scrypt.key password config.scrypt_salt config.cost_n config.cost_r config.cost_p
            master_key_size)
          KeysError.scrypt_failed
    master_key ←
        as_error KeysError.unwrap_master_failed (aes_key_unwrap aes kek config.wrapped_master_key)
    mac_key ← as_error KeysError.unwrap_mac_failed (aes_key_unwrap aes kek config.wrapped_mac_key)
    ok (record { master_key = master_key; mac_key = mac_key })

module _ (rand : Rand) where
  -- `rand.Read(make([]byte, n))`, with the source of randomness as it is afterwards.
  unfoldable pub random_bytes : ℕ → rand.Seed → Result KeysError (Bytes × rand.Seed)
  random_bytes n seed =
      let (b, rest) = rand.read seed n in
      elim b [ none ↦ err KeysError.rand_failed | some bytes ↦ ok (bytes, rest) ]

  -- `GenerateVaultKeys`.
  unfoldable pub generate_vault_keys : rand.Seed → Result KeysError (VaultKeys × rand.Seed)
  generate_vault_keys seed = do
    (master_key, seed1) ← random_bytes master_key_size seed
    (mac_key, seed2) ← random_bytes mac_key_size seed1
    ok (record { master_key = master_key; mac_key = mac_key }, seed2)

  -- `CreateVaultConfig`.
  unfoldable pub create_vault_config :
      (aes : Aes) (scrypt : Scrypt)
      → Bytes
      → rand.Seed
      → Result KeysError (VaultConfig × VaultKeys × rand.Seed)
  create_vault_config aes scrypt password seed = do
    (salt, seed1) ← random_bytes salt_size seed
    kek ← derive_kek aes scrypt password salt
    (keys, seed2) ← generate_vault_keys seed1
    wrapped_master ← as_error KeysError.wrap_failed (aes_key_wrap aes kek keys.master_key)
    wrapped_mac ← as_error KeysError.wrap_failed (aes_key_wrap aes kek keys.mac_key)
    ok (
      record {
        scrypt_salt = salt;
        cost_n = scrypt_n;
        cost_r = scrypt_r;
        cost_p = scrypt_p;
        wrapped_master_key = wrapped_master;
        wrapped_mac_key = wrapped_mac;
      },
      keys,
      seed2,
    )
