-- ===== src/Tests/Keys.antt =====
-- Key wrap and vault keys on concrete data.
use cryp.Prelude.{ℕ, [], ◌≡◌, refl, ok, err, Result, arith, replicate, ◌>>=◌}
use cryp.Bytes.{Bytes, IsBytes, xor_bytes, big_endian}
use cryp.Crypto.KeyWrap.{
  registers, joined, counter, wrap_step, wrap_round, wrap_rounds, aes_key_wrap, aes_key_unwrap,
}
use cryp.Crypto.KeyWrap.Inverse.{aes_key_unwrap-aes_key_wrap, aes_key_wrap_of_unwrap}
use cryp.Crypto.Keys.{
  VaultKeys, VaultConfig, random_bytes, derive_kek, generate_vault_keys, create_vault_config,
  unlock_vault,
}
use cryp.Crypto.Keys.Unlock.{AreKeys, unlock_vault-create_vault_config}
use cryp.Toy.{toy_aes, toy_rand, toy_scrypt}

abbrev kek : Bytes
kek = replicate 32 7

abbrev key_data : Bytes
key_data = replicate 16 200

aes_key_unwrap-aes_key_wrap_example :
    (aes_key_wrap toy_aes kek key_data >>= aes_key_unwrap toy_aes kek) ≡ ok key_data
aes_key_unwrap-aes_key_wrap_example =
    aes_key_unwrap-aes_key_wrap toy_aes kek key_data refl (refl, omega arith, omega arith)

-- The result of a call that succeeds.
got : {A E : Type 0} → A → Result E A → A
got a (ok b) = b
got a (err e) = a

abbrev wrapped_data : Bytes
unfolding got aes_key_wrap
wrapped_data = got [] (aes_key_wrap toy_aes kek key_data)

unwraps_data : aes_key_unwrap toy_aes kek wrapped_data ≡ ok key_data
unfolding got aes_key_wrap
unwraps_data =
    aes_key_unwrap-aes_key_wrap toy_aes kek key_data refl (refl, omega arith, omega arith)

wrapped_data-IsBytes : IsBytes wrapped_data
unfolding got aes_key_wrap wrap_rounds wrap_round wrap_step registers joined counter xor_bytes
    big_endian
wrapped_data-IsBytes = omega arith

aes_key_wrap_of_unwrap_example : aes_key_wrap toy_aes kek key_data ≡ ok wrapped_data
aes_key_wrap_of_unwrap_example =
    aes_key_wrap_of_unwrap toy_aes kek wrapped_data key_data wrapped_data-IsBytes unwraps_data

-- A new vault and its keys.
abbrev vault : VaultConfig × VaultKeys × ℕ
unfolding got create_vault_config
vault =
    got
      (
        record {
          scrypt_salt = [];
          cost_n = 0;
          cost_r = 0;
          cost_p = 0;
          wrapped_master_key = [];
          wrapped_mac_key = [];
        },
        record { master_key = []; mac_key = [] },
        0,
      )
      (create_vault_config toy_rand toy_aes toy_scrypt (replicate 9 65) 3)

created :
    create_vault_config toy_rand toy_aes toy_scrypt (replicate 9 65) 3
    ≡ ok (vault.0, vault.1, vault.2)
unfolding got create_vault_config random_bytes derive_kek generate_vault_keys aes_key_wrap
created = refl

unlock_vault-create_vault_config_example :
    (unlock_vault toy_aes toy_scrypt (replicate 9 65) vault.0 ≡ ok vault.1) × AreKeys vault.1
unlock_vault-create_vault_config_example =
    unlock_vault-create_vault_config toy_aes toy_scrypt toy_rand (replicate 9 65) 3 vault.0 vault.1
      vault.2 created
