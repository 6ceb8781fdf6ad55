-- ===== src/Crypto/Keys/Unlock.antt =====
-- A vault that was just created is unlocked by its password.
use cryp.Prelude.{
  ℕ, ◌≡◌, refl, sym, ap, ◌∙◌, true, some, arith, length, Option-cases, inl, inr, Result, ok, err,
  ◌>>=◌, subst, >>=-elim, >>=-eq-ok, or_fail-eq-ok, guard-eq-ok,
}
use cryp.Bytes.{Bytes, IsBytes}
use cryp.Crypto.Aes.{Aes, Rand, is_key_size}
use cryp.Crypto.KeyWrap.{WrapError, aes_key_wrap, aes_key_unwrap}
use cryp.Crypto.KeyWrap.Inverse.{aes_key_unwrap-aes_key_wrap}
use cryp.Crypto.Keys.{
  VaultKeys, VaultConfig, KeysError, Scrypt, as_error, derive_kek, unlock_vault, random_bytes,
  generate_vault_keys, create_vault_config, scrypt_n, scrypt_r, scrypt_p, master_key_size,
}

-- Both keys have 32 bytes.
abbrev pub AreKeys : VaultKeys → Type 0
AreKeys k =
    (length k.master_key ≡ 32) × IsBytes k.master_key × (length k.mac_key ≡ 32) × IsBytes k.mac_key

as_error-eq-ok :
    {A : Type 0} (f : WrapError → KeysError) (r : Result WrapError A) {a : A}
    → as_error f r ≡ ok a
    → r ≡ ok a
as_error-eq-ok f (ok a) h = cc
as_error-eq-ok f (err e) h = cc

is_key_size_32 : (key : Bytes) → length key ≡ 32 → is_key_size key ≡ true
is_key_size_32 key h = ground arith

module _ (rand : Rand) where
  random_bytes_shape :
      (n : ℕ) (s : rand.Seed) (r : Bytes × rand.Seed)
      → random_bytes rand n s ≡ ok r
      → (length r.0 ≡ n) × IsBytes r.0
  unfolding random_bytes
  random_bytes_shape n s r e = elim (Option-cases (rand.read s n).0) [
    | inl failed ↦ absurd (ground arith)
    | inr (b, got) ↦
        let got' : (rand.read s n).0 ≡ some r.0 = ground arith in
        (rand.read_size s n r.0 got', rand.read-IsBytes s n r.0 got')
  ]

  -- Fresh keys have 32 bytes each.
  generate_vault_keys-AreKeys :
      (s : rand.Seed) (r : VaultKeys × rand.Seed) → generate_vault_keys rand s ≡ ok r → AreKeys r.0
  unfolding generate_vault_keys
  generate_vault_keys-AreKeys s r e =
      let (a, ga, ea) = >>=-eq-ok (random_bytes rand 32 s) _ e in
      let (b, gb, eb) = >>=-eq-ok (random_bytes rand 32 a.1) _ ea in
      let ha = random_bytes_shape 32 s a ga in
      let hb = random_bytes_shape 32 a.1 b gb in
      let keys : record { master_key = a.0; mac_key = b.0 } ≡ r.0 = ground arith in
      subst AreKeys keys (ha.0, ha.1, hb.0, hb.1)

module _ (aes : Aes) (scrypt : Scrypt) where
  derive_kek_shape :
      (password salt kek : Bytes)
      → derive_kek aes scrypt password salt ≡ ok kek
      → (scrypt.key password salt scrypt_n scrypt_r scrypt_p master_key_size ≡ some kek)
        × (is_key_size kek ≡ true)
  unfolding derive_kek
  derive_kek_shape password salt kek e =
      let found : scrypt.key password salt scrypt_n scrypt_r scrypt_p master_key_size ≡ some kek =
        or_fail-eq-ok (scrypt.key password salt scrypt_n scrypt_r scrypt_p master_key_size)
          KeysError.scrypt_failed (guard-eq-ok _ _ _ e).1 in
      let size : length kek ≡ 32 =
        scrypt.key_size password salt scrypt_n scrypt_r scrypt_p master_key_size kek found in
      (found, is_key_size_32 kek size)

  unwraps :
      (kek p c : Bytes)
      → is_key_size kek ≡ true
      → length p ≡ 32
      → IsBytes p
      → aes_key_wrap aes kek p ≡ ok c
      → aes_key_unwrap aes kek c ≡ ok p
  unwraps kek p c k size bytes e =
      ap (λ (r : Result WrapError Bytes). r >>= aes_key_unwrap aes kek) (sym e)
      ∙ aes_key_unwrap-aes_key_wrap aes kek p k (omega arith, omega arith, bytes)

  -- When CreateVaultConfig succeeds, UnlockVault with the same password and the configuration
  -- returns the same keys, both of 32 bytes.
  pub unlock_vault-create_vault_config :
      (rand : Rand) (password : Bytes) (seed : rand.Seed) (config : VaultConfig) (keys : VaultKeys)
      (seed' : rand.Seed)
      → create_vault_config rand aes scrypt password seed ≡ ok (config, keys, seed')
      → (unlock_vault aes scrypt password config ≡ ok keys) × AreKeys keys
  unfolding create_vault_config unlock_vault
  unlock_vault-create_vault_config rand password seed config keys seed' e =
      >>=-elim (random_bytes rand 16 seed) _ e λ s _ es.
        >>=-elim (derive_kek aes scrypt password s.0) _ es λ kek gk ek.
          >>=-elim (generate_vault_keys rand s.1) _ ek λ g gg eg.
            >>=-elim (as_error KeysError.wrap_failed (aes_key_wrap aes kek g.0.master_key)) _ eg
              λ wm gm em.
                >>=-elim (as_error KeysError.wrap_failed (aes_key_wrap aes kek g.0.mac_key)) _ em
                  λ wc gc ec.
                    let h = generate_vault_keys-AreKeys rand s.1 g gg in
                    let (found, good) = derive_kek_shape password s.0 kek gk in
                    let master =
                      unwraps kek g.0.master_key wm good h.0 h.1 (as_error-eq-ok _ _ gm) in
                    let mac = unwraps kek g.0.mac_key wc good h.2 h.3 (as_error-eq-ok _ _ gc) in
                    let same_config : record {
                      scrypt_salt = s.0;
                      cost_n = scrypt_n;
                      cost_r = scrypt_r;
                      cost_p = scrypt_p;
                      wrapped_master_key = wm;
                      wrapped_mac_key = wc;
                    }
                        ≡ config =
                      ground arith in
                    let same_keys : g.0 ≡ keys = ground arith in
                    rw (← same_config, ← same_keys, found, master, mac) (refl, h)
