-- ===== src/Crypto/Names/Laws.antt =====
-- Encrypted names are read back, and name one file each within a directory.
use cryp.Prelude.{
  ◌<◌, ◌≡◌, refl, sym, ap, ◌∙◌, true, not, arith, ◌==◌, ==_iff, length, take, drop, length-take,
  length-drop, ok, guard-eq-ok, >>=-elim, subst,
}
use cryp.Bytes.{Bytes, IsBytes}
use cryp.Crypto.Aes.{Aes, is_key_size}
use cryp.Crypto.Base64.{base64_encode}
use cryp.Crypto.Base64.RoundTrip.{base64_decode-base64_encode, IsBytes-base64_encode}
use cryp.Crypto.Siv.{siv_encrypt}
use cryp.Crypto.Siv.Inverse.{siv_decrypt-siv_encrypt}
use cryp.Crypto.Names.{encrypt_file_name, decrypt_file_name}

half_size : (key : Bytes) → length key ≡ 16 → is_key_size key ≡ true
half_size key h = ground arith

nonempty_test : (name : Bytes) → 0 < length name → not (length name == 0) ≡ true
nonempty_test name h = ground arith

module _ (aes : Aes) (mac_key : Bytes) where
  -- Under a 32-byte MAC key EncryptFileName succeeds on every nonempty name, and
  -- DecryptFileName under the same directory id returns the name.
  pub decrypt_file_name-encrypt_file_name :
      (name dir_id : Bytes)
      → length mac_key ≡ 32
      → 0 < length name
      → IsBytes name
      → IsBytes dir_id
      → (e : Bytes) × (encrypt_file_name aes mac_key name dir_id ≡ ok e)
        × (decrypt_file_name aes mac_key e dir_id ≡ ok name)
  unfolding encrypt_file_name decrypt_file_name
  decrypt_file_name-encrypt_file_name name dir_id size nonempty hn hd =
      let front = half_size (take 16 mac_key) (omega (arith, length-take 16 mac_key)) in
      let back = half_size (drop 16 mac_key) (omega (arith, length-drop 16 mac_key)) in
      let (c, enc, bytes, dec) =
        siv_decrypt-siv_encrypt aes (take 16 mac_key) (drop 16 mac_key) name dir_id hn hd front
          back in
      let whole : (length mac_key == 32) ≡ true = (==_iff _ 32).1 size in
      (
        base64_encode c,
        rw (whole, nonempty_test name nonempty, enc) refl,
        rw (whole, base64_decode-base64_encode c bytes) dec,
      )

  -- An encrypted name is base64 text.
  pub encrypt_file_name-base64 :
      (name dir_id e : Bytes)
      → encrypt_file_name aes mac_key name dir_id ≡ ok e
      → (c : Bytes) × (e ≡ base64_encode c)
  unfolding encrypt_file_name
  encrypt_file_name-base64 name dir_id e eq =
      let (good, e1) = guard-eq-ok (length mac_key == 32) _ _ eq in
      let (there, e2) = guard-eq-ok (not (length name == 0)) _ _ e1 in
      >>=-elim (siv_encrypt aes (take 16 mac_key) (drop 16 mac_key) name dir_id) _ e2
        λ c got e3. (c, ground (arith, e3))

  pub encrypt_file_name-IsBytes :
      (name dir_id e : Bytes) → encrypt_file_name aes mac_key name dir_id ≡ ok e → IsBytes e
  encrypt_file_name-IsBytes name dir_id e eq =
      let (c, same) = encrypt_file_name-base64 name dir_id e eq in
      subst (λ (t : Bytes). IsBytes t) (sym same) (IsBytes-base64_encode c)

  -- Under a 32-byte MAC key, two nonempty names of one directory with the same encrypted name
  -- are equal.
  pub encrypt_file_name_injective :
      (m n dir_id e : Bytes)
      → length mac_key ≡ 32
      → 0 < length m
      → 0 < length n
      → IsBytes m
      → IsBytes n
      → IsBytes dir_id
      → encrypt_file_name aes mac_key m dir_id ≡ ok e
      → encrypt_file_name aes mac_key n dir_id ≡ ok e
      → m ≡ n
  encrypt_file_name_injective m n dir_id e size pm pn hm hn hd em en =
      let (e1, f1, b1) = decrypt_file_name-encrypt_file_name m dir_id size pm hm hd in
      let (e2, f2, b2) = decrypt_file_name-encrypt_file_name n dir_id size pn hn hd in
      let s1 : e1 ≡ e = cc (sym f1 ∙ em) in
      let s2 : e2 ≡ e = cc (sym f2 ∙ en) in
      cc (sym b1 ∙ ap (λ (t : Bytes). decrypt_file_name aes mac_key t dir_id) (s1 ∙ sym s2) ∙ b2)
