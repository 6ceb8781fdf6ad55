-- ===== src/Tests/Names.antt =====
-- Encrypted names, doubling and base64 on concrete data.
use cryp.Prelude.{◌≡◌, refl, ok, arith, replicate, codes}
use cryp.Bytes.{Bytes, IsBytes}
use cryp.Bytes.BigEndian.{from_big_endian}
use cryp.Crypto.Siv.{dbl, siv_encrypt, siv_decrypt}
use cryp.Crypto.Siv.Field.{double, dbl_value}
use cryp.Crypto.Siv.Inverse.{siv_decrypt-siv_encrypt, siv_encrypt_of_decrypt}
use cryp.Crypto.Names.{encrypt_file_name, decrypt_file_name}
use cryp.Crypto.Names.Laws.{decrypt_file_name-encrypt_file_name}
use cryp.Toy.{toy_aes}

abbrev key : Bytes
key = replicate 16 9

abbrev mac_key : Bytes
mac_key = replicate 32 9

abbrev name : Bytes
name = codes "report.pdf"

abbrev directory : Bytes
directory = codes "root"

name-IsBytes : IsBytes name
name-IsBytes = omega arith

directory-IsBytes : IsBytes directory
directory-IsBytes = omega arith

dbl_value_example :
    from_big_endian (dbl (replicate 16 200)) ≡ double (from_big_endian (replicate 16 200))
dbl_value_example = dbl_value (replicate 16 200) refl (omega arith)

siv_decrypt-siv_encrypt_example :
    (c : Bytes) × (siv_encrypt toy_aes key key name directory ≡ ok c)
    × IsBytes c
    × (siv_decrypt toy_aes key key c directory ≡ ok name)
siv_decrypt-siv_encrypt_example =
    siv_decrypt-siv_encrypt toy_aes key key name directory name-IsBytes directory-IsBytes refl refl

-- The name as AES-SIV and as the file system hold it.
sealed :
    (c : Bytes) × (siv_encrypt toy_aes key key name directory ≡ ok c)
    × IsBytes c
    × (siv_decrypt toy_aes key key c directory ≡ ok name)
sealed =
    siv_decrypt-siv_encrypt toy_aes key key name directory name-IsBytes directory-IsBytes refl refl

stored :
    (e : Bytes) × (encrypt_file_name toy_aes mac_key name directory ≡ ok e)
    × (decrypt_file_name toy_aes mac_key e directory ≡ ok name)
stored =
    decrypt_file_name-encrypt_file_name toy_aes mac_key name directory refl (omega arith)
      name-IsBytes directory-IsBytes

siv_encrypt_of_decrypt_example : siv_encrypt toy_aes key key name directory ≡ ok sealed.0
siv_encrypt_of_decrypt_example =
    siv_encrypt_of_decrypt toy_aes key key sealed.0 name directory sealed.3
