-- ===== src/Crypto/Base64/RoundTrip.antt =====
-- Decoding an encoded text gives it back.
use cryp.Prelude.{
  ℕ, ◌+◌, ◌*◌, ◌/◌, ◌%◌, ◌<◌, ◌≡◌, refl, false, ◌||◌, some, List, [], ◌∷◌, ◌==◌, arith,
}
use cryp.Bytes.{Bytes, IsBytes}
use cryp.Crypto.Base64.{
  to_char, from_char, base64_encode, char_values, bytes_of_values, base64_decode,
}

from_char-to_char : (v : ℕ) → v < 64 → from_char (to_char v) ≡ some v
unfolding from_char to_char
from_char-to_char v h = ground arith

-- No character of the alphabet is a line end.
to_char-ne : (v : ℕ) → v < 64 → (to_char v == 10 || to_char v == 13) ≡ false
unfolding to_char
to_char-ne v h = ground arith

-- The values that an encoded text stands for.
values : Bytes → List ℕ
values [] = []
values (a ∷ []) = (a / 4) ∷ (a % 4 * 16) ∷ []
values (a ∷ b ∷ []) = (a / 4) ∷ (a % 4 * 16 + b / 16) ∷ (b % 16 * 4) ∷ []
values (a ∷ b ∷ c ∷ rest) =
    (a / 4) ∷ (a % 4 * 16 + b / 16) ∷ (b % 16 * 4 + c / 64) ∷ (c % 64) ∷ values rest

one_value :
    (v : ℕ) (cs vs : List ℕ)
    → v < 64
    → char_values cs ≡ some vs
    → char_values (to_char v ∷ cs) ≡ some (v ∷ vs)
unfolding char_values
one_value v cs vs small rest = rw (to_char-ne v small, from_char-to_char v small, rest) refl

char_values-encode : (bs : Bytes) → IsBytes bs → char_values (base64_encode bs) ≡ some (values bs)
unfolding base64_encode values
char_values-encode [] h = unfold char_values in refl
char_values-encode (a ∷ []) h =
    one_value _ _ _ (omega arith) (one_value _ _ _ (omega arith) (unfold char_values in refl))
char_values-encode (a ∷ b ∷ []) h =
    one_value _ _ _ (omega arith)
      (one_value _ _ _ (omega arith) (one_value _ _ _ (omega arith) (unfold char_values in refl)))
char_values-encode (a ∷ b ∷ c ∷ rest) h = one_value _ _ _ (omega arith) (
    one_value _ _ _ (omega arith) (
      one_value _ _ _ (omega arith)
        (one_value _ _ _ (omega arith) (char_values-encode rest h.1.1.1))))

bytes_of_values-values : (bs : Bytes) → IsBytes bs → bytes_of_values (values bs) ≡ some bs
unfolding bytes_of_values values
bytes_of_values-values [] h = refl
bytes_of_values-values (a ∷ []) h = ground arith
bytes_of_values-values (a ∷ b ∷ []) h = ground arith
bytes_of_values-values (a ∷ b ∷ c ∷ rest) h = ground (arith, bytes_of_values-values rest h.1.1.1)

-- The unpadded URL-safe base64 of any bytes decodes to them.
pub base64_decode-base64_encode :
    (bs : Bytes) → IsBytes bs → base64_decode (base64_encode bs) ≡ some bs
unfolding base64_decode
base64_decode-base64_encode bs h =
    rw (char_values-encode bs h, base64_decode) (bytes_of_values-values bs h)

to_char-IsByte : (v : ℕ) → to_char v < 256
unfolding to_char
to_char-IsByte v = ground arith

pub IsBytes-base64_encode : (bs : Bytes) → IsBytes (base64_encode bs)
unfolding base64_encode
IsBytes-base64_encode [] = tt
IsBytes-base64_encode (a ∷ []) = (to_char-IsByte _, (to_char-IsByte _, tt))
IsBytes-base64_encode (a ∷ b ∷ []) = (to_char-IsByte _, (to_char-IsByte _, (to_char-IsByte _, tt)))
IsBytes-base64_encode (a ∷ b ∷ c ∷ rest) = (
  to_char-IsByte _,
  (to_char-IsByte _, (to_char-IsByte _, (to_char-IsByte _, IsBytes-base64_encode rest))),
)
