-- ===== src/Crypto/Base64.antt =====
-- Go's `base64.RawURLEncoding`, as internal/crypto/filename.go uses it: no padding, the URL alphabet.
-- The decoder skips line ends and does not look at the unused low bits of the last character.
pub mod RoundTrip
use cryp.Prelude.{
  ℕ, zero, suc, ◌+◌, ◌-◌, ◌*◌, ◌/◌, ◌%◌, ◌&&◌, ◌||◌, Bool, Option, none, some, List, [], ◌∷◌, ◌==◌,
  leb, ltb, if◌then◌else◌,
}
use cryp.Bytes.{Bytes}

-- The character of a value below 64.
unfoldable pub to_char : ℕ → ℕ
to_char v =
    if ltb v 26
    then v + 65
    else if ltb v 52
    then v + 71
    else if ltb v 62
    then v - 4
    else if v == 62
    then 45
    else 95

unfoldable pub from_char : ℕ → Option ℕ
from_char c =
    if leb 65 c && leb c 90
    then some (c - 65)
    else if leb 97 c && leb c 122
    then some (c - 71)
    else if leb 48 c && leb c 57
    then some (c + 4)
    else if c == 45
    then some 62
    else if c == 95
    then some 63
    else none

unfoldable pub base64_encode : Bytes → Bytes
base64_encode [] = []
base64_encode (a ∷ []) = to_char (a / 4) ∷ to_char (a % 4 * 16) ∷ []
base64_encode (a ∷ b ∷ []) =
    to_char (a / 4) ∷ to_char (a % 4 * 16 + b / 16) ∷ to_char (b % 16 * 4) ∷ []
base64_encode (a ∷ b ∷ c ∷ rest) =
    to_char (a / 4)
    ∷ to_char (a % 4 * 16 + b / 16)
    ∷ to_char (b % 16 * 4 + c / 64)
    ∷ to_char (c % 64)
    ∷ base64_encode rest

-- The values of the characters, line ends left out.
unfoldable pub char_values : Bytes → Option (List ℕ)
char_values [] = some []
char_values (c ∷ cs) =
    let rest = char_values cs in
    if c == 10 || c == 13 then rest else elim (from_char c) [
      | none ↦ none
      | some v ↦ elim rest [ none ↦ none | some vs ↦ some (v ∷ vs) ]
    ]

unfoldable pub bytes_of_values : List ℕ → Option Bytes
bytes_of_values [] = some []
bytes_of_values (v ∷ []) = none
bytes_of_values (v ∷ w ∷ []) = some ((v * 4 + w / 16) ∷ [])
bytes_of_values (v ∷ w ∷ x ∷ []) = some ((v * 4 + w / 16) ∷ (w % 16 * 16 + x / 4) ∷ [])
bytes_of_values (v ∷ w ∷ x ∷ y ∷ rest) = elim (bytes_of_values rest) [
  | none ↦ none
  | some bs ↦ some ((v * 4 + w / 16) ∷ (w % 16 * 16 + x / 4) ∷ (x % 4 * 64 + y) ∷ bs)
]

unfoldable pub base64_decode : Bytes → Option Bytes
base64_decode text = elim (char_values text) [ none ↦ none | some vs ↦ bytes_of_values vs ]
