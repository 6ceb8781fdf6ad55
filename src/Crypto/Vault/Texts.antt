-- ===== src/Crypto/Vault/Texts.antt =====
-- Encrypted names are text without spaces, which `strings.TrimSpace` leaves as it is.
use cryp.Prelude.{
  ◌≡◌, refl, ◌∙◌, ℕ, ◌+◌, ◌*◌, ◌/◌, ◌%◌, Bool, true, ◌&&◌, not, ltb, [], ◌∷◌, ◌++◌, append-nil,
  arith,
}
use cryp.Bytes.{Bytes}
use cryp.GoText.{Text, is_space, space_ahead, space_behind, drop_spaces, backwards, trim_bytes}
use cryp.Crypto.Base64.{to_char, base64_encode}
use cryp.Crypto.Vault.{bytes_eq}

pub bytes_eq_refl : (b : Bytes) → bytes_eq b b ≡ true
unfolding bytes_eq
bytes_eq_refl [] = refl
bytes_eq_refl (x ∷ xs) = ground (arith, bytes_eq_refl xs)

-- Text without spaces is not trimmed.
unfoldable pub spaceless : Bytes → Bool
spaceless [] = true
spaceless (c ∷ cs) = let rest = spaceless cs in not (is_space c) && ltb c 0x80 && rest

to_char-spaceless : (v : ℕ) → not (is_space (to_char v)) && ltb (to_char v) 0x80 ≡ true
unfolding to_char is_space
to_char-spaceless v = ground arith

pub base64_encode-spaceless : (b : Bytes) → spaceless (base64_encode b) ≡ true
unfolding base64_encode spaceless
base64_encode-spaceless [] = refl
base64_encode-spaceless (x ∷ []) =
    ground (arith, to_char-spaceless (x / 4), to_char-spaceless (x % 4 * 16))
base64_encode-spaceless (x ∷ y ∷ []) = ground (
  arith,
  to_char-spaceless (x / 4),
  to_char-spaceless (x % 4 * 16 + y / 16),
  to_char-spaceless (y % 16 * 4),
)
base64_encode-spaceless (x ∷ y ∷ z ∷ rest) = ground (
  arith,
  to_char-spaceless (x / 4),
  to_char-spaceless (x % 4 * 16 + y / 16),
  to_char-spaceless (y % 16 * 4 + z / 64),
  to_char-spaceless (z % 64),
  base64_encode-spaceless rest,
)

space_ahead-spaceless : (t : Bytes) → spaceless t ≡ true → space_ahead t ≡ 0
unfolding space_ahead spaceless
space_ahead-spaceless [] h = refl
space_ahead-spaceless (a ∷ []) h = ground (arith, h)
space_ahead-spaceless (a ∷ b ∷ []) h = ground (arith, h)
space_ahead-spaceless (a ∷ b ∷ c ∷ s) h = ground (arith, h)

space_behind-spaceless : (t : Bytes) → spaceless t ≡ true → space_behind t ≡ 0
unfolding space_behind spaceless
space_behind-spaceless [] h = refl
space_behind-spaceless (c ∷ []) h = ground (arith, h)
space_behind-spaceless (c ∷ b ∷ []) h = ground (arith, h)
space_behind-spaceless (c ∷ b ∷ a ∷ s) h = ground (arith, h)

nothing_dropped : (width : Text → ℕ) (t : Text) → width t ≡ 0 → drop_spaces width 0 t ≡ t
unfolding drop_spaces
nothing_dropped width [] h = refl
nothing_dropped width (c ∷ cs) h = rw (h, drop_spaces) refl

backwards-spaceless :
    (out t : Bytes) → spaceless out ≡ true → spaceless t ≡ true → spaceless (backwards out t) ≡ true
unfolding backwards spaceless
backwards-spaceless out [] h k = h
backwards-spaceless out (c ∷ cs) h k =
    backwards-spaceless (c ∷ out) cs (ground (arith, h, k)) (ground (arith, k))

backwards-backwards : (a b t : Text) → backwards a (backwards b t) ≡ backwards (t ++ a) b
unfolding backwards
backwards-backwards a b [] = refl
backwards-backwards a b (c ∷ cs) = backwards-backwards a (c ∷ b) cs

pub trim_bytes-spaceless : (t : Bytes) → spaceless t ≡ true → trim_bytes t ≡ t
unfolding trim_bytes spaceless backwards
trim_bytes-spaceless t h =
    let front = nothing_dropped space_ahead t (space_ahead-spaceless t h) in
    let turned = backwards [] t in
    let clear = backwards-spaceless [] t refl h in
    let back = nothing_dropped space_behind turned (space_behind-spaceless turned clear) in
    rw (front, back) (backwards-backwards [] [] t ∙ append-nil t)
