-- ===== src/Bytes.antt =====
-- Byte slices as lists of numbers, and the helpers on them that several files of the program use:
-- `xorBytes` of internal/crypto/filename.go and Go's `copy`, `make` and big-endian integers.
pub mod Xor
pub mod BigEndian
use cryp.Prelude.{
  ℕ, zero, suc, ltb, Bool, true, ◌&&◌, ◌+◌, ◌*◌, ◌/◌, ◌%◌, ◌^◌, ◌<◌, ◌≡◌, refl, List, [], ◌∷◌, ◌++◌,
  arith, bit_xor, length, drop, take, length-append,
}

abbrev pub Bytes : Type 0
Bytes = List ℕ

-- Every element is a byte.
abbrev pub IsBytes : Bytes → Type 0
IsBytes [] = Unit {0}
IsBytes (x ∷ xs) = (x < 256) × IsBytes xs

-- `for i := 0; i < len(dst) && i < len(src); i++ { dst[i] ^= src[i] }`
unfoldable pub xor_bytes : Bytes → Bytes → Bytes
xor_bytes [] src = []
xor_bytes (x ∷ dst) [] = x ∷ dst
xor_bytes (x ∷ dst) (y ∷ src) = bit_xor x y ∷ xor_bytes dst src

-- `binary.BigEndian.PutUint64`: `n` bytes of `v`, the most significant first.
unfoldable pub big_endian : ℕ → ℕ → Bytes
big_endian zero v = []
big_endian (suc n) v = (v / 2 ^ (8 * n) % 256) ∷ big_endian n v

pub IsBytes-append : (xs ys : Bytes) → IsBytes xs → IsBytes ys → IsBytes (xs ++ ys)
IsBytes-append [] ys h k = k
IsBytes-append (x ∷ xs) ys h k = (h.0, IsBytes-append xs ys h.1 k)

pub IsBytes-take : (n : ℕ) (xs : Bytes) → IsBytes xs → IsBytes (take n xs)
IsBytes-take zero xs h = tt
IsBytes-take (suc n) [] h = tt
IsBytes-take (suc n) (x ∷ xs) h = (h.0, IsBytes-take n xs h.1)

pub IsBytes-drop : (n : ℕ) (xs : Bytes) → IsBytes xs → IsBytes (drop n xs)
IsBytes-drop zero xs h = h
IsBytes-drop (suc n) [] h = tt
IsBytes-drop (suc n) (x ∷ xs) h = IsBytes-drop n xs h.1

pub length-xor_bytes : (dst src : Bytes) → length (xor_bytes dst src) ≡ length dst
unfolding xor_bytes
length-xor_bytes [] src = refl
length-xor_bytes (x ∷ dst) [] = refl
length-xor_bytes (x ∷ dst) (y ∷ src) = omega (arith, length-xor_bytes dst src)

pub length-big_endian : (n v : ℕ) → length (big_endian n v) ≡ n
unfolding big_endian
length-big_endian zero v = refl
length-big_endian (suc n) v = omega (arith, length-big_endian n v)

pub IsBytes-big_endian : (n v : ℕ) → IsBytes (big_endian n v)
unfolding big_endian
IsBytes-big_endian zero v = tt
IsBytes-big_endian (suc n) v = (omega arith, IsBytes-big_endian n v)

unfoldable pub all_bytes : Bytes → Bool
all_bytes [] = true
all_bytes (x ∷ xs) = let rest = all_bytes xs in ltb x 256 && rest

-- Literals are bytes by the test.
pub all_bytes-IsBytes : (xs : Bytes) → all_bytes xs ≡ true → IsBytes xs
unfolding all_bytes
all_bytes-IsBytes [] h = tt
all_bytes-IsBytes (x ∷ xs) h = (ground (arith, h), all_bytes-IsBytes xs (ground (arith, h)))
