-- ===== src/Crypto/Siv/Doubling.antt =====
-- `dbl` doubles in the field with 2^128 elements, over bytes.
use cryp.Prelude.{
  ℕ, zero, suc, ◌+◌, ◌*◌, ◌/◌, ◌%◌, ◌^◌, ◌<◌, ◌≡◌, refl, ap, Bool, true, ◌&&◌, [], ◌∷◌, ◌==◌,
  ==_iff, bit_and, bit_or, length, arith,
}
use cryp.Bytes.{Bytes, IsBytes}
use cryp.Bytes.Xor.{bit_xor-IsByte}
use cryp.Bytes.BigEndian.{from_big_endian, pow-byte}
use cryp.Crypto.Siv.{shift_left, xor_last, dbl}

holds_below : (ℕ → Bool) → ℕ → Bool
holds_below test zero = true
holds_below test (suc bound) = holds_below test bound && test bound

holds_at :
    (test : ℕ → Bool) (bound byte : ℕ)
    → byte < bound
    → holds_below test bound ≡ true
    → test byte ≡ true
unfolding holds_below
holds_at test zero byte small passed = absurd (omega arith)
holds_at test (suc bound) byte small passed = ground (arith, holds_at test bound byte)

carry_table :
    holds_below
      (λ x. (bit_or (x * 2 % 256) 0 == x * 2 % 256) && (bit_or (x * 2 % 256) 1 == x * 2 % 256 + 1))
      256
    ≡ true
unfolding holds_below
carry_table = refl

top_bit_table : holds_below (λ x. bit_and x 0x80 == x / 128 * 128) 256 ≡ true
unfolding holds_below
top_bit_table = refl

-- Putting the carry into the free lowest bit adds it.
bit_or_carry : (x c : ℕ) → x < 256 → c < 2 → bit_or (x * 2 % 256) c ≡ x * 2 % 256 + c
bit_or_carry x zero h k = let t = holds_at _ 256 x h carry_table in ground arith
bit_or_carry x (suc zero) h k = let t = holds_at _ 256 x h carry_table in ground arith
bit_or_carry x (suc (suc c)) h k = absurd (omega arith)

pub top_bit : (x : ℕ) → x < 256 → bit_and x 0x80 ≡ x / 128 * 128
top_bit x h = (==_iff _ _).0 (holds_at _ 256 x h top_bit_table)

pub length-shift_left : (xs : Bytes) → length (shift_left xs).0 ≡ length xs
unfolding shift_left
length-shift_left [] = refl
length-shift_left (x ∷ xs) = ap suc (length-shift_left xs)

shift_left_carry : (xs : Bytes) → IsBytes xs → (shift_left xs).1 < 2
unfolding shift_left
shift_left_carry [] h = omega arith
shift_left_carry (x ∷ xs) h = omega (arith, h.0)

pub IsBytes-shift_left : (xs : Bytes) → IsBytes xs → IsBytes (shift_left xs).0
unfolding shift_left
IsBytes-shift_left [] h = tt
IsBytes-shift_left (x ∷ xs) h = (
  omega (
    arith,
    bit_or_carry x (shift_left xs).1 h.0 (shift_left_carry xs h.1),
    shift_left_carry xs h.1,
  ),
  IsBytes-shift_left xs h.1,
)

-- The shifted bytes and the carry are twice the number.
pub shift_left_value :
    (xs : Bytes)
    → IsBytes xs
    → from_big_endian (shift_left xs).0 + (shift_left xs).1 * 2 ^ (8 * length xs)
      ≡ 2 * from_big_endian xs
unfolding shift_left from_big_endian
shift_left_value [] h = omega arith
shift_left_value (x ∷ xs) h =
    let c = (shift_left xs).1 in
    let p = 2 ^ (8 * length xs) in
    let byte : x * 2 ≡ x * 2 % 256 + 256 * (x / 128) = omega arith in
    rw (length-shift_left xs, bit_or_carry x c h.0 (shift_left_carry xs h.1), pow-byte (length xs))
      (omega (arith, shift_left_value xs h.1, ap (λ (t : ℕ). t * p) byte))

pub length-xor_last : (xs : Bytes) (m : ℕ) → length (xor_last xs m) ≡ length xs
unfolding xor_last
length-xor_last [] m = refl
length-xor_last (x ∷ []) m = refl
length-xor_last (x ∷ y ∷ xs) m = ap suc (length-xor_last (y ∷ xs) m)

pub IsBytes-xor_last : (xs : Bytes) (m : ℕ) → m < 256 → IsBytes xs → IsBytes (xor_last xs m)
unfolding xor_last
IsBytes-xor_last [] m k h = tt
IsBytes-xor_last (x ∷ []) m k h = (bit_xor-IsByte x m h.0 k, tt)
IsBytes-xor_last (x ∷ y ∷ xs) m k h = (h.0, IsBytes-xor_last (y ∷ xs) m k h.1)

pub length-dbl : (xs : Bytes) → length (dbl xs) ≡ length xs
unfolding dbl
length-dbl xs = ground (arith, length-shift_left xs, length-xor_last (shift_left xs).0 0x87)

pub IsBytes-dbl : (xs : Bytes) → IsBytes xs → IsBytes (dbl xs)
unfolding dbl
IsBytes-dbl xs h =
    let out = IsBytes-shift_left xs h in
    ground (arith, IsBytes-xor_last (shift_left xs).0 0x87 (omega arith) out)
