-- ===== src/Crypto/Siv/Field.antt =====
-- `dbl` is multiplication by x in the field of 2^128 elements with the polynomial
-- x^128 + x^7 + x^2 + x + 1, read from the bytes of a block.
use cryp.Prelude.{
  ℕ, suc, ◌+◌, ◌-◌, ◌*◌, ◌/◌, ◌^◌, ◌<◌, ◌≡◌, refl, sym, ap, ◌∙◌, subst, ==_iff, false, Bool-cases,
  inl, inr, [], ◌∷◌, ◌==◌, ltb, bit_and, bit_xor, length, arith, if◌then◌else◌,
}
use cryp.Bytes.{Bytes, IsBytes}
use cryp.Bytes.Xor.{bit_xor_high_byte}
use cryp.Bytes.BigEndian.{from_big_endian, pow-byte}
use cryp.Crypto.Siv.{shift_left, xor_last, dbl}
use cryp.Crypto.Siv.Doubling.{shift_left_value, IsBytes-shift_left, top_bit, length-xor_last}

-- The bytes above the last one, as a number.
pub upper : Bytes → ℕ
upper [] = 0
upper (x ∷ []) = 0
upper (x ∷ y ∷ xs) = x * 2 ^ (8 * length xs) + upper (y ∷ xs)

pub lowest : Bytes → ℕ
lowest [] = 0
lowest (x ∷ []) = x
lowest (x ∷ y ∷ xs) = lowest (y ∷ xs)

pub lowest_lt : (xs : Bytes) → IsBytes xs → lowest xs < 256
unfolding lowest
lowest_lt [] h = omega arith
lowest_lt (x ∷ []) h = h.0
lowest_lt (x ∷ y ∷ xs) h = lowest_lt (y ∷ xs) h.1

pub upper-lowest : (xs : Bytes) → from_big_endian xs ≡ upper xs * 256 + lowest xs
unfolding upper lowest from_big_endian
upper-lowest [] = omega arith
upper-lowest (x ∷ []) = omega arith
upper-lowest (x ∷ y ∷ xs) =
    omega (arith, upper-lowest (y ∷ xs), ap (λ (t : ℕ). x * t) (pow-byte (length xs)))

upper-xor_last : (xs : Bytes) (m : ℕ) → upper (xor_last xs m) ≡ upper xs
unfolding upper xor_last
upper-xor_last [] m = refl
upper-xor_last (x ∷ []) m = refl
upper-xor_last (x ∷ y ∷ []) m = refl
upper-xor_last (x ∷ y ∷ z ∷ xs) m =
    rw (length-xor_last (z ∷ xs) m, upper-xor_last (y ∷ z ∷ xs) m) refl

lowest-xor_last :
    (x : ℕ) (xs : Bytes) (m : ℕ) → lowest (xor_last (x ∷ xs) m) ≡ bit_xor (lowest (x ∷ xs)) m
unfolding lowest xor_last
lowest-xor_last x [] m = refl
lowest-xor_last x (y ∷ []) m = refl
lowest-xor_last x (y ∷ z ∷ xs) m = lowest-xor_last y (z ∷ xs) m

xor_last_value :
    (x : ℕ) (xs : Bytes) (m : ℕ)
    → IsBytes (x ∷ xs)
    → m < 256
    → from_big_endian (xor_last (x ∷ xs) m) ≡ bit_xor (from_big_endian (x ∷ xs)) m
xor_last_value x xs m h k =
    upper-lowest (xor_last (x ∷ xs) m)
    ∙ ap (λ (t : ℕ). t * 256 + lowest (xor_last (x ∷ xs) m)) (upper-xor_last (x ∷ xs) m)
    ∙ ap (λ (t : ℕ). upper (x ∷ xs) * 256 + t) (lowest-xor_last x xs m)
    ∙ sym (bit_xor_high_byte (upper (x ∷ xs)) (lowest (x ∷ xs)) m (lowest_lt (x ∷ xs) h) k)
    ∙ ap (λ (t : ℕ). bit_xor t m) (sym (upper-lowest (x ∷ xs)))

from_big_endian-lt : (xs : Bytes) → IsBytes xs → from_big_endian xs < 2 ^ (8 * length xs)
unfolding from_big_endian
from_big_endian-lt [] h = omega arith
from_big_endian-lt (x ∷ xs) h = grind (arith, pow-byte (length xs), from_big_endian-lt xs h.1, h.0)

-- The first byte tells whether the top bit is set.
top_bit_test :
    (x : ℕ) (xs : Bytes)
    → length xs ≡ 15
    → IsBytes (x ∷ xs)
    → ltb (from_big_endian (x ∷ xs)) (2 ^ 127) ≡ (bit_and x 0x80 == 0)
unfolding from_big_endian
top_bit_test x xs size h =
    let e : 8 * length xs ≡ 120 = omega arith in
    let small : from_big_endian xs < 2 ^ 120 = rw e at (from_big_endian-lt xs h.1) in
    rw (e, top_bit x h.0) (ground arith)

-- The shifted bytes are twice the number, without the bit that leaves the block.
shifted :
    (x : ℕ) (xs : Bytes)
    → length xs ≡ 15
    → IsBytes (x ∷ xs)
    → from_big_endian (shift_left (x ∷ xs)).0 + x / 128 * 2 ^ 128 ≡ 2 * from_big_endian (x ∷ xs)
unfolding shift_left
shifted x xs size h =
    let e : 8 * suc (length xs) ≡ 128 = omega arith in
    subst
      (λ (k : ℕ).
        from_big_endian (shift_left (x ∷ xs)).0 + x / 128 * 2 ^ k ≡ 2 * from_big_endian (x ∷ xs))
      e (shift_left_value (x ∷ xs) h)

-- Multiplication by x of a polynomial of degree below 128, given by its bits.
unfoldable pub double : ℕ → ℕ
double v = if ltb v (2 ^ 127) then 2 * v else bit_xor (2 * v - 2 ^ 128) 0x87

reduced :
    (x : ℕ) (xs : Bytes)
    → IsBytes (x ∷ xs)
    → from_big_endian (xor_last (shift_left (x ∷ xs)).0 0x87)
      ≡ bit_xor (from_big_endian (shift_left (x ∷ xs)).0) 0x87
unfolding shift_left
reduced x xs h =
    xor_last_value _ (shift_left xs).0 0x87 (unfold shift_left in IsBytes-shift_left (x ∷ xs) h)
      (omega arith)

one_bit : (b x : ℕ) → b ≡ x / 128 * 128 → (b == 0) ≡ false → x < 256 → x / 128 ≡ 1
one_bit b x e high h = ground arith

-- On a 16-byte block dbl is doubling in GF(2^128): the big-endian number is doubled, and reduced
-- by 0x87 when it leaves 128 bits.
pub dbl_value :
    (b : Bytes) → length b ≡ 16 → IsBytes b → from_big_endian (dbl b) ≡ double (from_big_endian b)
unfolding dbl double
dbl_value [] size h = absurd (omega arith)
dbl_value (x ∷ xs) size h =
    let test = top_bit_test x xs (omega arith) h in
    let twice = shifted x xs (omega arith) h in
    let bit = top_bit x h.0 in
    elim (Bool-cases (bit_and x 0x80 == 0)) [
      | inl low ↦ rw (test, low) (omega (arith, twice, bit, (==_iff (bit_and x 0x80) 0).0 low, h.0))
      | inr high ↦
          rw (test, high)
            (reduced x xs h
              ∙ ap (λ (t : ℕ). bit_xor t 0x87)
                  (omega (arith, twice, one_bit (bit_and x 0x80) x bit high h.0)))
    ]
