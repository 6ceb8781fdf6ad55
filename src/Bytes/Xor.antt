-- ===== src/Bytes/Xor.antt =====
-- Exclusive or: bit by bit from the digit recursion, then over byte slices.
use native.Mathlib.Nat.{pow-suc}
use Prim.Native.Nat.{digits, bit_xor-bitwise, differ}
use cryp.Prelude.{
  ℕ, zero, suc, ◌+◌, ◌*◌, ◌/◌, ◌%◌, ◌^◌, ◌≤◌, ◌<◌, ◌≡◌, refl, ap, ◌∙◌, [], ◌∷◌, arith, bit_xor,
}
use cryp.Bytes.{Bytes, IsBytes, xor_bytes}

abbrev xor_digits : ℕ → ℕ → ℕ → ℕ
xor_digits n a b = digits (λ b. b) differ n a b

-- More digits than the first number has change nothing.
xor_digits_fuel : (x y f g : ℕ) → x ≤ g → x ≤ f → xor_digits f x y ≡ xor_digits g x y
xor_digits_fuel zero y zero zero hg hf = refl
xor_digits_fuel zero y zero (suc g) hg hf = refl
xor_digits_fuel zero y (suc f) zero hg hf = refl
xor_digits_fuel zero y (suc f) (suc g) hg hf = refl
xor_digits_fuel (suc x) y zero g hg hf = absurd (omega arith)
xor_digits_fuel (suc x) y (suc f) zero hg hf = absurd (omega arith)
xor_digits_fuel (suc x) y (suc f) (suc g) hg hf =
    ap (λ (t : ℕ). t * 2 + differ (suc x % 2) (y % 2))
      (xor_digits_fuel (suc x / 2) (y / 2) f g (omega arith) (omega arith))

pub zero-bit_xor : (b : ℕ) → bit_xor 0 b ≡ b
zero-bit_xor b = bit_xor-bitwise 0 b

differ_lem : (x y : ℕ) → x < 2 → y < 2 → differ x y ≡ (x + y) % 2
differ_lem zero zero p q = refl
differ_lem zero (suc zero) p q = refl
differ_lem zero (suc (suc y)) p q = absurd (omega arith)
differ_lem (suc zero) zero p q = refl
differ_lem (suc zero) (suc zero) p q = refl
differ_lem (suc zero) (suc (suc y)) p q = absurd (omega arith)
differ_lem (suc (suc x)) y p q = absurd (omega arith)

-- The lowest bit, and the rest.
pub bit_xor_step : (a b : ℕ) → bit_xor a b ≡ bit_xor (a / 2) (b / 2) * 2 + (a % 2 + b % 2) % 2
bit_xor_step zero b = omega (arith, zero-bit_xor b, zero-bit_xor (b / 2))
bit_xor_step (suc a) b = omega (
  arith,
  bit_xor-bitwise (suc a) b,
  bit_xor-bitwise (suc a / 2) (b / 2),
  xor_digits_fuel (suc a / 2) (b / 2) a (suc a / 2) (omega arith) (omega arith),
  differ_lem (suc a % 2) (b % 2) (omega arith) (omega arith),
)

bit_xor-half : (a b : ℕ) → bit_xor a b / 2 ≡ bit_xor (a / 2) (b / 2)
bit_xor-half a b = omega (arith, bit_xor_step a b)

bit_xor_fuel : (n a b : ℕ) → a + b ≤ n → bit_xor (bit_xor a b) b ≡ a
bit_xor_fuel zero zero zero h = refl
bit_xor_fuel zero a (suc b) h = absurd (omega arith)
bit_xor_fuel zero (suc a) b h = absurd (omega arith)
bit_xor_fuel (suc n) a b h = omega (
  arith,
  bit_xor_step (bit_xor a b) b,
  bit_xor_step a b,
  ap (λ (t : ℕ). bit_xor t (b / 2)) (bit_xor-half a b),
  bit_xor_fuel n (a / 2) (b / 2) (omega arith),
)

-- The same mask twice gives the number back.
pub bit_xor_cancel : (a b : ℕ) → bit_xor (bit_xor a b) b ≡ a
bit_xor_cancel a b = bit_xor_fuel (a + b) a b (omega arith)

-- Exclusive or does not reach beyond the bits of its arguments.
bit_xor-lt_fuel : (k a b : ℕ) → a < 2 ^ k → b < 2 ^ k → bit_xor a b < 2 ^ k
bit_xor-lt_fuel zero zero zero h g = omega arith
bit_xor-lt_fuel zero (suc a) b h g = absurd (omega arith)
bit_xor-lt_fuel zero a (suc b) h g = absurd (omega arith)
bit_xor-lt_fuel (suc k) a b h g = omega (
  arith,
  pow-suc 2 k,
  bit_xor_step a b,
  bit_xor-lt_fuel k (a / 2) (b / 2) (omega (arith, pow-suc 2 k)) (omega (arith, pow-suc 2 k)),
)

pub bit_xor-IsByte : (a b : ℕ) → a < 256 → b < 256 → bit_xor a b < 256
bit_xor-IsByte a b h g = bit_xor-lt_fuel 8 a b h g

bit_xor-comm_fuel : (n a b : ℕ) → a + b ≤ n → bit_xor a b ≡ bit_xor b a
bit_xor-comm_fuel zero zero zero h = refl
bit_xor-comm_fuel zero a (suc b) h = absurd (omega arith)
bit_xor-comm_fuel zero (suc a) b h = absurd (omega arith)
bit_xor-comm_fuel (suc n) a b h =
    omega
      (arith, bit_xor_step a b, bit_xor_step b a, bit_xor-comm_fuel n (a / 2) (b / 2) (omega arith))

pub bit_xor_comm : (a b : ℕ) → bit_xor a b ≡ bit_xor b a
bit_xor_comm a b = bit_xor-comm_fuel (a + b) a b (omega arith)

pub xor_bytes_cancel : (dst src : Bytes) → xor_bytes (xor_bytes dst src) src ≡ dst
unfolding xor_bytes
xor_bytes_cancel [] src = refl
xor_bytes_cancel (x ∷ dst) [] = refl
xor_bytes_cancel (x ∷ dst) (y ∷ src) = cc (bit_xor_cancel x y, xor_bytes_cancel dst src)

pub IsBytes-xor_bytes : (dst src : Bytes) → IsBytes dst → IsBytes src → IsBytes (xor_bytes dst src)
unfolding xor_bytes
IsBytes-xor_bytes [] src h g = tt
IsBytes-xor_bytes (x ∷ dst) [] h g = h
IsBytes-xor_bytes (x ∷ dst) (y ∷ src) h g =
    (bit_xor-IsByte x y h.0 g.0, IsBytes-xor_bytes dst src h.1 g.1)

pub bit_xor-zero : (a : ℕ) → bit_xor a 0 ≡ a
bit_xor-zero a = bit_xor_comm a 0 ∙ zero-bit_xor a

-- Below a multiple of 2^k only the low bits meet a small mask.
bit_xor_high :
    (k q r m : ℕ) → r < 2 ^ k → m < 2 ^ k → bit_xor (2 ^ k * q + r) m ≡ 2 ^ k * q + bit_xor r m
bit_xor_high zero q zero zero hr hm = omega (arith, bit_xor-zero (2 ^ 0 * q + 0), bit_xor-zero 0)
bit_xor_high zero q (suc r) m hr hm = absurd (omega arith)
bit_xor_high zero q r (suc m) hr hm = absurd (omega arith)
bit_xor_high (suc k) q r m hr hm =
    let twice = pow-suc 2 k in
    let half : (2 ^ suc k * q + r) / 2 ≡ 2 ^ k * q + r / 2 =
      omega (arith, ap (λ (t : ℕ). t * q) twice) in
    omega (
      arith,
      ap (λ (t : ℕ). t * q) twice,
      bit_xor_step (2 ^ suc k * q + r) m,
      bit_xor_step r m,
      ap (λ (t : ℕ). bit_xor t (m / 2)) half,
      bit_xor_high k q (r / 2) (m / 2) (omega (arith, twice)) (omega (arith, twice)),
    )

pub bit_xor_high_byte :
    (q r m : ℕ) → r < 256 → m < 256 → bit_xor (q * 256 + r) m ≡ q * 256 + bit_xor r m
bit_xor_high_byte q r m hr hm =
    ap (λ (t : ℕ). bit_xor t m) (omega arith) ∙ bit_xor_high 8 q r m hr hm ∙ omega arith
