-- ===== src/Bytes/BigEndian.antt =====
-- Reading back what `big_endian` wrote, and that distinct numbers are written differently.
use native.Mathlib.Nat.{pow-suc, div-add-mod', mod-lt, mod-eq_of_lt, add-mul-mod_self_right}
use cryp.Prelude.{
  ℕ, zero, suc, ◌+◌, ◌*◌, ◌/◌, ◌%◌, ◌^◌, ◌<◌, ◌≡◌, sym, ap, ◌∙◌, [], ◌∷◌, arith, length,
}
use cryp.Bytes.{Bytes, big_endian, length-big_endian}

-- `binary.BigEndian.Uint64`: the number that the bytes stand for.
unfoldable pub from_big_endian : Bytes → ℕ
from_big_endian [] = 0
from_big_endian (x ∷ xs) = x * 2 ^ (8 * length xs) + from_big_endian xs

two_pow_pos : (n : ℕ) → 0 < 2 ^ n
two_pow_pos zero = omega arith
two_pow_pos (suc n) = omega (arith, pow-suc 2 n, two_pow_pos n)

pub pow-byte : (n : ℕ) → 2 ^ (8 * suc n) ≡ 256 * 2 ^ (8 * n)
pow-byte n =
    let e : 8 * suc n ≡ suc (suc (suc (suc (suc (suc (suc (suc (8 * n)))))))) = omega arith in
    rw (e, pow-suc, pow-suc, pow-suc, pow-suc, pow-suc, pow-suc, pow-suc, pow-suc) (omega arith)

-- One more digit of base `p * 256`.
mod_split : (p v : ℕ) → 0 < p → v / p % 256 * p + v % p ≡ v % (256 * p)
mod_split p v h =
    let digits : v ≡ (v / p % 256 * p + v % p) + v / p / 256 * (256 * p) =
      omega (arith, div-add-mod' v p, ap (λ (t : ℕ). t * p) (div-add-mod' (v / p) 256)) in
    let small : v / p % 256 * p + v % p < 256 * p = grind (arith, mod-lt v h) in
    sym (
      ap (λ (t : ℕ). t % (256 * p)) digits
      ∙ add-mul-mod_self_right (v / p % 256 * p + v % p) (v / p / 256) (256 * p)
      ∙ mod-eq_of_lt small)

-- `Uint64` reads what `PutUint64` wrote.
pub from_big_endian-big_endian : (n v : ℕ) → from_big_endian (big_endian n v) ≡ v % 2 ^ (8 * n)
unfolding big_endian from_big_endian
from_big_endian-big_endian zero v = omega arith
from_big_endian-big_endian (suc n) v =
    rw (length-big_endian n v, from_big_endian-big_endian n v, pow-byte n)
      (mod_split (2 ^ (8 * n)) v (two_pow_pos (8 * n)))

-- Numbers that fit are told apart by their bytes.
pub big_endian_injective :
    (n v w : ℕ) → v < 2 ^ (8 * n) → w < 2 ^ (8 * n) → big_endian n v ≡ big_endian n w → v ≡ w
big_endian_injective n v w hv hw e =
    sym (mod-eq_of_lt hv)
    ∙ sym (from_big_endian-big_endian n v)
    ∙ ap from_big_endian e
    ∙ from_big_endian-big_endian n w
    ∙ mod-eq_of_lt hw
