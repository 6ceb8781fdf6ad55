-- ===== src/Int64.antt =====
-- Go's int64 in two's complement: a bit pattern below 2^64, negative from 2^63 on. Sums and products
-- wrap, and division rounds towards zero.
use cryp.Prelude.{ℕ, ◌+◌, ◌-◌, ◌*◌, ◌/◌, ◌%◌, ◌^◌, Bool, ◌&&◌, ◌||◌, not, ltb, leb, if◌then◌else◌}

abbrev pub is_negative : ℕ → Bool
is_negative x = leb (2 ^ 63) x

abbrev pub negate : ℕ → ℕ
negate x = (2 ^ 64 - x) % 2 ^ 64

abbrev pub add64 : ℕ → ℕ → ℕ
add64 a b = (a + b) % 2 ^ 64

abbrev pub sub64 : ℕ → ℕ → ℕ
sub64 a b = (a + 2 ^ 64 - b) % 2 ^ 64

abbrev pub mul64 : ℕ → ℕ → ℕ
mul64 a b = a * b % 2 ^ 64

-- `x / k` and `x % k` for a positive k.
abbrev pub quot64 : ℕ → ℕ → ℕ
quot64 x k = if is_negative x then negate ((2 ^ 64 - x) / k) else x / k

abbrev pub rem64 : ℕ → ℕ → ℕ
rem64 x k = if is_negative x then negate ((2 ^ 64 - x) % k) else x % k

-- `x > 0` and, for a nonnegative k, `x <= k` and `x < k`.
abbrev pub is_positive : ℕ → Bool
is_positive x = ltb 0 x && not (is_negative x)

abbrev pub le64 : ℕ → ℕ → Bool
le64 x k = is_negative x || leb x k

abbrev pub lt64 : ℕ → ℕ → Bool
lt64 x k = is_negative x || ltb x k

-- `a <= b` for any two values.
abbrev pub le_signed64 : ℕ → ℕ → Bool
le_signed64 a b = leb (add64 a (2 ^ 63)) (add64 b (2 ^ 63))
