-- ===== src/GoText.antt =====
-- What the program uses of Go's strings and strconv packages, on a text as the list of its code
-- points.
use cryp.Prelude.{
  ℕ, zero, suc, ◌%◌, ◌+◌, ◌-◌, ◌*◌, ◌^◌, Bool, true, false, ◌&&◌, ◌||◌, Option, none, some, List,
  [], ◌∷◌, ◌==◌, ltb, leb, if◌then◌else◌, ◌<◌, ◌≡◌, arith, Bool-cases, Option-cases, inl, inr,
}
use cryp.Int64.{negate}

abbrev pub Text : Type 0
Text = List ℕ

-- `==`.
unfoldable pub text_eq : Text → Text → Bool
text_eq [] [] = true
text_eq [] (d ∷ ds) = false
text_eq (c ∷ cs) [] = false
text_eq (c ∷ cs) (d ∷ ds) = let rest = text_eq cs ds in (c == d) && rest

-- `unicode.IsSpace`.
unfoldable pub is_space : ℕ → Bool
is_space c =
    (leb 9 c && leb c 13)
    || (c == 0x20)
    || (c == 0x85)
    || (c == 0xA0)
    || (c == 0x1680)
    || (leb 0x2000 c && leb c 0x200A)
    || (c == 0x2028)
    || (c == 0x2029)
    || (c == 0x202F)
    || (c == 0x205F)
    || (c == 0x3000)

unfoldable pub trim_left : Text → Text
trim_left [] = []
trim_left (c ∷ cs) = let rest = trim_left cs in if is_space c then rest else c ∷ cs

-- A text of spaces only is dropped from the right end.
unfoldable pub trim_right : Text → Text
trim_right [] = []
trim_right (c ∷ cs) = elim (trim_right cs) [
  | [] ↦ if is_space c then [] else c ∷ []
  | d ∷ ds ↦ c ∷ d ∷ ds
]

-- `strings.TrimSpace`.
unfoldable pub trim_space : Text → Text
trim_space s = trim_right (trim_left s)

-- A space of two or three bytes in UTF-8, as its number of bytes or 0.
unfoldable pub two_bytes : ℕ → ℕ → ℕ
two_bytes a b = if (a == 0xC2) && ((b == 0x85) || (b == 0xA0)) then 2 else 0

unfoldable pub three_bytes : ℕ → ℕ → ℕ → ℕ
three_bytes a b c =
    let point = (a % 16) * 4_096 + ((b % 64) * 64 + c % 64) in
    if leb 0xE0 a
      && ltb a 0xF0
      && (leb 0x80 b && ltb b 0xC0)
      && (leb 0x80 c && ltb c 0xC0)
      && leb 0x800 point
      && is_space point
    then 3
    else 0

-- The space that bytes begin with, and the space that they end with, given from the last one on.
unfoldable pub space_ahead : Text → ℕ
space_ahead [] = 0
space_ahead (a ∷ []) = if is_space a && ltb a 0x80 then 1 else 0
space_ahead (a ∷ b ∷ []) = if ltb a 0x80 then if is_space a then 1 else 0 else two_bytes a b
space_ahead (a ∷ b ∷ c ∷ s) =
    if ltb a 0x80
    then if is_space a then 1 else 0
    else if a == 0xC2
    then two_bytes a b
    else three_bytes a b c

unfoldable pub space_behind : Text → ℕ
space_behind [] = 0
space_behind (c ∷ []) = if is_space c && ltb c 0x80 then 1 else 0
space_behind (c ∷ b ∷ []) = if ltb c 0x80 then if is_space c then 1 else 0 else two_bytes b c
space_behind (c ∷ b ∷ a ∷ s) =
    if ltb c 0x80
    then if is_space c then 1 else 0
    else if b == 0xC2
    then two_bytes b c
    else three_bytes a b c

-- Spaces are dropped at the front; the number is of the bytes that are left of the current one.
unfoldable pub drop_spaces : (Text → ℕ) → ℕ → Text → Text
drop_spaces width k [] = []
drop_spaces width (suc k) (c ∷ cs) = drop_spaces width k cs
drop_spaces width zero (c ∷ cs) = elim (width (c ∷ cs)) [
  | zero ↦ c ∷ cs
  | suc k ↦ drop_spaces width k cs
]

unfoldable pub backwards : Text → Text → Text
backwards out [] = out
backwards out (c ∷ cs) = backwards (c ∷ out) cs

-- `strings.TrimSpace` of a text that is given as its bytes.
unfoldable pub trim_bytes : Text → Text
trim_bytes s =
    backwards [] (drop_spaces space_behind 0 (backwards [] (drop_spaces space_ahead 0 s)))

-- `strings.CutPrefix`: what follows the prefix.
unfoldable pub cut_prefix : Text → Text → Option Text
cut_prefix [] s = some s
cut_prefix (p ∷ ps) [] = none
cut_prefix (p ∷ ps) (c ∷ cs) = let rest = cut_prefix ps cs in if p == c then rest else none

-- `strings.TrimPrefix`.
unfoldable pub trim_prefix : Text → Text → Text
trim_prefix prefix s = elim (cut_prefix prefix s) [ none ↦ s | some rest ↦ rest ]

-- `strings.Cut` at a character: what is before its first occurrence, and what is behind it.
unfoldable pub cut : ℕ → Text → Option (Text × Text)
cut sep [] = none
cut sep (c ∷ cs) =
    let later = cut sep cs in
    if c == sep then some ([], cs) else elim later [ none ↦ none | some (a, b) ↦ some (c ∷ a, b) ]

-- The value of decimal digits behind a value that was read.
unfoldable pub digits_from : ℕ → Text → Option ℕ
digits_from n [] = some n
digits_from n (c ∷ cs) =
    let rest = digits_from (n * 10 + (c - 48)) cs in if leb 48 c && leb c 57 then rest else none

unfoldable pub parse_digits : Text → Option ℕ
parse_digits [] = none
parse_digits (c ∷ cs) = digits_from 0 (c ∷ cs)

-- A value and its sign, if it is in the range of int64.
unfoldable pub in_int64 : Bool → ℕ → Option ℕ
in_int64 false n = if ltb n (2 ^ 63) then some n else none
in_int64 true n = if leb n (2 ^ 63) then some (negate n) else none

unfoldable pub signed_digits : Bool → Text → Option ℕ
signed_digits negative s = elim (parse_digits s) [ none ↦ none | some n ↦ in_int64 negative n ]

-- `strconv.ParseInt(s, 10, 64)` as a bit pattern; `none` is its error.
unfoldable pub parse_int64 : Text → Option ℕ
parse_int64 [] = none
parse_int64 (c ∷ cs) =
    if c == 43
    then signed_digits false cs
    else if c == 45
    then signed_digits true cs
    else signed_digits false (c ∷ cs)

-- A value that was read is a bit pattern.
in_int64_lt : (negative : Bool) (n v : ℕ) → in_int64 negative n ≡ some v → v < 2 ^ 64
unfolding in_int64
in_int64_lt false n v e = ground arith
in_int64_lt true n v e = ground arith

signed_digits_lt :
    (negative : Bool) (s : Text) (v : ℕ) → signed_digits negative s ≡ some v → v < 2 ^ 64
unfolding signed_digits
signed_digits_lt negative s v e = elim (Option-cases (parse_digits s)) [
  | inl bad ↦ absurd (ground arith)
  | inr (n, good) ↦ in_int64_lt negative n v (ground (arith, good))
]

pub parse_int64_lt : (s : Text) (v : ℕ) → parse_int64 s ≡ some v → v < 2 ^ 64
unfolding parse_int64
parse_int64_lt [] v e = absurd (ground arith)
parse_int64_lt (c ∷ cs) v e = elim (Bool-cases (c == 43)) [
  | inl plus ↦ signed_digits_lt false cs v (ground (arith, plus))
  | inr other ↦ elim (Bool-cases (c == 45)) [
    | inl minus ↦ signed_digits_lt true cs v (ground (arith, other, minus))
    | inr digit ↦ signed_digits_lt false (c ∷ cs) v (ground (arith, other, digit))
  ]
]
