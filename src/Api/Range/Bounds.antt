-- ===== src/Api/Range/Bounds.antt =====
-- The range that is served lies inside the file.
use cryp.Prelude.{
  ℕ, ◌-◌, ◌^◌, ◌≤◌, ◌<◌, ◌≡◌, false, Bool-cases, Option-cases, inl, inr, none, some, [], ◌∷◌,
  length, ◌==◌, arith, if◌then◌else◌,
}
use cryp.Int64.{le_signed64, sub64}
use cryp.GoText.{
  Text, parse_int64, parse_int64_lt, cut, cut_prefix, trim_prefix, trim_left, trim_right,
  trim_space,
}
use cryp.Api.Range.{first_range, suffix_range, from_range, parse_range, check_range, resolve_range}

-- What parsing leaves: the end is an int64 before the end of the file.
abbrev EndsInside : ℕ → ℕ × ℕ → Type 0
EndsInside total (start, end) = (end < 2 ^ 64) × (le_signed64 total end ≡ false)

module _ (total : ℕ) (pos : 0 < total) (small : total < 2 ^ 63) where
  suffix_range-EndsInside :
      (digits : Text) (r : ℕ × ℕ) → suffix_range digits total ≡ some r → EndsInside total r
  unfolding suffix_range
  suffix_range-EndsInside digits r e = elim (Option-cases (parse_int64 digits)) [
    | inl bad ↦ absurd (ground (arith, bad))
    | inr (suffix, good) ↦
        let last : r.1 ≡ total - 1 = ground (arith, good) in (omega arith, ground arith)
  ]

  from_range-EndsInside :
      (first second : Text) (r : ℕ × ℕ)
      → from_range first second total ≡ some r
      → EndsInside total r
  unfolding from_range
  from_range-EndsInside first second r e = elim (Option-cases (parse_int64 first)) [
    | inl bad ↦ absurd (ground (arith, bad))
    | inr (start, good) ↦ elim (Bool-cases (length second == 0)) [
      | inl open' ↦
          let last : r.1 ≡ total - 1 = ground (arith, good, open') in (omega arith, ground arith)
      | inr closed ↦ elim (Option-cases (parse_int64 second)) [
        | inl bad ↦ absurd (ground (arith, good, closed, bad))
        | inr (end, right) ↦
            let bound = parse_int64_lt second end right in
            let last : r.1 ≡ (if le_signed64 total end then sub64 total 1 else end) =
              ground (arith, good, closed, right) in
            (ground arith, ground arith)
      ]
    ]
  ]

  parse_range-EndsInside :
      (header : Text) (r : ℕ × ℕ) → parse_range header total ≡ some r → EndsInside total r
  unfolding parse_range
  parse_range-EndsInside header r e = elim (Option-cases (cut 45 (first_range header))) [
    | inl bad ↦ absurd (ground (arith, bad))
    | inr ((first, second), good) ↦ elim (Bool-cases (length first == 0)) [
      | inl suffix ↦ suffix_range-EndsInside second r (ground (arith, good, suffix))
      | inr from ↦ from_range-EndsInside first second r (ground (arith, good, from))
    ]
  ]

  check_range_lem :
      (start end first last : ℕ)
      → EndsInside total (start, end)
      → check_range total (start, end) ≡ some (first, last)
      → (first ≤ last) × (last < total)
  unfolding check_range
  check_range_lem start end first last inside e = (ground arith, ground arith)

-- For every Range header and every total size below 2^63, the range that is served is not empty
-- and lies inside the file.
pub resolve_range_lem :
    (header : Text) (total first last : ℕ)
    → total < 2 ^ 63
    → resolve_range header total ≡ some (first, last)
    → (first ≤ last) × (last < total)
unfolding resolve_range
resolve_range_lem header total first last small e = elim (Option-cases (parse_range header total)) [
  | inl bad ↦ absurd (ground (arith, bad))
  | inr (r, good) ↦
      let pos : 0 < total = ground (arith, good) in
      check_range_lem total pos small r.0 r.1 first last
        (parse_range-EndsInside total pos small header r good) (ground (arith, good))
]

no_range : (total_size : ℕ) → resolve_range [] total_size ≡ none
unfolding resolve_range parse_range first_range trim_prefix cut_prefix trim_space trim_left
    trim_right cut
no_range total_size = ground arith

-- A header that asks for a range is not empty.
pub range_given :
    (text : Text) (total_size start end : ℕ)
    → resolve_range text total_size ≡ some (start, end)
    → (length text == 0) ≡ false
range_given [] total_size start end asked = absurd (ground (arith, asked, no_range total_size))
range_given (c ∷ cs) total_size start end asked = ground arith
