-- ===== src/Tests/Serving.antt =====
-- The content endpoint on concrete data: a file of one chunk, whole and in parts.
use cryp.Prelude.{
  ◌≡◌, ◌≤◌, ◌<◌, ◌-◌, refl, ok, some, none, arith, replicate, List, [], ◌∷◌, ◌++◌, length, take,
  drop, suc, codes,
}
use cryp.Bytes.{Bytes}
use cryp.Bytes.BigEndian.{from_big_endian}
use cryp.GoText.{
  trim_space, trim_left, trim_right, is_space, trim_prefix, cut_prefix, cut, parse_int64,
  parse_digits, digits_from, signed_digits, in_int64,
}
use cryp.Crypto.Content.Chunk.{FileHeader, read_file_header, padded}
use cryp.Crypto.Content.Stream.{Frame, plaintext, encode, frame_bytes}
use cryp.Api.Range.{
  full, partial, first_range, suffix_range, from_range, parse_range, check_range, resolve_range,
  handle_file_content,
}
use cryp.Api.Range.Bounds.{resolve_range_lem}
use cryp.Api.Range.Serve.{content_full, content_partial}
use cryp.Toy.{toy_gcm}

abbrev nonce : Bytes
nonce = replicate 12 6

abbrev key : Bytes
key = replicate 32 1

abbrev master : Bytes
master = replicate 32 2

abbrev front : Bytes
front = nonce ++ (replicate 8 255 ++ (key ++ replicate 16 0x77))

abbrev header : FileHeader
header = record { nonce = nonce; content_key = key }

abbrev frames : List Frame
frames = (nonce, codes "hello") ∷ []

authentic : read_file_header toy_gcm (front ++ encode toy_gcm key nonce 0 frames) master ≡ ok header
unfolding read_file_header padded encode frame_bytes from_big_endian
authentic = refl

asked : resolve_range (codes "bytes=1-3") 5 ≡ some (1, 3)
unfolding resolve_range check_range parse_range from_range suffix_range first_range trim_space
    trim_left trim_right is_space trim_prefix cut_prefix cut parse_int64 parse_digits digits_from
    signed_digits in_int64
asked = refl

-- The last two bytes, a range past the end, and two ranges.
last_two : resolve_range (codes "bytes=-2") 5 ≡ some (3, 4)
unfolding resolve_range check_range parse_range from_range suffix_range first_range trim_space
    trim_left trim_right is_space trim_prefix cut_prefix cut parse_int64 parse_digits digits_from
    signed_digits in_int64
last_two = refl

past_the_end : resolve_range (codes "bytes=7-") 5 ≡ none
unfolding resolve_range check_range parse_range from_range suffix_range first_range trim_space
    trim_left trim_right is_space trim_prefix cut_prefix cut parse_int64 parse_digits digits_from
    signed_digits in_int64
past_the_end = refl

first_of_two : resolve_range (codes "bytes= 0-1, 3-4") 5 ≡ some (0, 1)
unfolding resolve_range check_range parse_range from_range suffix_range first_range trim_space
    trim_left trim_right is_space trim_prefix cut_prefix cut parse_int64 parse_digits digits_from
    signed_digits in_int64
first_of_two = refl

-- Only the first range counts, also when the second one lies in the file.
first_outside : resolve_range (codes "bytes=9-9,0-1") 5 ≡ none
unfolding resolve_range check_range parse_range from_range suffix_range first_range trim_space
    trim_left trim_right is_space trim_prefix cut_prefix cut parse_int64 parse_digits digits_from
    signed_digits in_int64
first_outside = refl

resolve_range_lem_example : (1 ≤ 3) × (3 < 5)
resolve_range_lem_example = resolve_range_lem (codes "bytes=1-3") 5 1 3 (omega arith) asked

content_full_example :
    handle_file_content toy_gcm (front ++ encode toy_gcm key nonce 0 frames) master none
    ≡ some (full (plaintext frames))
unfolding plaintext
content_full_example =
    content_full toy_gcm front master header frames refl authentic (refl, omega arith, omega arith)
      (omega arith)

content_partial_example :
    (handle_file_content toy_gcm
        (front ++ encode toy_gcm key nonce 0 frames)
        master
        (some (codes "bytes=1-3"))
      ≡ some (partial 1 3 5 (take (suc 3 - 1) (drop 1 (plaintext frames)))))
    × (length (take (suc 3 - 1) (drop 1 (plaintext frames))) ≡ suc 3 - 1)
unfolding plaintext
content_partial_example =
    content_partial toy_gcm front master header frames refl authentic
      (refl, omega arith, omega arith) (omega arith) (codes "bytes=1-3") 1 3 asked
