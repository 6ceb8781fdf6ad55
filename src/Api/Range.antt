-- ===== src/Api/Range.antt =====
-- `handleFileContent` and `handleRangeRequest` of internal/api/files_content.go from the open file on:
-- the header, the sizes, the Range header, and the bytes of the body. The response writer accepts
-- everything; headers, cache advice and the pooled buffers have no effect on what is modelled.
pub mod Bounds
pub mod Copy
pub mod Seek
pub mod Serve
use cryp.Prelude.{
  ℕ, zero, suc, ◌+◌, ◌-◌, ◌*◌, ◌^◌, Bool, true, false, ◌&&◌, ◌||◌, not, Option, none, some, [], ◌∷◌,
  ◌++◌, ◌==◌, ltb, leb, min, length, drop, if◌then◌else◌, codes, Result, ok, err,
}
use cryp.Bytes.{Bytes}
use cryp.Int64.{is_positive, is_negative, le_signed64, sub64, add64}
use cryp.GoText.{Text, trim_space, trim_prefix, cut, parse_int64}
use cryp.Crypto.Gcm.{Gcm}
use cryp.Crypto.Content.Sizes.{plaintext_offset_to_cipher_offset, cipher_size_to_plaintext_size}
use cryp.Crypto.Content.Chunk.{ContentError, FileHeader, read_file_header}
use cryp.Crypto.Content.Reader.{
  Reader, Source, new_decrypting_reader, new_decrypting_reader_from_chunk, read, read_all, file,
}

-- `rangeHeader` without its unit, up to the first comma.
unfoldable pub first_range : Text → Text
first_range header =
    let rest = trim_space (trim_prefix (codes "bytes=") header) in
    elim (cut 44 rest) [ none ↦ rest | some (before, after) ↦ trim_space before ]

-- The suffix range `-500`.
unfoldable pub suffix_range : Text → ℕ → Option (ℕ × ℕ)
suffix_range digits total_size = elim (parse_int64 digits) [
  | none ↦ none
  | some suffix ↦
      if not (is_positive suffix)
      then none
      else let kept = if ltb total_size suffix then total_size else suffix in
        some (sub64 total_size kept, sub64 total_size 1)
]

-- The range `500-` or `500-999`.
unfoldable pub from_range : Text → Text → ℕ → Option (ℕ × ℕ)
from_range first second total_size = elim (parse_int64 first) [
  | none ↦ none
  | some start ↦
      if length second == 0 then some (start, sub64 total_size 1) else elim (parse_int64 second) [
        | none ↦ none
        | some end ↦ some (start, if le_signed64 total_size end then sub64 total_size 1 else end)
      ]
]

unfoldable pub parse_range : Text → ℕ → Option (ℕ × ℕ)
parse_range header total_size = elim (cut 45 (first_range header)) [
  | none ↦ none
  | some (first, second) ↦
      if length first == 0
      then suffix_range second total_size
      else from_range first second total_size
]

-- The byte at the logical end of the file stands for the last one; then the bounds are checked.
unfoldable pub check_range : ℕ → ℕ × ℕ → Option (ℕ × ℕ)
check_range total_size (start, end) =
    let (first, last) =
      if (start == total_size) && is_positive total_size
      then (sub64 total_size 1, sub64 total_size 1)
      else (start, end) in
    if is_negative first || le_signed64 total_size first || not (le_signed64 first last)
    then none
    else some (first, last)

-- The range that is served; `none` is status 416.
unfoldable pub resolve_range : Text → ℕ → Option (ℕ × ℕ)
resolve_range header total_size =
    if not (is_positive total_size)
    then none
    else elim (parse_range header total_size) [ none ↦ none | some r ↦ check_range total_size r ]

-- A response: its status, the range of a partial one, and the body.
pub data Reply : Type 0 where
  full : Bytes → Reply
  partial : ℕ → ℕ → ℕ → Bytes → Reply
  not_satisfiable : ℕ → Reply
  server_error : Reply
  -- The body broke off behind these bytes.
  aborted : Bytes → Reply

module _ (gcm : Gcm) where
  -- `io.Copy` from an `io.LimitReader`, with the size of its buffer: the reader, the bytes copied, and
  -- the error; the end of the input is none. `none` is no Go value: the fuel ran out.
  unfoldable pub copy_limited :
      ℕ → Reader Bytes → ℕ → ℕ → Option (Reader Bytes × Bytes × Option ContentError)
  copy_limited zero dr size limit = none
  copy_limited (suc fuel) dr size limit =
      if limit == 0
      then some (dr, [], none)
      else let (dr', got, problem) = read gcm file dr (min size limit) in
        elim problem [
          | some ContentError.end_of_file ↦ some (dr', got, none)
          | some e ↦ some (dr', got, some e)
          | none ↦ elim (copy_limited fuel dr' size (limit - length got)) [
            | none ↦ none
            | some (last, rest, e) ↦ some (last, got ++ rest, e)
          ]
        ]

  -- `handleRangeRequest` on the bytes of the encrypted file. `io.Discard` copies in pieces of 8 KB,
  -- the body in pieces of 32 KB. Every read takes a byte of the file or gives a byte of the plaintext.
  unfoldable pub handle_range_request : Bytes → FileHeader → ℕ → Text → Option Reply
  handle_range_request stored header total_size range_header =
      elim (resolve_range range_header total_size) [
        | none ↦ some (not_satisfiable total_size)
        | some (start, end) ↦
            let (cipher_offset, chunk_index, skip_bytes) =
              plaintext_offset_to_cipher_offset start in
            elim (new_decrypting_reader_from_chunk (drop cipher_offset stored) header.content_key
              header.nonce chunk_index) [
                | err e ↦ some server_error
                | ok reader ↦
                    elim (copy_limited (skip_bytes + length stored + 1) reader 8192 skip_bytes) [
                      | none ↦ none
                      | some (after, skipped, problem) ↦
                          if not (length skipped == skip_bytes)
                          then some server_error
                          else let content_length = add64 (sub64 end start) 1 in
                            elim (copy_limited (content_length + length stored + 1) after 32768
                              content_length) [
                                | none ↦ none
                                | some (last, body, problem') ↦ elim problem' [
                                  | none ↦ some (partial start end total_size body)
                                  | some e ↦ some (aborted body)
                                ]
                              ]
                    ]
              ]
      ]

  -- The loop of `handleFileContent` over the whole file.
  unfoldable pub whole_body : Bytes → FileHeader → Option Reply
  whole_body stored header =
      elim (new_decrypting_reader (drop 68 stored) header.content_key header.nonce) [
        | err e ↦ some server_error
        | ok reader ↦ elim (read_all gcm file (length stored + 1) reader 32768) [
          | none ↦ none
          | some (body, e) ↦ elim e [
            | ContentError.end_of_file ↦ some (full body)
            | _ ↦ some (aborted body)
          ]
        ]
      ]

  -- `handleFileContent` on the bytes of the encrypted file, with the Range header if there is one;
  -- an empty one counts as none.
  unfoldable pub handle_file_content : Bytes → Bytes → Option Text → Option Reply
  handle_file_content stored master_key range_header =
      elim (read_file_header gcm stored master_key) [
        | err e ↦ some server_error
        | ok header ↦
            let plaintext_size = cipher_size_to_plaintext_size (length stored) in
            if plaintext_size == 0 then some (full []) else elim range_header [
              | none ↦ whole_body stored header
              | some text ↦
                  if length text == 0
                  then whole_body stored header
                  else handle_range_request stored header plaintext_size text
            ]
      ]
