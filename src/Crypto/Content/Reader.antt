-- ===== src/Crypto/Content/Reader.antt =====
-- `DecryptingReader` of internal/crypto/content.go. The pool and the reusable buffers `chunkBuf`,
-- `ptBuf` and `aadBuf` hold nothing between two calls and are left out of the state.
pub mod Steps
pub mod ReadAll
use cryp.Prelude.{
  ℕ, zero, suc, ◌+◌, ◌-◌, ◌%◌, ◌^◌, ◌<◌, ◌≤◌, ◌≡◌, ◌≢◌, Bool, true, false, ◌||◌, Option, none, some,
  [], ◌++◌, ◌==◌, ltb, length, take, drop, if◌then◌else◌, Result, ok, err, guard, ◌>>◌,
}
use cryp.Bytes.{Bytes}
use cryp.Crypto.Aes.{is_key_size}
use cryp.Crypto.Gcm.{Gcm}
use cryp.Crypto.Content.Sizes.{chunk_nonce_size, chunk_tag_size, chunk_cipher_size}
use cryp.Crypto.Content.Chunk.{ContentError, chunk_aad}

-- How `io.ReadFull` ended: the buffer is full, nothing was left, less than the buffer was left, or
-- the underlying reader failed.
pub data ReadEnd : Type 0 where
  complete at_end cut_short failed : ReadEnd

-- An io.Reader behind `io.ReadFull`: what was read, how it ended, and the reader afterwards.
pub record Source : Type 1 where
  pub R : Type 0
  pub read_full : R → ℕ → Bytes × ReadEnd × R

pub record Reader (R : Type 0) : Type 0 where
  pub input : R
  pub key : Bytes
  pub header_nonce : Bytes
  pub chunk_num : ℕ
  pub buf : Bytes
  pub offset : ℕ
  pub done : Bool

-- `Reset`, on the fields that are kept.
unfoldable pub reset : {R : Type 0} → R → Bytes → Bytes → ℕ → Reader R
reset input key header_nonce start_chunk = record {
  input = input;
  key = key;
  header_nonce = header_nonce;
  chunk_num = start_chunk;
  buf = [];
  offset = 0;
  done = false;
}

-- `NewDecryptingReaderFromChunk`; `NewDecryptingReader` starts at chunk 0.
unfoldable pub new_decrypting_reader_from_chunk :
    {R : Type 0} → R → Bytes → Bytes → ℕ → Result ContentError (Reader R)
unfolding reset
new_decrypting_reader_from_chunk input key header_nonce start_chunk = do
  guard (is_key_size key) ContentError.invalid_key_size
  ok (reset input key header_nonce start_chunk)

unfoldable pub new_decrypting_reader :
    {R : Type 0} → R → Bytes → Bytes → Result ContentError (Reader R)
unfolding new_decrypting_reader_from_chunk
new_decrypting_reader input key header_nonce =
    new_decrypting_reader_from_chunk input key header_nonce 0

-- The end of the input, in the two forms that io.ReadFull reports it.
abbrev pub is_end : ReadEnd → Bool
is_end ReadEnd.at_end = true
is_end ReadEnd.cut_short = true
is_end _ = false

abbrev pub is_failure : ReadEnd → Bool
is_failure ReadEnd.failed = true
is_failure _ = false

-- What a call of `Read` gives: the reader, the bytes copied, and the error.
abbrev pub Outcome : Type 0 → Type 0
Outcome R = Reader R × Bytes × Option ContentError

-- `copy(p, dr.buf[dr.offset:])` for a p of the given size.
unfoldable pub serve : {R : Type 0} → Reader R → ℕ → Outcome R
serve dr size =
    let copied = take size (drop dr.offset dr.buf) in
    (record dr { offset = dr.offset + length copied }, copied, none)

module _ (gcm : Gcm) where
  -- `Read` from the decryption of a chunk on.
  unfoldable pub open_chunk : {R : Type 0} → Reader R → Bytes → ReadEnd → ℕ → Outcome R
  unfolding serve
  open_chunk dr chunk_data ending size =
      let nonce = take chunk_nonce_size chunk_data in
      let ciphertext = drop chunk_nonce_size chunk_data in
      elim (gcm.unseal dr.key nonce ciphertext (chunk_aad dr.chunk_num dr.header_nonce)) [
        | none ↦ (dr, [], some ContentError.corrupt_content)
        | some p ↦
            serve
              (record dr {
                chunk_num = (dr.chunk_num + 1) % 2 ^ 64;
                buf = p;
                offset = 0;
                done = is_end ending || dr.done;
              })
              size
      ]

  -- `Read` from what `io.ReadFull` gave on.
  unfoldable pub take_chunk : {R : Type 0} → Reader R → Bytes → ReadEnd → ℕ → Outcome R
  unfolding open_chunk
  take_chunk dr chunk_data ending size =
      if length chunk_data == 0
      then if is_end ending
        then (record dr { done = true }, [], some ContentError.end_of_file)
        else if is_failure ending
        then (dr, [], some ContentError.read_failed)
        else (dr, [], none)
      else if ltb (length chunk_data) (chunk_nonce_size + chunk_tag_size)
      then (record dr { done = true }, [], some ContentError.corrupt_content)
      else if is_failure ending
      then (dr, [], some ContentError.read_failed)
      else open_chunk dr chunk_data ending size

  module _ (source : Source) where
    -- `Read` into a buffer of the given size.
    unfoldable pub read : Reader source.R → ℕ → Outcome source.R
    unfolding take_chunk serve
    read dr size =
        if size == 0
        then (dr, [], none)
        else if ltb dr.offset (length dr.buf)
        then serve dr size
        else if dr.done
        then (dr, [], some ContentError.end_of_file)
        else let (chunk_data, ending, input) = source.read_full dr.input chunk_cipher_size in
          take_chunk (record dr { input = input }) chunk_data ending size

    -- A client that reads until an error, as io.ReadAll does: the bytes and the error. `none` is no
    -- Go value: the fuel ran out.
    unfoldable pub read_all : ℕ → Reader source.R → ℕ → Option (Bytes × ContentError)
    read_all zero dr size = none
    read_all (suc fuel) dr size =
        let (dr', got, problem) = read dr size in
        elim problem [
          | some e ↦ some (got, e)
          | none ↦ elim (read_all fuel dr' size) [
            | none ↦ none
            | some (rest, e) ↦ some (got ++ rest, e)
          ]
        ]

-- A file that is read without failures: io.ReadFull takes what is left, up to the size asked for.
unfoldable pub file_read_full : Bytes → ℕ → Bytes × ReadEnd × Bytes
file_read_full rest n = (
  take n rest,
  (if length rest == 0
      then ReadEnd.at_end
      else if ltb (length rest) n
      then ReadEnd.cut_short
      else ReadEnd.complete),
  drop n rest,
)

abbrev pub file : Source
file = record { R = Bytes; read_full = file_read_full }
