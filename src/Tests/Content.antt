-- ===== src/Tests/Content.antt =====
-- File contents on concrete data: sizes, chunks, the header and a file of one chunk.
use cryp.Prelude.{
  ℕ, ◌≡◌, ◌+◌, refl, ok, Option, some, none, arith, replicate, List, [], ◌∷◌, ◌++◌, length, codes,
}
use cryp.Bytes.{Bytes, big_endian}
use cryp.Crypto.Content.Sizes.{plaintext_size_to_cipher_size}
use cryp.Crypto.Content.Chunk.{ContentError, padded, header_payload, write_file_header}
use cryp.Crypto.Content.Stream.{Frame, plaintext, encode}
use cryp.Crypto.Content.Writer.{
  Writer, new_encrypting_writer, put_chunk, flush_chunk, write_loop, write, close,
}
use cryp.Crypto.Content.Writer.Loop.{write_total}
use cryp.Crypto.Content.Reader.{reset, read_all, file}
use cryp.Crypto.Content.Reader.ReadAll.{read_all-encode}
use cryp.Crypto.Content.RoundTrip.{Writes, start, call, written, content_round_trip}
use cryp.Toy.{toy_gcm, toy_rand, toy_sink}

abbrev header_nonce : Bytes
header_nonce = replicate 12 4

abbrev nonce : Bytes
nonce = replicate 12 6

abbrev key : Bytes
key = replicate 32 1

abbrev text : Bytes
text = codes "hello"

abbrev chunk : ℕ
chunk = 3

abbrev frames : List Frame
frames = (nonce, text) ∷ []

read_all-encode_example :
    read_all toy_gcm file 6 (reset (encode toy_gcm key header_nonce 0 frames) key header_nonce 0) 2
    ≡ some (plaintext frames, ContentError.end_of_file)
unfolding plaintext
read_all-encode_example =
    read_all-encode toy_gcm key header_nonce 0 frames 2 6 (refl, omega arith, omega arith)
      (omega arith) (omega arith) (omega arith)

abbrev fresh : Writer Bytes ℕ
fresh = record {
  out = [];
  seed = 5;
  key = key;
  header_nonce = header_nonce;
  chunk_num = 0;
  buf = [];
}

write_total_example :
    (r : Writer Bytes ℕ × ℕ × Option ContentError) × (write toy_gcm toy_rand toy_sink fresh text
      ≡ some r)
write_total_example = write_total toy_gcm toy_rand toy_sink fresh text

two_calls :
    Writes toy_gcm toy_rand toy_sink fresh (text ∷ text ∷ []) (record fresh { buf = text ++ text })
unfolding write write_loop
two_calls = call text 5 (call text 5 start refl) refl

-- The stored file and the writer after it.
abbrev stored : Bytes
stored = replicate 12 5 ++ (text ++ text ++ replicate 16 0x77)

closes :
    close toy_gcm toy_rand toy_sink (record fresh { buf = text ++ text })
    ≡ (record fresh { out = stored; seed = 6; chunk_num = 1 }, none)
unfolding close flush_chunk put_chunk
closes = refl

content_round_trip_example :
    (b : Bytes) × (stored ≡ [] ++ b)
    × (68 + length b ≡ plaintext_size_to_cipher_size (length (text ++ text)))
    × (read_all toy_gcm file 11 (reset b key header_nonce 0) 3
        ≡ some (text ++ text, ContentError.end_of_file))
unfolding written new_encrypting_writer
content_round_trip_example =
    content_round_trip toy_gcm toy_rand toy_sink [] 5 key header_nonce fresh
      (record fresh { buf = text ++ text }) (record fresh { out = stored; seed = 6; chunk_num = 1 })
      (text ∷ text ∷ []) 3 11 refl two_calls closes (omega arith) (omega arith) (omega arith)

-- A header behind three bytes of another kind.
abbrev header : Bytes
header = nonce ++ (replicate 8 255 ++ (key ++ replicate 16 0x77))

writes_header :
    write_file_header toy_gcm toy_sink (codes "abc") (replicate 32 2) key (some nonce)
    ≡ ok (codes "abc" ++ header, record { nonce = nonce; content_key = key })
unfolding write_file_header header_payload padded big_endian
writes_header = refl
