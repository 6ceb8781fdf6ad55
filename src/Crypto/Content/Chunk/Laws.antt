-- ===== src/Crypto/Content/Chunk/Laws.antt =====
-- Round trips of single chunks and of the header, and what the associated data tells apart.
use cryp.Prelude.{
  ℕ, ◌^◌, ◌<◌, ◌≡◌, refl, sym, ap, ◌∙◌, true, false, some, ◌++◌, [], ◌==◌, ==_iff, ltb, arith,
  length, take, drop, replicate, length-append, take-append, drop-append, append_assoc, ok, ◌>>=◌,
  guard-eq-ok,
}
use cryp.Bytes.{Bytes, big_endian, length-big_endian}
use cryp.Bytes.BigEndian.{from_big_endian, from_big_endian-big_endian, big_endian_injective}
use cryp.Crypto.Aes.{is_key_size}
use cryp.Crypto.Gcm.{Gcm}
use cryp.Crypto.Content.Chunk.{
  FileHeader, Sink, chunk_aad, padded, header_payload, encrypt_chunk, decrypt_chunk,
  write_file_header, read_file_header,
}

-- Associated data of chunks with 64-bit numbers is equal only for the same chunk number and the
-- same header nonce.
pub chunk_aad_injective :
    (c d : ℕ) (hn hm : Bytes)
    → c < 2 ^ 64
    → d < 2 ^ 64
    → chunk_aad c hn ≡ chunk_aad d hm
    → (c ≡ d) × (hn ≡ hm)
unfolding chunk_aad
chunk_aad_injective c d hn hm hc hd e = (
  big_endian_injective 8 c d hc hd (
      sym (take-append 8 (big_endian 8 c) hn (length-big_endian 8 c))
      ∙ ap (take 8) e
      ∙ take-append 8 (big_endian 8 d) hm (length-big_endian 8 d)),
  sym (drop-append 8 (big_endian 8 c) hn (length-big_endian 8 c))
      ∙ ap (drop 8) e
      ∙ drop-append 8 (big_endian 8 d) hm (length-big_endian 8 d),
)

padded_exact : (n : ℕ) (b : Bytes) → length b ≡ n → padded n b ≡ b
unfolding padded
padded_exact n b h = take-append n b (replicate n 0) h

length-header_payload : (k : Bytes) → length k ≡ 32 → length (header_payload k) ≡ 40
unfolding header_payload
length-header_payload k h = rw (padded_exact 32 k h) (
    omega (
      arith,
      length-append (big_endian 8 0xFFFFFFFFFFFFFFFF) k,
      length-big_endian 8 0xFFFFFFFFFFFFFFFF,
    ))

header_payload_key : (k : Bytes) → length k ≡ 32 → padded 32 (drop 8 (header_payload k)) ≡ k
unfolding header_payload
header_payload_key k h =
    rw
      (
        padded_exact 32 k h,
        drop-append 8 (big_endian 8 0xFFFFFFFFFFFFFFFF) k (length-big_endian 8 0xFFFFFFFFFFFFFFFF),
      )
      (padded_exact 32 k h)

header_payload_reserved :
    (k : Bytes) → from_big_endian (take 8 (header_payload k)) ≡ 0xFFFFFFFFFFFFFFFF
unfolding header_payload
header_payload_reserved k =
    rw
      (take-append 8 (big_endian 8 0xFFFFFFFFFFFFFFFF) (padded 32 k)
        (length-big_endian 8 0xFFFFFFFFFFFFFFFF))
      (from_big_endian-big_endian 8 0xFFFFFFFFFFFFFFFF)

module _ (gcm : Gcm) where
  pub decrypt_chunk-framed :
      (key nonce p : Bytes) (c : ℕ) (hn : Bytes)
      → length nonce ≡ 12
      → decrypt_chunk gcm key (nonce ++ gcm.seal key nonce p (chunk_aad c hn)) c hn ≡ ok p
  unfolding decrypt_chunk
  decrypt_chunk-framed key nonce p c hn h =
      let sealed = gcm.seal key nonce p (chunk_aad c hn) in
      let size = length-append nonce sealed in
      let tag = gcm.length-seal key nonce p (chunk_aad c hn) in
      let long : ltb (length (nonce ++ sealed)) 28 ≡ false = ground (arith, size, tag) in
      rw
        (
          long,
          take-append 12 nonce sealed h,
          drop-append 12 nonce sealed h,
          gcm.unseal-seal key nonce p (chunk_aad c hn),
        )
        refl

  -- With a 12-byte nonce DecryptChunk, under the same chunk number and header nonce, returns what
  -- EncryptChunk encrypted.
  pub decrypt_chunk-encrypt_chunk :
      (key nonce p : Bytes) (c : ℕ) (hn : Bytes)
      → length nonce ≡ 12
      → (encrypt_chunk gcm key (some nonce) p c hn >>= λ d. decrypt_chunk gcm key d c hn) ≡ ok p
  unfolding encrypt_chunk
  decrypt_chunk-encrypt_chunk key nonce p c hn h = decrypt_chunk-framed key nonce p c hn h

  -- The header on disk: the nonce, and the payload with its tag.
  abbrev header_bytes : Bytes → Bytes → Bytes → Bytes
  header_bytes master nonce key = nonce ++ gcm.seal master nonce (header_payload key) []

  read_back :
      (master nonce key rest : Bytes)
      → is_key_size master ≡ true
      → length nonce ≡ 12
      → length key ≡ 32
      → read_file_header gcm (header_bytes master nonce key ++ rest) master
        ≡ ok (record { nonce = nonce; content_key = key })
  unfolding read_file_header
  read_back master nonce key rest good hn hk =
      let sealed = gcm.seal master nonce (header_payload key) [] in
      let tag = gcm.length-seal master nonce (header_payload key) [] in
      let size : length (nonce ++ sealed) ≡ 68 =
        omega (arith, length-append nonce sealed, tag, length-header_payload key hk) in
      let whole : (length (nonce ++ sealed) == 68) ≡ true = (==_iff _ 68).1 size in
      rw
        (
          take-append 68 (nonce ++ sealed) rest size,
          whole,
          take-append 12 nonce sealed hn,
          drop-append 12 nonce sealed hn,
          good,
          gcm.unseal-seal master nonce (header_payload key) [],
          header_payload_reserved key,
          header_payload_key key hk,
        )
        refl

  -- When WriteFileHeader succeeds with a 12-byte nonce and a 32-byte content key it appends 68
  -- bytes, from which, whatever follows, ReadFileHeader returns the same header.
  pub read_file_header-write_file_header :
      (sink : Sink) (w : sink.W) (master key nonce : Bytes) (w' : sink.W) (h : FileHeader)
      → length nonce ≡ 12
      → length key ≡ 32
      → write_file_header gcm sink w master key (some nonce) ≡ ok (w', h)
      → (written : Bytes) × (sink.contents w' ≡ sink.contents w ++ written)
        × (length written ≡ 68)
        × ((rest : Bytes) → read_file_header gcm (written ++ rest) master ≡ ok h)
        × (h.content_key ≡ key)
  unfolding write_file_header
  read_file_header-write_file_header sink w master key nonce w' h hn hk e =
      let sealed = gcm.seal master nonce (header_payload key) [] in
      let (good, e1) = guard-eq-ok (is_key_size master) _ _ e in
      let (wrote1, e2) = guard-eq-ok (sink.write w nonce).1 _ _ e1 in
      let w1 = (sink.write w nonce).0 in
      let (wrote2, e3) = guard-eq-ok (sink.write w1 sealed).1 _ _ e2 in
      let last : (sink.write w1 sealed).0 ≡ w' = ground (arith, e3) in
      let read : record { nonce = nonce; content_key = key } ≡ h = ground (arith, e3) in
      (
        nonce ++ sealed,
        ap sink.contents (sym last)
            ∙ sink.contents-write w1 sealed wrote2
            ∙ ap (λ (t : Bytes). t ++ sealed) (sink.contents-write w nonce wrote1)
            ∙ append_assoc (sink.contents w) nonce sealed,
        omega (
          arith,
          length-append nonce sealed,
          gcm.length-seal master nonce (header_payload key) [],
          length-header_payload key hk,
        ),
        λ rest. rw (← read) (read_back master nonce key rest good hn hk),
        rw (← read) refl,
      )
