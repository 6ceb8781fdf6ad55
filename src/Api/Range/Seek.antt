-- ===== src/Api/Range/Seek.antt =====
-- Seeking in a stream of chunks, and what a header that was read says of its key.
use cryp.Prelude.{
  ℕ, zero, suc, ◌+◌, ◌*◌, ◌^◌, ◌<◌, ◌≡◌, inl, refl, sym, ap, ◌∙◌, true, List, [], ◌∷◌, ◌++◌, ◌==◌,
  length, take, drop, replicate, arith, length-append, length-take, length-replicate, drop-append,
  ok, >>=-elim, guard-eq-ok, or_fail, Result,
}
use cryp.Bytes.{Bytes}
use cryp.Bytes.BigEndian.{from_big_endian}
use cryp.Crypto.Aes.{is_key_size}
use cryp.Crypto.Gcm.{Gcm}
use cryp.Crypto.Content.Chunk.{ContentError, FileHeader, padded, read_file_header}
use cryp.Crypto.Content.Stream.{Frame, plaintext, frame_bytes, encode, IsStream, length-frame_bytes}
use cryp.Crypto.Content.Reader.{reset}
use cryp.Crypto.Content.Reader.Steps.{Reads, drop-drop}

length-padded : (b : Bytes) → length (padded 32 b) ≡ 32
unfolding padded
length-padded b = omega (
  arith,
  length-take 32 (b ++ replicate 32 0),
  length-append b (replicate 32 0),
  length-replicate {A = ℕ} 32 0,
)

-- A content key that was read from a header has the size of a key.
pub read_file_header_key :
    (gcm : Gcm) (input master : Bytes) (h : FileHeader)
    → read_file_header gcm input master ≡ ok h
    → is_key_size h.content_key ≡ true
unfolding read_file_header
read_file_header_key gcm input master h e =
    let (whole, e1) = guard-eq-ok (length (take 68 input) == 68) _ _ e in
    let (good, e2) = guard-eq-ok (is_key_size master) _ _ e1 in
    >>=-elim
      (or_fail (gcm.unseal master (take 12 (take 68 input)) (drop 12 (take 68 input)) [])
        ContentError.header_not_authentic)
      _ e2
      λ payload got e3.
        let (reserved, e4) =
          guard-eq-ok (from_big_endian (take 8 payload) == 0xFFFFFFFFFFFFFFFF) _ _ e3 in
        let shape : padded 32 (drop 8 payload) ≡ h.content_key = ap-key e4 in
        ground (arith, ap (λ (t : Bytes). length t) shape, length-padded (drop 8 payload))
  where
    ap-key :
        {n k : Bytes} {r : FileHeader}
        → ◌≡◌ {A = Result ContentError FileHeader}
            (ok (record { nonce = n; content_key = k }))
            (ok r)
        → k ≡ r.content_key
    ap-key e = ground (arith, e)

module _ (gcm : Gcm) (key hn : Bytes) where
  -- A stream from the chunk `k` on.
  pub record Sought (k c : ℕ) (frames : List Frame) : Type 0 where
    pub bytes :
        drop (k * 32796) (encode gcm key hn c frames) ≡ encode gcm key hn (c + k) (drop k frames)
    pub text : plaintext (drop k frames) ≡ drop (k * 32768) (plaintext frames)
    pub stream : IsStream (drop k frames)

  pub seek :
      (k c : ℕ) (frames : List Frame)
      → IsStream frames
      → k * 32768 < length (plaintext frames)
      → Sought k c frames
  unfolding encode plaintext
  seek zero c frames h inside = record {
    bytes = ap (λ (t : ℕ). encode gcm key hn t frames) (omega arith);
    text = refl;
    stream = h;
  }
  seek (suc k) c [] h inside = absurd (omega arith)
  seek (suc k) c ((n, p) ∷ []) h inside = absurd (omega (arith, h.2, length-append p []))
  seek (suc k) c ((n, p) ∷ f ∷ fs) h inside =
      let rest =
        seek k (suc c) (f ∷ fs) h.2 (omega (arith, length-append p (plaintext (f ∷ fs)), h.1)) in
      let size : length (frame_bytes gcm key hn c (n, p)) ≡ 32796 =
        omega (arith, length-frame_bytes gcm key hn c n p h.0, h.1) in
      let cipher_shift : suc k * 32796 ≡ 32796 + k * 32796 = omega arith in
      let text_shift : suc k * 32768 ≡ 32768 + k * 32768 = omega arith in
      let number : suc c + k ≡ c + suc k = omega arith in
      record {
        bytes =
            ap (λ (t : ℕ). drop t (encode gcm key hn c ((n, p) ∷ f ∷ fs))) cipher_shift
            ∙ sym (drop-drop (k * 32796) 32796 (encode gcm key hn c ((n, p) ∷ f ∷ fs)))
            ∙ ap (λ (t : Bytes). drop (k * 32796) t)
                (drop-append 32796 (frame_bytes gcm key hn c (n, p))
                  (encode gcm key hn (suc c) (f ∷ fs)) size)
            ∙ rest.bytes
            ∙ ap (λ (t : ℕ). encode gcm key hn t (drop k (f ∷ fs))) number;
        text =
            rest.text
            ∙ ap (λ (t : Bytes). drop (k * 32768) t)
                (sym (drop-append 32768 p (plaintext (f ∷ fs)) h.1))
            ∙ drop-drop (k * 32768) 32768 (p ++ plaintext (f ∷ fs))
            ∙ ap (λ (t : ℕ). drop t (p ++ plaintext (f ∷ fs))) (sym text_shift);
        stream = rest.stream;
      }

  -- A new reader on the rest of a file from a chunk on.
  pub fresh-Reads :
      (c : ℕ) (frames : List Frame)
      → IsStream frames
      → c < 2 ^ 64
      → Reads gcm key hn [] frames c (reset (encode gcm key hn c frames) key hn c)
  unfolding reset
  fresh-Reads c frames h small = record {
    input = refl;
    number = omega arith;
    held = refl;
    same_key = refl;
    same_nonce = refl;
    stream = h;
    ended = inl refl;
  }
