-- ===== src/Crypto/Content/Reader/ReadAll.antt =====
-- Reading a stream of chunks back gives its plaintext, in pieces of any size.
use cryp.Prelude.{
  ℕ, zero, suc, ◌+◌, ◌^◌, ◌<◌, ◌≡◌, inl, inr, refl, sym, ap, ◌∙◌, true, false, none, some, Option,
  List, [], ◌∷◌, ◌++◌, ◌==◌, ltb, length, take, drop, arith, append_assoc, length-append,
  length-drop, take-append-drop, Bool-cases,
}
use cryp.Bytes.{Bytes}
use cryp.Crypto.Gcm.{Gcm}
use cryp.Crypto.Content.Chunk.{ContentError}
use cryp.Crypto.Content.Stream.{Frame, plaintext, encode, IsStream}
use cryp.Crypto.Content.Reader.{
  Reader, reset, serve, take_chunk, read, read_all, file, file_read_full,
}
use cryp.Crypto.Content.Reader.Steps.{Reads, serve_step, read_frame, first_sizes}

rejoin :
    (size : ℕ) (p r : Bytes) (e : ContentError)
    → ◌≡◌ {A = Option (Bytes × ContentError)}
        (some (take size p ++ (drop size p ++ r), e))
        (some (p ++ r, e))
rejoin size p r e =
    ap (λ (t : Bytes). some (t, e))
      (sym (append_assoc (take size p) (drop size p) r)
        ∙ ap (λ (t : Bytes). t ++ r) (take-append-drop size p))

module _ (gcm : Gcm) where
  read_all_more :
      (fuel : ℕ) (dr dr' : Reader Bytes) (size : ℕ) (got rest : Bytes) (e : ContentError)
      → read gcm file dr size ≡ (dr', got, none)
      → read_all gcm file fuel dr' size ≡ some (rest, e)
      → read_all gcm file (suc fuel) dr size ≡ some (got ++ rest, e)
  unfolding read_all
  read_all_more fuel dr dr' size got rest e first others = ground arith

  read_all_end :
      (fuel : ℕ) (dr dr' : Reader Bytes) (size : ℕ) (e : ContentError)
      → read gcm file dr size ≡ (dr', [], some e)
      → read_all gcm file (suc fuel) dr size ≡ some ([], e)
  unfolding read_all
  read_all_end fuel dr dr' size e last = ground arith

  pub read_held :
      (dr : Reader Bytes) (size : ℕ)
      → 0 < size
      → 0 < length (drop dr.offset dr.buf)
      → read gcm file dr size ≡ serve dr size
  unfolding read
  read_held dr size pos more =
      let room : (size == 0) ≡ false = ground arith in
      let there : ltb dr.offset (length dr.buf) ≡ true =
        ground (arith, length-drop dr.offset dr.buf) in
      rw (room, there) refl

  -- At the end of the file the reader says so, whether it has seen the end before or not.
  read_end :
      (key hn : Bytes) (c : ℕ) (dr : Reader Bytes) (size : ℕ)
      → Reads gcm key hn [] [] c dr
      → 0 < size
      → (dr' : Reader Bytes) × (read gcm file dr size ≡ (dr', [], some ContentError.end_of_file))
  unfolding read take_chunk file_read_full encode
  read_end key hn c dr size h pos =
      let room : (size == 0) ≡ false = ground arith in
      let nothing : ltb dr.offset (length dr.buf) ≡ false =
        ground (arith, length-drop dr.offset dr.buf, ap length h.held) in
      elim (Bool-cases dr.done) [
        | inl was ↦ (dr, rw (room, nothing, was) refl)
        | inr new ↦ (
          record dr { input = drop 32796 dr.input; done = true },
          rw (room, nothing, new, h.input) refl,
        )
      ]

  read_all_stream :
      (key hn : Bytes) (fuel : ℕ) (pending : Bytes) (frames : List Frame) (c : ℕ)
      (dr : Reader Bytes) (size : ℕ)
      → Reads gcm key hn pending frames c dr
      → 0 < size
      → length pending + length (plaintext frames) < fuel
      → read_all gcm file fuel dr size
        ≡ some (pending ++ plaintext frames, ContentError.end_of_file)
  unfolding plaintext
  read_all_stream key hn zero pending frames c dr size h pos enough = absurd (omega arith)
  read_all_stream key hn (suc fuel) [] [] c dr size h pos enough =
      let (dr', e) = read_end key hn c dr size h pos in read_all_end fuel dr dr' size _ e
  read_all_stream key hn (suc fuel) [] ((n, p) ∷ fs) c dr size h pos enough = elim h.ended [
    | inl going ↦
        let (dr', first, after) = read_frame gcm key hn dr c n p fs size h pos going in
        let rest = read_all_stream key hn fuel (drop size p) fs (suc c) dr' size after pos (
          omega (
            arith,
            length-drop size p,
            length-append p (plaintext fs),
            (first_sizes gcm key hn n p fs h.stream).1,
          )) in
        read_all_more fuel dr dr' size (take size p) _ _ first rest ∙ rejoin size p (plaintext fs) _
    | inr none_left ↦ absurd (cc none_left)
  ]
  read_all_stream key hn (suc fuel) (x ∷ ps) frames c dr size h pos enough =
      let pending = x ∷ ps in
      let (dr', first, after) = serve_step gcm key hn pending frames c dr size h in
      let more = read_held dr size pos (omega (arith, ap length h.held)) ∙ first in
      let rest =
        read_all_stream key hn fuel (drop size pending) frames c dr' size after pos
          (omega (arith, length-drop size pending)) in
      read_all_more fuel dr dr' size (take size pending) _ _ more rest
      ∙ rejoin size pending (plaintext frames) _

  -- From the start of an encoded chunk stream, reads of any positive size return its plaintext
  -- and then the end of the file; fuel above the plaintext length is enough.
  pub read_all-encode :
      (key hn : Bytes) (c : ℕ) (frames : List Frame) (size fuel : ℕ)
      → IsStream frames
      → 0 < size
      → c < 2 ^ 64
      → length (plaintext frames) < fuel
      → read_all gcm file fuel (reset (encode gcm key hn c frames) key hn c) size
        ≡ some (plaintext frames, ContentError.end_of_file)
  unfolding reset
  read_all-encode key hn c frames size fuel stream pos small enough =
      read_all_stream key hn fuel [] frames c (reset (encode gcm key hn c frames) key hn c) size
        (record {
          input = refl;
          number = omega arith;
          held = refl;
          same_key = refl;
          same_nonce = refl;
          stream = stream;
          ended = inl refl;
        })
        pos (omega arith)
