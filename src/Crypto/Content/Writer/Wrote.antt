-- ===== src/Crypto/Content/Writer/Wrote.antt =====
-- What a writer has put into its sink, as an invariant of `Write`, and as a finished stream after
-- `Close`.
use cryp.Prelude.{
  ◌+◌, ◌-◌, ◌%◌, ◌^◌, ◌≤◌, ◌≡◌, refl, sym, ap, ◌∙◌, false, none, List, [], ◌∷◌, ◌++◌, ◌==◌, length,
  take, append_assoc, append-nil, length-append, length-take, arith, Bool-cases, Option-cases, inl,
  inr,
}
use cryp.Bytes.{Bytes}
use cryp.Crypto.Aes.{Rand}
use cryp.Crypto.Gcm.{Gcm}
use cryp.Crypto.Content.Chunk.{Sink, chunk_aad}
use cryp.Crypto.Content.Stream.{
  Frame, plaintext, frame_bytes, encode, AreFull, plaintext-append, encode-append, AreFull-append,
}
use cryp.Crypto.Content.Writer.{Writer, flush_chunk}

module _ (gcm : Gcm) (rand : Rand) (sink : Sink) where
  -- The writer took the bytes `x` since the sink held `base`: the full chunks are in the sink, and
  -- the rest is in the buffer.
  pub record Wrote (base key hn x : Bytes) (w : Writer sink.W rand.Seed) : Type 0 where
    pub frames : List Frame
    pub on_disk : sink.contents w.out ≡ base ++ encode gcm key hn 0 frames
    pub full : AreFull frames
    pub number : w.chunk_num ≡ length frames % 2 ^ 64
    pub taken : plaintext frames ++ w.buf ≡ x
    pub room : length w.buf ≤ 32768
    pub same_key : w.key ≡ key
    pub same_nonce : w.header_nonce ≡ hn

  -- A successful flush of a buffer that is not empty adds one chunk.
  pub record Flushed (w w' : Writer sink.W rand.Seed) : Type 0 where
    pub nonce : Bytes
    pub nonce_size : length nonce ≡ 12
    pub added :
        sink.contents w'.out
        ≡ sink.contents w.out
          ++ (nonce ++ gcm.seal w.key nonce w.buf (chunk_aad w.chunk_num w.header_nonce))
    pub next : w'.chunk_num ≡ (w.chunk_num + 1) % 2 ^ 64
    pub empty : w'.buf ≡ []
    pub key_kept : w'.key ≡ w.key
    pub nonce_kept : w'.header_nonce ≡ w.header_nonce

  pub flush_chunk-Flushed :
      (w w' : Writer sink.W rand.Seed)
      → (length w.buf == 0) ≡ false
      → flush_chunk gcm rand sink w ≡ (w', none)
      → Flushed w w'
  unfolding flush_chunk
  flush_chunk-Flushed w w' filled e = elim (Option-cases (rand.read w.seed 12).0) [
    | inl failed ↦ absurd (ground arith)
    | inr (nonce, drawn) ↦
        let data' = nonce ++ gcm.seal w.key nonce w.buf (chunk_aad w.chunk_num w.header_nonce) in
        elim (Bool-cases (sink.write w.out data').1) [
          | inl wrote ↦
              let same : record w {
                out = (sink.write w.out data').0;
                seed = (rand.read w.seed 12).1;
                chunk_num = (w.chunk_num + 1) % 2 ^ 64;
                buf = [];
              }
                  ≡ w' =
                ground arith in
              record {
                nonce = nonce;
                nonce_size = rand.read_size w.seed 12 nonce drawn;
                added =
                    ap (λ (t : Writer sink.W rand.Seed). sink.contents t.out) (sym same)
                    ∙ sink.contents-write w.out data' wrote;
                next = ap (λ (t : Writer sink.W rand.Seed). t.chunk_num) (sym same);
                empty = ap (λ (t : Writer sink.W rand.Seed). t.buf) (sym same);
                key_kept = ap (λ (t : Writer sink.W rand.Seed). t.key) (sym same);
                nonce_kept = ap (λ (t : Writer sink.W rand.Seed). t.header_nonce) (sym same);
              }
          | inr refused ↦ absurd (ground arith)
        ]
  ]

  module _ (base key hn : Bytes) where
    -- The frames after one more chunk.
    pub added_frame :
        (x : Bytes) (w w' : Writer sink.W rand.Seed) (h : Wrote base key hn x w) (f : Flushed w w')
        → sink.contents w'.out ≡ base ++ encode gcm key hn 0 (h.frames ++ (f.nonce, w.buf) ∷ [])
    unfolding encode frame_bytes
    added_frame x w w' h f =
        let done = encode gcm key hn 0 h.frames in
        let fr = f.nonce ++ gcm.seal w.key f.nonce w.buf (chunk_aad w.chunk_num w.header_nonce) in
        let count : w.chunk_num ≡ (0 + length h.frames) % 2 ^ 64 = omega (arith, h.number) in
        let same : fr ≡ encode gcm key hn (0 + length h.frames) ((f.nonce, w.buf) ∷ []) =
          rw (append-nil, h.same_key, h.same_nonce, count) refl in
        f.added
        ∙ ap (λ (t : Bytes). t ++ fr) h.on_disk
        ∙ append_assoc base done fr
        ∙ ap (λ (t : Bytes). base ++ t)
            (ap (λ (t : Bytes). done ++ t) same
              ∙ sym (encode-append gcm key hn 0 h.frames ((f.nonce, w.buf) ∷ [])))

    pub plaintext_added :
        (x n b : Bytes) (frames : List Frame)
        → plaintext frames ++ b ≡ x
        → plaintext (frames ++ (n, b) ∷ []) ≡ x
    unfolding plaintext
    plaintext_added x n b frames e =
        plaintext-append frames ((n, b) ∷ []) ∙ ap (◌++◌ (plaintext frames)) (append-nil b) ∙ e

    flush_full :
        (x : Bytes) (w w' : Writer sink.W rand.Seed)
        → Wrote base key hn x w
        → length w.buf ≡ 32768
        → flush_chunk gcm rand sink w ≡ (w', none)
        → Wrote base key hn x w'
    flush_full x w w' h size e =
        let f = flush_chunk-Flushed w w' (ground arith) e in
        record {
          frames = h.frames ++ (f.nonce, w.buf) ∷ [];
          on_disk = added_frame x w w' h f;
          full = AreFull-append h.frames _ h.full (f.nonce_size, size, tt);
          number = omega (arith, f.next, h.number, length-append h.frames ((f.nonce, w.buf) ∷ []));
          taken = rw f.empty (append-nil _ ∙ plaintext_added x f.nonce w.buf h.frames h.taken);
          room = rw f.empty (omega arith);
          same_key = f.key_kept ∙ h.same_key;
          same_nonce = f.nonce_kept ∙ h.same_nonce;
        }

    -- A write that fits goes to the buffer.
    pub buffered :
        (x p : Bytes) (w : Writer sink.W rand.Seed)
        → Wrote base key hn x w
        → length w.buf + length p ≤ 32768
        → Wrote base key hn (x ++ p) (record w { buf = w.buf ++ p })
    buffered x p w h fits = record {
      frames = h.frames;
      on_disk = h.on_disk;
      full = h.full;
      number = h.number;
      taken = sym (append_assoc (plaintext h.frames) w.buf p) ∙ ap (λ (t : Bytes). t ++ p) h.taken;
      room = omega (arith, length-append w.buf p);
      same_key = h.same_key;
      same_nonce = h.same_nonce;
    }

    -- The rest of the room in the buffer is filled, and the full buffer goes out.
    pub filled :
        (x p : Bytes) (w w' : Writer sink.W rand.Seed)
        → Wrote base key hn x w
        → 32768 - length w.buf ≤ length p
        → flush_chunk gcm rand sink (record w { buf = w.buf ++ take (32768 - length w.buf) p })
          ≡ (w', none)
        → Wrote base key hn (x ++ take (32768 - length w.buf) p) w'
    filled x p w w' h long e =
        let size = length-take (32768 - length w.buf) p in
        let total = length-append w.buf (take (32768 - length w.buf) p) in
        flush_full (x ++ take (32768 - length w.buf) p)
          (record w { buf = w.buf ++ take (32768 - length w.buf) p }) w'
          (buffered x (take (32768 - length w.buf) p) w h (omega (arith, h.room)))
          (omega (arith, h.room)) e
