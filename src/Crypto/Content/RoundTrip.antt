-- ===== src/Crypto/Content/RoundTrip.antt =====
-- The writer and the reader of internal/crypto/content.go together, and the size of what is written.
use cryp.Prelude.{
  ℕ, ◌+◌, ◌<◌, ◌≤◌, ◌^◌, ◌≡◌, refl, sym, ap, ◌∙◌, subst, none, some, List, [], ◌∷◌, ◌++◌,
  append-nil, length, arith, ok, guard-eq-ok,
}
use cryp.Bytes.{Bytes}
use cryp.Crypto.Aes.{Rand, is_key_size}
use cryp.Crypto.Gcm.{Gcm}
use cryp.Crypto.Content.Sizes.{plaintext_size_to_cipher_size}
use cryp.Crypto.Content.Sizes.Laws.{cipher_size_lem}
use cryp.Crypto.Content.Chunk.{ContentError, Sink}
use cryp.Crypto.Content.Stream.{plaintext, encode, length-encode}
use cryp.Crypto.Content.Writer.{Writer, new_encrypting_writer, write, close}
use cryp.Crypto.Content.Writer.Wrote.{Wrote}
use cryp.Crypto.Content.Writer.Loop.{write-Wrote, close-IsStream}
use cryp.Crypto.Content.Reader.{reset, read_all, file}
use cryp.Crypto.Content.Reader.ReadAll.{read_all-encode}

-- A client's successful calls of `Write`, from one state of the writer to another.
pub data Writes (gcm : Gcm) (rand : Rand) (sink : Sink) (w : Writer sink.W rand.Seed)
    : List Bytes → Writer sink.W rand.Seed → Type 0 where
  start : Writes gcm rand sink w [] w
  call :
      {ps : List Bytes} {v u : Writer sink.W rand.Seed} (p : Bytes) (n : ℕ)
      → Writes gcm rand sink w ps v
      → write gcm rand sink v p ≡ some (u, n, none)
      → Writes gcm rand sink w (p ∷ ps) u

-- What the calls wrote, the last call at the head of the list.
unfoldable pub written : List Bytes → Bytes
written [] = []
written (p ∷ ps) = written ps ++ p

module _ (gcm : Gcm) (rand : Rand) (sink : Sink) where
  fresh-Wrote :
      (out : sink.W) (seed : rand.Seed) (key hn : Bytes) (w : Writer sink.W rand.Seed)
      → new_encrypting_writer out seed key hn ≡ ok w
      → Wrote gcm rand sink (sink.contents out) key hn [] w
  unfolding new_encrypting_writer encode plaintext
  fresh-Wrote out seed key hn w e =
      let initial : Writer sink.W rand.Seed = record {
        out = out;
        seed = seed;
        key = key;
        header_nonce = hn;
        chunk_num = 0;
        buf = [];
      } in
      let same : initial ≡ w = cc ((guard-eq-ok (is_key_size key) _ _ e).1) in
      subst (Wrote gcm rand sink (sink.contents out) key hn []) same (record {
        frames = [];
        on_disk = sym (append-nil (sink.contents out));
        full = tt;
        number = omega arith;
        taken = refl;
        room = omega arith;
        same_key = refl;
        same_nonce = refl;
      })

  Writes-Wrote :
      (base key hn : Bytes) (w : Writer sink.W rand.Seed) {ps : List Bytes}
      {v : Writer sink.W rand.Seed}
      → Wrote gcm rand sink base key hn [] w
      → Writes gcm rand sink w ps v
      → Wrote gcm rand sink base key hn (written ps) v
  unfolding written
  Writes-Wrote base key hn w h start = h
  Writes-Wrote base key hn w h (call {ps} {v} {u} p n before e) =
      (write-Wrote gcm rand sink base key hn (written ps) p v u n
        (Writes-Wrote base key hn w h before) e).0

  -- A file that is written by any number of successful Write calls and a successful Close is
  -- read back exactly, in reads of any positive size, followed by the end of the file, and
  -- takes the space behind the header that PlaintextSize2CipherSize computes, up to 2^62 bytes.
  pub content_round_trip :
      (out : sink.W) (seed : rand.Seed) (key hn : Bytes) (w v u : Writer sink.W rand.Seed)
      (ps : List Bytes) (size fuel : ℕ)
      → new_encrypting_writer out seed key hn ≡ ok w
      → Writes gcm rand sink w ps v
      → close gcm rand sink v ≡ (u, none)
      → 0 < size
      → length (written ps) < fuel
      → length (written ps) ≤ 2 ^ 62
      → (stored : Bytes) × (sink.contents u.out ≡ sink.contents out ++ stored)
        × (68 + length stored ≡ plaintext_size_to_cipher_size (length (written ps)))
        × (read_all gcm file fuel (reset stored key hn 0) size
            ≡ some (written ps, ContentError.end_of_file))
  content_round_trip out seed key hn w v u ps size fuel new calls closed pos enough small =
      let h = Writes-Wrote (sink.contents out) key hn w (fresh-Wrote out seed key hn w new) calls in
      let (frames, on_disk, stream, same) =
        close-IsStream gcm rand sink (sink.contents out) key hn (written ps) v u h closed in
      let count = ap length same in
      (
        encode gcm key hn 0 frames,
        on_disk,
        omega (
          arith,
          length-encode gcm key hn 0 frames stream,
          count,
          cipher_size_lem (length (written ps)) small,
        ),
        read_all-encode gcm key hn 0 frames size fuel stream pos (omega arith)
              (omega (arith, count))
            ∙ ap (λ (t : Bytes). some (t, ContentError.end_of_file)) same,
      )
