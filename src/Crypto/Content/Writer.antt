-- ===== src/Crypto/Content/Writer.antt =====
-- `EncryptingWriter` of internal/crypto/content.go. The reusable buffers `outBuf` and `aadBuf` hold
-- nothing between two calls and are left out of the state.
pub mod Wrote
pub mod Loop
use cryp.Prelude.{
  ℕ, zero, suc, ◌+◌, ◌-◌, ◌%◌, ◌^◌, Bool, true, false, Option, none, some, [], ◌++◌, ◌==◌, ltb,
  length, take, drop, if◌then◌else◌, Result, ok, err, guard, ◌>>◌,
}
use cryp.Bytes.{Bytes}
use cryp.Crypto.Aes.{Rand, is_key_size}
use cryp.Crypto.Gcm.{Gcm}
use cryp.Crypto.Content.Sizes.{chunk_nonce_size, chunk_payload_size}
use cryp.Crypto.Content.Chunk.{ContentError, Sink, chunk_aad}

-- The state of a writer over a sink, with the source of its nonces.
pub record Writer (W Seed : Type 0) : Type 0 where
  pub out : W
  pub seed : Seed
  pub key : Bytes
  pub header_nonce : Bytes
  pub chunk_num : ℕ
  pub buf : Bytes

-- `NewEncryptingWriter`.
unfoldable pub new_encrypting_writer :
    {W Seed : Type 0} → W → Seed → Bytes → Bytes → Result ContentError (Writer W Seed)
new_encrypting_writer out seed key header_nonce = do
  guard (is_key_size key) ContentError.invalid_key_size
  ok (record {
    out = out;
    seed = seed;
    key = key;
    header_nonce = header_nonce;
    chunk_num = 0;
    buf = [];
  })

module _ (gcm : Gcm) (rand : Rand) (sink : Sink) where
  abbrev State : Type 0
  State = Writer sink.W rand.Seed

  -- The write to the underlying writer, and what follows it.
  unfoldable pub put_chunk : State → Bytes → State × Option ContentError
  put_chunk w data' =
      let (out, wrote) = sink.write w.out data' in
      if wrote
      then (record w { out = out; chunk_num = (w.chunk_num + 1) % 2 ^ 64; buf = [] }, none)
      else (record w { out = out }, some ContentError.write_failed)

  -- `flushChunk`.
  unfoldable pub flush_chunk : State → State × Option ContentError
  unfolding put_chunk
  flush_chunk w =
      if length w.buf == 0
      then (w, none)
      else let (drawn, seed) = rand.read w.seed chunk_nonce_size in
        elim drawn [
          | none ↦ (record w { seed = seed }, some ContentError.rand_failed)
          | some nonce ↦
              put_chunk (record w { seed = seed })
                (nonce ++ gcm.seal w.key nonce w.buf (chunk_aad w.chunk_num w.header_nonce))
        ]

  -- The loop of `Write`: the writer, the bytes taken so far, and the error. `none` is no Go value:
  -- the fuel ran out.
  unfoldable pub write_loop : ℕ → State → Bytes → ℕ → Option (State × ℕ × Option ContentError)
  write_loop zero w p total = none
  write_loop (suc fuel) w p total = elim (length p == 0) [
    | true ↦ some (w, total, none)
    | false ↦
        let space = chunk_payload_size - length w.buf in
        elim (ltb (length p) space) [
          | true ↦ some (record w { buf = w.buf ++ p }, total + length p, none)
          | false ↦
              let (w', failed) = flush_chunk (record w { buf = w.buf ++ take space p }) in
              elim failed [
                | none ↦ write_loop fuel w' (drop space p) (total + space)
                | some e ↦ some (w', total + space, some e)
              ]
        ]
  ]

  -- `Write`. Every round but the first takes a byte or more.
  unfoldable pub write : State → Bytes → Option (State × ℕ × Option ContentError)
  write w p = write_loop (length p + 2) w p 0

  -- `Close`.
  unfoldable pub close : State → State × Option ContentError
  close w = flush_chunk w
