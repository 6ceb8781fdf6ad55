-- ===== src/Crypto/Content/Stream.antt =====
-- The chunk format as a specification, independent of the writer and the reader: a stream is a list
-- of nonces and payloads, numbered from some chunk on.
use cryp.Prelude.{
  ◌*◌, ◌/◌, ℕ, suc, ◌+◌, ◌%◌, ◌^◌, ◌≤◌, ◌<◌, ◌≡◌, refl, sym, ap, ◌∙◌, List, [], ◌∷◌, ◌++◌,
  append_assoc, arith, length, length-append,
}
use cryp.Bytes.{Bytes}
use cryp.Crypto.Gcm.{Gcm}
use cryp.Crypto.Content.Chunk.{chunk_aad}
use cryp.Crypto.Content.Sizes.{chunk_payload_size, chunk_nonce_size}

-- A nonce and a payload.
abbrev pub Frame : Type 0
Frame = Bytes × Bytes

-- The plaintext of a stream.
unfoldable pub plaintext : List Frame → Bytes
plaintext [] = []
plaintext ((nonce, p) ∷ frames) = p ++ plaintext frames

-- One frame on disk.
unfoldable pub frame_bytes : Gcm → Bytes → Bytes → ℕ → Frame → Bytes
frame_bytes gcm key hn c (nonce, p) = nonce ++ gcm.seal key nonce p (chunk_aad (c % 2 ^ 64) hn)

-- The bytes on disk, the first chunk with number `c`.
unfoldable pub encode : Gcm → Bytes → Bytes → ℕ → List Frame → Bytes
encode gcm key hn c [] = []
encode gcm key hn c (f ∷ frames) = frame_bytes gcm key hn c f ++ encode gcm key hn (suc c) frames

-- Frames of the full size.
abbrev pub AreFull : List Frame → Type 0
AreFull [] = Unit {0}
AreFull ((nonce, p) ∷ frames) =
    (length nonce ≡ chunk_nonce_size) × (length p ≡ chunk_payload_size) × AreFull frames

-- Full frames, and at the end one that may be shorter but not empty.
abbrev pub IsStream : List Frame → Type 0
IsStream [] = Unit {0}
IsStream ((nonce, p) ∷ []) =
    (length nonce ≡ chunk_nonce_size) × (0 < length p) × (length p ≤ chunk_payload_size)
IsStream ((nonce, p) ∷ f ∷ frames) =
    (length nonce ≡ chunk_nonce_size) × (length p ≡ chunk_payload_size) × IsStream (f ∷ frames)

pub plaintext-append : (xs ys : List Frame) → plaintext (xs ++ ys) ≡ plaintext xs ++ plaintext ys
unfolding plaintext
plaintext-append [] ys = refl
plaintext-append ((n, p) ∷ xs) ys =
    ap (◌++◌ p) (plaintext-append xs ys) ∙ sym (append_assoc p (plaintext xs) (plaintext ys))

pub encode-append :
    (gcm : Gcm) (key hn : Bytes) (c : ℕ) (xs ys : List Frame)
    → encode gcm key hn c (xs ++ ys)
      ≡ encode gcm key hn c xs ++ encode gcm key hn (c + length xs) ys
unfolding encode
encode-append gcm key hn c [] ys = ap (λ (t : ℕ). encode gcm key hn t ys) (omega arith)
encode-append gcm key hn c (x ∷ xs) ys =
    let shift : suc c + length xs ≡ c + suc (length xs) = omega arith in
    ap (◌++◌ (frame_bytes gcm key hn c x)) (encode-append gcm key hn (suc c) xs ys)
    ∙ sym (
        append_assoc (frame_bytes gcm key hn c x) (encode gcm key hn (suc c) xs)
          (encode gcm key hn (suc c + length xs) ys))
    ∙ ap (λ (t : ℕ). encode gcm key hn c (x ∷ xs) ++ encode gcm key hn t ys) shift

pub AreFull-append : (xs ys : List Frame) → AreFull xs → AreFull ys → AreFull (xs ++ ys)
AreFull-append [] ys h k = k
AreFull-append ((n, p) ∷ xs) ys h k = (h.0, h.1, AreFull-append xs ys h.2 k)

pub IsStream-AreFull : (xs : List Frame) → AreFull xs → IsStream xs
IsStream-AreFull [] h = tt
IsStream-AreFull ((n, p) ∷ []) h = (h.0, omega arith, omega arith)
IsStream-AreFull ((n, p) ∷ x ∷ xs) h = (h.0, h.1, IsStream-AreFull (x ∷ xs) h.2)

-- Full frames with any nonempty last frame.
pub IsStream-append :
    (xs : List Frame) (n p : Bytes)
    → AreFull xs
    → length n ≡ chunk_nonce_size
    → 0 < length p
    → length p ≤ chunk_payload_size
    → IsStream (xs ++ (n, p) ∷ [])
IsStream-append [] n p h hn pos le = (hn, pos, le)
IsStream-append ((m, q) ∷ []) n p h hn pos le = (h.0, h.1, (hn, pos, le))
IsStream-append ((m, q) ∷ x ∷ xs) n p h hn pos le =
    (h.0, h.1, IsStream-append (x ∷ xs) n p h.2 hn pos le)

pub length-frame_bytes :
    (gcm : Gcm) (key hn : Bytes) (c : ℕ) (nonce p : Bytes)
    → length nonce ≡ 12
    → length (frame_bytes gcm key hn c (nonce, p)) ≡ length p + 28
unfolding frame_bytes
length-frame_bytes gcm key hn c nonce p h = omega (
  arith,
  length-append nonce (gcm.seal key nonce p (chunk_aad (c % 2 ^ 64) hn)),
  gcm.length-seal key nonce p (chunk_aad (c % 2 ^ 64) hn),
)

-- A stream takes its plaintext and 28 bytes for each frame.
pub length-encode :
    (gcm : Gcm) (key hn : Bytes) (c : ℕ) (frames : List Frame)
    → IsStream frames
    → length (encode gcm key hn c frames)
      ≡ length (plaintext frames) + 28 * ((length (plaintext frames) + 32767) / 32768)
unfolding encode plaintext
length-encode gcm key hn c [] h = omega arith
length-encode gcm key hn c ((n, p) ∷ []) h = omega (
  arith,
  length-append (frame_bytes gcm key hn c (n, p)) [],
  length-append p [],
  length-frame_bytes gcm key hn c n p h.0,
)
length-encode gcm key hn c ((n, p) ∷ f ∷ fs) h =
    let rest = encode gcm key hn (suc c) (f ∷ fs) in
    omega (
      arith,
      length-append (frame_bytes gcm key hn c (n, p)) rest,
      length-append p (plaintext (f ∷ fs)),
      length-frame_bytes gcm key hn c n p h.0,
      length-encode gcm key hn (suc c) (f ∷ fs) h.2,
      h.1,
    )
