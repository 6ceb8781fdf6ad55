-- ===== src/Crypto/Content/Reader/Steps.antt =====
-- The single steps of a reader over a stream of chunks.
use cryp.Prelude.{
  ℕ, zero, suc, ◌+◌, ◌%◌, ◌^◌, ◌<◌, ◌≤◌, ◌≡◌, ◌⊎◌, inl, inr, refl, sym, ap, ◌∙◌, Bool, true, false,
  ◌||◌, none, some, List, [], ◌∷◌, ◌++◌, ◌==◌, ltb, length, take, drop, if◌then◌else◌, arith,
  append-nil, length-append, length-drop, take-append, drop-append, take_of_length-le,
  drop_of_length-le,
}
use cryp.Bytes.{Bytes}
use cryp.Crypto.Gcm.{Gcm}
use cryp.Crypto.Content.Chunk.{chunk_aad}
use cryp.Crypto.Content.Stream.{Frame, frame_bytes, encode, IsStream, length-frame_bytes}
use cryp.Crypto.Content.Reader.{
  Reader, ReadEnd, is_end, is_failure, serve, open_chunk, take_chunk, read, file, file_read_full,
}

pub drop-nil : (m : ℕ) → ◌≡◌ {A = Bytes} (drop m []) []
drop-nil zero = refl
drop-nil (suc m) = refl

pub drop-drop : (m n : ℕ) (xs : Bytes) → drop m (drop n xs) ≡ drop (n + m) xs
drop-drop m zero xs = ap (λ (t : ℕ). drop t xs) (omega arith)
drop-drop m (suc n) [] = drop-nil m ∙ sym (drop-nil (suc n + m))
drop-drop m (suc n) (x ∷ xs) =
    let e : suc n + m ≡ suc (n + m) = omega arith in rw e (drop-drop m n xs)

drop-length-take : (n : ℕ) (xs : Bytes) → drop (length (take n xs)) xs ≡ drop n xs
drop-length-take zero xs = refl
drop-length-take (suc n) [] = refl
drop-length-take (suc n) (x ∷ xs) = drop-length-take n xs

file_whole :
    (b : Bytes) (n : ℕ)
    → 0 < length b
    → length b ≤ n
    → file_read_full b n
      ≡ (b, (if ltb (length b) n then ReadEnd.cut_short else ReadEnd.complete), [])
unfolding file_read_full
file_whole b n pos le =
    let some_left : (length b == 0) ≡ false = ground arith in
    rw (take_of_length-le n b le, drop_of_length-le n b le, some_left) refl

file_prefix :
    (a b : Bytes) (n : ℕ)
    → length a ≡ n
    → 0 < n
    → file_read_full (a ++ b) n ≡ (a, ReadEnd.complete, b)
unfolding file_read_full
file_prefix a b n size pos =
    let total = length-append a b in
    let some_left : (length (a ++ b) == 0) ≡ false = ground (arith, total) in
    let enough : ltb (length (a ++ b)) n ≡ false = ground (arith, total) in
    rw (take-append n a b size, drop-append n a b size, some_left, enough) refl

-- The ending that io.ReadFull reports for the last chunk is no failure.
last_ending : (t : Bool) → is_failure (if t then ReadEnd.cut_short else ReadEnd.complete) ≡ false
last_ending true = refl
last_ending false = refl

still_going : {F : Type 0} (a b : Bool) → (a ≡ false) ⊎ F → b ≡ false → ((a || b) ≡ false) ⊎ F
still_going a b (inl e) h = inl (rw (e, h) refl)
still_going a b (inr f) h = inr f

module _ (gcm : Gcm) (key hn : Bytes) where
  -- A reader that holds the decrypted bytes `pending`, before the given frames.
  pub record Reads (pending : Bytes) (frames : List Frame) (c : ℕ) (dr : Reader Bytes)
      : Type 0 where
    pub input : dr.input ≡ encode gcm key hn c frames
    pub number : dr.chunk_num ≡ c % 2 ^ 64
    pub held : drop dr.offset dr.buf ≡ pending
    pub same_key : dr.key ≡ key
    pub same_nonce : dr.header_nonce ≡ hn
    pub stream : IsStream frames
    pub ended : (dr.done ≡ false) ⊎ (frames ≡ [])

  pub serve_step :
      (pending : Bytes) (frames : List Frame) (c : ℕ) (dr : Reader Bytes) (size : ℕ)
      → Reads pending frames c dr
      → (dr' : Reader Bytes) × (serve dr size ≡ (dr', take size pending, none))
        × Reads (drop size pending) frames c dr'
  unfolding serve
  serve_step pending frames c dr size h = (
    record dr { offset = dr.offset + length (take size (drop dr.offset dr.buf)) },
    rw h.held refl,
    record {
      input = h.input;
      number = h.number;
      held =
          sym (drop-drop (length (take size (drop dr.offset dr.buf))) dr.offset dr.buf)
          ∙ drop-length-take size (drop dr.offset dr.buf)
          ∙ ap (drop size) h.held;
      same_key = h.same_key;
      same_nonce = h.same_nonce;
      stream = h.stream;
      ended = h.ended;
    },
  )

  -- What io.ReadFull takes off the front of a stream.
  front :
      (c : ℕ) (n p : Bytes) (fs : List Frame)
      → IsStream ((n, p) ∷ fs)
      → (ending : ReadEnd) × (file_read_full (encode gcm key hn c ((n, p) ∷ fs)) 32796
          ≡ (frame_bytes gcm key hn c (n, p), ending, encode gcm key hn (suc c) fs))
        × (is_failure ending ≡ false)
        × ((is_end ending ≡ false) ⊎ (fs ≡ []))
  unfolding file_read_full encode
  front c n p [] h =
      let size = length-frame_bytes gcm key hn c n p h.0 in
      (
        (if ltb (length (frame_bytes gcm key hn c (n, p))) 32796
            then ReadEnd.cut_short
            else ReadEnd.complete),
        rw append-nil (
            file_whole (frame_bytes gcm key hn c (n, p)) 32796 (omega (arith, size))
              (omega (arith, size))),
        last_ending _,
        inr refl,
      )
  front c n p (f ∷ fs) h = (
    ReadEnd.complete,
    file_prefix (frame_bytes gcm key hn c (n, p)) _ 32796
        (omega (arith, length-frame_bytes gcm key hn c n p h.0)) (omega arith),
    refl,
    inl refl,
  )

  -- The rest of a stream is a stream.
  rest-IsStream : (n p : Bytes) (fs : List Frame) → IsStream ((n, p) ∷ fs) → IsStream fs
  rest-IsStream n p [] h = tt
  rest-IsStream n p (f ∷ fs) h = h.2

  pub first_sizes :
      (n p : Bytes) (fs : List Frame) → IsStream ((n, p) ∷ fs) → (length n ≡ 12) × (0 < length p)
  first_sizes n p [] h = (h.0, h.1)
  first_sizes n p (f ∷ fs) h = (h.0, omega arith)

  open_chunk_lem :
      (dr : Reader Bytes) (data' p : Bytes) (ending : ReadEnd) (size : ℕ)
      → gcm.unseal dr.key (take 12 data') (drop 12 data') (chunk_aad dr.chunk_num dr.header_nonce)
        ≡ some p
      → open_chunk gcm dr data' ending size
        ≡ serve
            (record dr {
              chunk_num = (dr.chunk_num + 1) % 2 ^ 64;
              buf = p;
              offset = 0;
              done = is_end ending || dr.done;
            })
            size
  unfolding open_chunk
  open_chunk_lem dr data' p ending size e = rw (e, open_chunk) refl

  take_chunk_lem :
      (dr : Reader Bytes) (data' : Bytes) (ending : ReadEnd) (size : ℕ)
      → 28 ≤ length data'
      → is_failure ending ≡ false
      → take_chunk gcm dr data' ending size ≡ open_chunk gcm dr data' ending size
  unfolding take_chunk
  take_chunk_lem dr data' ending size long fine =
      let there : (length data' == 0) ≡ false = ground arith in
      let whole : ltb (length data') 28 ≡ false = ground arith in rw (there, whole, fine) refl

  -- A chunk that was read from the file decrypts and is served.
  take_frame :
      (dr : Reader Bytes) (c : ℕ) (n p : Bytes) (ending : ReadEnd) (size : ℕ)
      → dr.key ≡ key
      → dr.header_nonce ≡ hn
      → dr.chunk_num ≡ c % 2 ^ 64
      → length n ≡ 12
      → is_failure ending ≡ false
      → take_chunk gcm dr (frame_bytes gcm key hn c (n, p)) ending size
        ≡ serve
            (record dr {
              chunk_num = (dr.chunk_num + 1) % 2 ^ 64;
              buf = p;
              offset = 0;
              done = is_end ending || dr.done;
            })
            size
  take_frame dr c n p ending size hk hh hc hn12 fine =
      let fb = frame_bytes gcm key hn c (n, p) in
      take_chunk_lem dr fb ending size (omega (arith, length-frame_bytes gcm key hn c n p hn12))
        fine
      ∙ open_chunk_lem dr fb p ending size (
          unfold frame_bytes in
          rw
            (
              take-append 12 n (gcm.seal key n p (chunk_aad (c % 2 ^ 64) hn)) hn12,
              drop-append 12 n (gcm.seal key n p (chunk_aad (c % 2 ^ 64) hn)) hn12,
              hk,
              hh,
              hc,
            )
            (gcm.unseal-seal key n p (chunk_aad (c % 2 ^ 64) hn)))

  -- A read with nothing held and the input not at its end goes to the file.
  read_next :
      (dr : Reader Bytes) (size : ℕ)
      → drop dr.offset dr.buf ≡ []
      → dr.done ≡ false
      → 0 < size
      → read gcm file dr size
        ≡ take_chunk gcm
            (record dr { input = (file_read_full dr.input 32796).2 })
            (file_read_full dr.input 32796).0
            (file_read_full dr.input 32796).1
            size
  unfolding read
  read_next dr size h open' pos =
      let room : (size == 0) ≡ false = ground arith in
      let empty : ltb dr.offset (length dr.buf) ≡ false =
        ground (arith, length-drop dr.offset dr.buf, ap length h) in
      rw (room, empty, open') refl

  pub read_frame :
      (dr : Reader Bytes) (c : ℕ) (n p : Bytes) (fs : List Frame) (size : ℕ)
      → Reads [] ((n, p) ∷ fs) c dr
      → 0 < size
      → dr.done ≡ false
      → (dr' : Reader Bytes) × (read gcm file dr size ≡ (dr', take size p, none))
        × Reads (drop size p) fs (suc c) dr'
  read_frame dr c n p fs size h pos going =
      let (ending, got, fine, last) = front c n p fs h.stream in
      let got' = ap (λ (t : Bytes). file_read_full t 32796) h.input ∙ got in
      let mid : Reader Bytes = record dr { input = encode gcm key hn (suc c) fs } in
      let first =
        read_next dr size h.held going pos
        ∙ ap
            (λ (t : Bytes × ReadEnd × Bytes).
              take_chunk gcm (record dr { input = t.2 }) t.0 t.1 size)
            got'
        ∙ take_frame mid c n p ending size h.same_key h.same_nonce h.number
            (first_sizes n p fs h.stream).0 fine in
      let (dr', served, after) =
        serve_step p fs (suc c)
          (record mid {
            chunk_num = (dr.chunk_num + 1) % 2 ^ 64;
            buf = p;
            offset = 0;
            done = is_end ending || dr.done;
          })
          size
          (record {
            input = refl;
            number = omega (arith, h.number);
            held = refl;
            same_key = h.same_key;
            same_nonce = h.same_nonce;
            stream = rest-IsStream n p fs h.stream;
            ended = still_going (is_end ending) dr.done last going;
          }) in
      (dr', first ∙ served, after)
