-- ===== src/Api/Range/Serve.antt =====
-- What is served of an encrypted file: the plaintext, or the slice of it that was asked for.
use cryp.Prelude.{
  ℕ, suc, ◌+◌, ◌-◌, ◌*◌, ◌/◌, ◌%◌, ◌^◌, ◌≤◌, ◌<◌, ◌≡◌, Bool-cases, inl, inr, refl, sym, ap, ◌∙◌,
  true, false, none, some, List, [], ◌∷◌, ◌++◌, ◌==◌, length, take, drop, arith, length-append,
  length-take, length-drop, drop-append, ok,
}
use cryp.Bytes.{Bytes}
use cryp.Int64.{sub64, add64}
use cryp.GoText.{Text}
use cryp.Crypto.Aes.{is_key_size}
use cryp.Crypto.Gcm.{Gcm}
use cryp.Crypto.Content.Sizes.{plaintext_size_to_cipher_size, cipher_size_to_plaintext_size}
use cryp.Crypto.Content.Sizes.Laws.{cipher_size_lem, size_round_trip, offset_lem}
use cryp.Crypto.Content.Chunk.{FileHeader, read_file_header}
use cryp.Crypto.Content.Stream.{Frame, plaintext, encode, IsStream, length-encode}
use cryp.Crypto.Content.Reader.{reset, new_decrypting_reader, new_decrypting_reader_from_chunk}
use cryp.Crypto.Content.Reader.Steps.{drop-drop}
use cryp.Crypto.Content.Reader.ReadAll.{read_all-encode}
use cryp.Api.Range.{
  full, partial, resolve_range, whole_body, handle_range_request, handle_file_content,
}
use cryp.Api.Range.Bounds.{range_given, resolve_range_lem}
use cryp.Api.Range.Seek.{read_file_header_key, seek, fresh-Reads}
use cryp.Api.Range.Copy.{Left, copy_limited_lem}

module _ (gcm : Gcm) (front : Bytes) (header : FileHeader) (frames : List Frame)
    (head_size : length front ≡ 68) (key_size : is_key_size header.content_key ≡ true)
    (stream : IsStream frames) (small : length (plaintext frames) ≤ 2 ^ 62) where
  abbrev text_size : ℕ
  text_size = length (plaintext frames)

  abbrev stored : Bytes
  stored = front ++ encode gcm header.content_key header.nonce 0 frames

  -- The reader that a range request opens for a byte of the file.
  opened :
      (start : ℕ)
      → start < text_size
      → new_decrypting_reader_from_chunk
          (drop (68 + start / 32768 * 32796) stored)
          header.content_key
          header.nonce
          (start / 32768)
        ≡ ok (
            reset
              (encode gcm header.content_key header.nonce
                (start / 32768)
                (drop (start / 32768) frames))
              header.content_key
              header.nonce
              (start / 32768))
  unfolding new_decrypting_reader_from_chunk
  opened start inside =
      let k = start / 32768 in
      let s = seek gcm header.content_key header.nonce k 0 frames stream (omega arith) in
      let same_number : 0 + k ≡ k = omega arith in
      let bytes : drop (68 + k * 32796) stored
          ≡ encode gcm header.content_key header.nonce k (drop k frames) =
        sym (drop-drop (k * 32796) 68 stored)
        ∙ ap (λ (t : Bytes). drop (k * 32796) t)
            (drop-append 68 front (encode gcm header.content_key header.nonce 0 frames) head_size)
        ∙ s.bytes
        ∙ ap (λ (t : ℕ). encode gcm header.content_key header.nonce t (drop k frames))
            same_number in
      rw (key_size, bytes) refl

  range_served :
      (text : Text) (start end : ℕ)
      → resolve_range text text_size ≡ some (start, end)
      → handle_range_request gcm stored header text_size text
        ≡ some
            (partial start end text_size (take (suc end - start) (drop start (plaintext frames))))
  unfolding handle_range_request
  range_served text start end asked =
      let (ordered, inside) = resolve_range_lem text text_size start end (omega arith) asked in
      let k = start / 32768 in
      let skip = start % 32768 in
      let s = seek gcm header.content_key header.nonce k 0 frames stream (omega arith) in
      let there =
        fresh-Reads gcm header.content_key header.nonce k (drop k frames) s.stream (omega arith) in
      let whole : k * 32768 + skip ≡ start = omega arith in
      let left : length (plaintext (drop k frames)) ≡ text_size - k * 32768 =
        ap (λ (t : Bytes). length t) s.text ∙ length-drop (k * 32768) (plaintext frames) in
      let skipped =
        copy_limited_lem gcm header.content_key header.nonce (skip + length stored + 1) skip []
          (drop k frames) k _ 8192 there (omega arith) (omega arith) (omega (arith, left)) in
      let n = suc end - start in
      let rejoined : Left gcm header.content_key header.nonce skipped.pending skipped.frames
          ≡ drop start (plaintext frames) =
        skipped.remains
        ∙ ap (λ (t : Bytes). drop skip t) s.text
        ∙ drop-drop skip (k * 32768) (plaintext frames)
        ∙ ap (λ (t : ℕ). drop t (plaintext frames)) whole in
      let room : n
          ≤ length (Left gcm header.content_key header.nonce skipped.pending skipped.frames) =
        omega
          (arith, ap (λ (t : Bytes). length t) rejoined, length-drop start (plaintext frames)) in
      let body =
        copy_limited_lem gcm header.content_key header.nonce (n + length stored + 1) n
          skipped.pending skipped.frames skipped.chunk skipped.after 32768 skipped.reads
          (omega arith) (omega arith) room in
      let skip_size : (length (take skip (plaintext (drop k frames))) == skip) ≡ true =
        ground (arith, length-take skip (plaintext (drop k frames)), left) in
      let at = offset_lem start (omega arith) in
      let content_length : add64 (sub64 end start) 1 ≡ n = omega arith in
      rw
        (
          asked,
          at,
          opened start (omega arith),
          at,
          skipped.copies,
          at,
          skip_size,
          content_length,
          body.copies,
          rejoined,
          handle_range_request,
        )
        refl

  stored_size : cipher_size_to_plaintext_size (length stored) ≡ text_size
  stored_size =
      let cipher : length stored ≡ plaintext_size_to_cipher_size text_size = omega (
        arith,
        length-append front (encode gcm header.content_key header.nonce 0 frames),
        length-encode gcm header.content_key header.nonce 0 frames stream,
        cipher_size_lem text_size small,
      ) in
      ap (λ (t : ℕ). cipher_size_to_plaintext_size t) cipher ∙ size_round_trip text_size small

  -- The reader of the whole file.
  whole_served : whole_body gcm stored header ≡ some (full (plaintext frames))
  unfolding whole_body new_decrypting_reader new_decrypting_reader_from_chunk
  whole_served =
      let rest : drop 68 stored ≡ encode gcm header.content_key header.nonce 0 frames =
        drop-append 68 front (encode gcm header.content_key header.nonce 0 frames) head_size in
      let enough : text_size < length stored + 1 = omega (
        arith,
        length-append front (encode gcm header.content_key header.nonce 0 frames),
        length-encode gcm header.content_key header.nonce 0 frames stream,
      ) in
      let all =
        read_all-encode gcm header.content_key header.nonce 0 frames 32768 (length stored + 1)
          stream (omega arith) (omega arith) enough in
      rw (key_size, rest, all, whole_body) refl

module _ (gcm : Gcm) (front master : Bytes) (header : FileHeader) (frames : List Frame)
    (head_size : length front ≡ 68)
    (authentic : read_file_header gcm
        (front ++ encode gcm header.content_key header.nonce 0 frames)
        master
      ≡ ok header)
    (stream : IsStream frames) (small : length (plaintext frames) ≤ 2 ^ 62) where
  abbrev on_disk : Bytes
  on_disk = front ++ encode gcm header.content_key header.nonce 0 frames

  good_key : is_key_size header.content_key ≡ true
  good_key = read_file_header_key gcm on_disk master header authentic

  -- For a stored file with an authentic header of 68 bytes and a stream of chunks of up to 2^62
  -- bytes of plaintext, a request without a range is answered with exactly the plaintext.
  pub content_full : handle_file_content gcm on_disk master none ≡ some (full (plaintext frames))
  unfolding handle_file_content
  content_full =
      let size = stored_size gcm front header frames head_size good_key stream small in
      elim (Bool-cases (length (plaintext frames) == 0)) [
        | inl empty ↦
            rw (authentic, size, empty, handle_file_content)
              (ap (λ (t : Bytes). some (full t)) (sym (no_bytes (plaintext frames) empty)))
        | inr there ↦
            rw (authentic, size, there, handle_file_content)
              (whole_served gcm front header frames head_size good_key stream small)
      ]
    where
      no_bytes : (xs : Bytes) → (length xs == 0) ≡ true → xs ≡ []
      no_bytes [] e = refl
      no_bytes (x ∷ xs) e = absurd (ground (arith, e))

  -- For a stored file with an authentic header of 68 bytes and a stream of chunks of up to 2^62
  -- bytes of plaintext, a range request that resolves to the bytes from start to end is
  -- answered with exactly that slice of the plaintext, end - start + 1 bytes, and with its
  -- bounds and the total size.
  pub content_partial :
      (text : Text) (start end : ℕ)
      → resolve_range text (length (plaintext frames)) ≡ some (start, end)
      → handle_file_content gcm on_disk master (some text)
          ≡ some (
              partial start end
                (length (plaintext frames))
                (take (suc end - start) (drop start (plaintext frames))))
        × (length (take (suc end - start) (drop start (plaintext frames))) ≡ suc end - start)
  unfolding handle_file_content
  content_partial text start end asked =
      let size = stored_size gcm front header frames head_size good_key stream small in
      let (ordered, inside) =
        resolve_range_lem text (length (plaintext frames)) start end (omega arith) asked in
      let there : (length (plaintext frames) == 0) ≡ false = ground (arith, inside) in
      (
        rw
            (
              authentic,
              size,
              there,
              range_given text (length (plaintext frames)) start end asked,
              handle_file_content,
            )
            (range_served gcm front header frames head_size good_key stream small text start end
              asked),
        omega (
          arith,
          length-take (suc end - start) (drop start (plaintext frames)),
          length-drop start (plaintext frames),
        ),
      )
