-- ===== src/Crypto/Content/Writer/Loop.antt =====
-- The loop of `Write`, and the guarantees of `Write` and `Close`.
use cryp.Prelude.{
  ℕ, zero, suc, ◌+◌, ◌-◌, ◌<◌, ◌≡◌, refl, sym, ap, ◌∙◌, true, false, Option, none, some, List, [],
  ◌∷◌, ◌++◌, ◌==◌, ==_iff, ltb, length, take, drop, append_assoc, append-nil, length-drop,
  take-append-drop, arith, Bool-cases, Option-cases, inl, inr, subst,
}
use cryp.Bytes.{Bytes}
use cryp.Crypto.Aes.{Rand}
use cryp.Crypto.Gcm.{Gcm}
use cryp.Crypto.Content.Chunk.{ContentError, Sink}
use cryp.Crypto.Content.Stream.{
  Frame, plaintext, encode, IsStream, IsStream-AreFull, IsStream-append,
}
use cryp.Crypto.Content.Writer.{Writer, flush_chunk, write_loop, write, close}
use cryp.Crypto.Content.Writer.Wrote.{
  Wrote, flush_chunk-Flushed, buffered, filled, added_frame, plaintext_added,
}

length_zero : (p : Bytes) → (length p == 0) ≡ true → p ≡ []
length_zero [] z = refl
length_zero (x ∷ p) z = absurd (ground arith)

pair_eq : {A B : Type 0} (r : A × B) {b : B} → r.1 ≡ b → r ≡ (r.0, b)
pair_eq r e = λ i. (r.0, e i)

-- A round that flushes brings the loop nearer to its end.
smaller :
    (p b space fuel d : ℕ)
    → b ≡ 0
    → d ≡ p - space
    → (p == 0) ≡ false
    → p + (1 - space) < suc fuel
    → d + (1 - (32768 - b)) < fuel
smaller p b space fuel d hb hd z h = ground arith

module _ (gcm : Gcm) (rand : Rand) (sink : Sink) where
  -- The ways through one round of the loop.
  loop_empty :
      (fuel : ℕ) (w : Writer sink.W rand.Seed) (p : Bytes) (total : ℕ)
      → (length p == 0) ≡ true
      → write_loop gcm rand sink (suc fuel) w p total ≡ some (w, total, none)
  unfolding write_loop
  loop_empty fuel w p total z = ground arith

  loop_fits :
      (fuel : ℕ) (w : Writer sink.W rand.Seed) (p : Bytes) (total : ℕ)
      → (length p == 0) ≡ false
      → ltb (length p) (32768 - length w.buf) ≡ true
      → write_loop gcm rand sink (suc fuel) w p total
        ≡ some (record w { buf = w.buf ++ p }, total + length p, none)
  unfolding write_loop
  loop_fits fuel w p total z fits = ground arith

  -- The writer after the flush of a round.
  abbrev refill : Writer sink.W rand.Seed → Bytes → Writer sink.W rand.Seed × Option ContentError
  refill w p = flush_chunk gcm rand sink (record w { buf = w.buf ++ take (32768 - length w.buf) p })

  loop_fails :
      (fuel : ℕ) (w : Writer sink.W rand.Seed) (p : Bytes) (total : ℕ) (failed : ContentError)
      → (length p == 0) ≡ false
      → ltb (length p) (32768 - length w.buf) ≡ false
      → (refill w p).1 ≡ some failed
      → write_loop gcm rand sink (suc fuel) w p total
        ≡ some ((refill w p).0, total + (32768 - length w.buf), some failed)
  unfolding write_loop
  loop_fails fuel w p total failed z long f = ground arith

  loop_goes_on :
      (fuel : ℕ) (w : Writer sink.W rand.Seed) (p : Bytes) (total : ℕ)
      → (length p == 0) ≡ false
      → ltb (length p) (32768 - length w.buf) ≡ false
      → (refill w p).1 ≡ none
      → write_loop gcm rand sink (suc fuel) w p total
        ≡ write_loop gcm rand sink fuel
            (refill w p).0
            (drop (32768 - length w.buf) p)
            (total + (32768 - length w.buf))
  unfolding write_loop
  loop_goes_on fuel w p total z long f = ground arith

  module _ (base key hn : Bytes) where
    write_loop-Wrote :
        (fuel : ℕ) (x p : Bytes) (w w' : Writer sink.W rand.Seed) (total n : ℕ)
        → Wrote gcm rand sink base key hn x w
        → write_loop gcm rand sink fuel w p total ≡ some (w', n, none)
        → Wrote gcm rand sink base key hn (x ++ p) w' × (n ≡ total + length p)
    write_loop-Wrote zero x p w w' total n h e = absurd (unfold write_loop in ground (arith, e))
    write_loop-Wrote (suc fuel) x p w w' total n h e = elim (Bool-cases (length p == 0)) [
      | inl z ↦
          let r = sym (loop_empty fuel w p total z) ∙ e in
          let same : w ≡ w' = cc r in
          let count : total ≡ n = cc r in
          let nothing : p ≡ [] = length_zero p z in
          (
            subst (Wrote gcm rand sink base key hn (x ++ p)) same (rw (nothing, append-nil) h),
            omega (arith, (==_iff (length p) 0).0 z, count),
          )
      | inr z ↦ elim (Bool-cases (ltb (length p) (32768 - length w.buf))) [
        | inl fits ↦
            let r = sym (loop_fits fuel w p total z fits) ∙ e in
            let same : record w { buf = w.buf ++ p } ≡ w' = cc r in
            let count : total + length p ≡ n = cc r in
            (
              subst (Wrote gcm rand sink base key hn (x ++ p)) same
                  (buffered gcm rand sink base key hn x p w h (ground arith)),
              omega arith,
            )
        | inr long ↦ elim (Option-cases (refill w p).1) [
          | inl fine ↦
              let space = 32768 - length w.buf in
              let r = sym (loop_goes_on fuel w p total z long fine) ∙ e in
              let flushed : refill w p ≡ ((refill w p).0, none) = pair_eq (refill w p) fine in
              let h' =
                filled gcm rand sink base key hn x p w (refill w p).0 h (ground arith) flushed in
              let (h2, count) =
                write_loop-Wrote fuel (x ++ take space p) (drop space p) (refill w p).0 w'
                  (total + space) n h' r in
              (
                subst (λ (t : Bytes). Wrote gcm rand sink base key hn t w')
                    (append_assoc x (take space p) (drop space p)
                      ∙ ap (◌++◌ x) (take-append-drop space p))
                    h2,
                ground (arith, count, length-drop space p),
              )
          | inr (failed, f) ↦ absurd (cc (sym (loop_fails fuel w p total failed z long f) ∙ e))
        ]
      ]
    ]

    -- A write that reports no error took all its bytes, and keeps what was written and buffered.
    pub write-Wrote :
        (x p : Bytes) (w w' : Writer sink.W rand.Seed) (n : ℕ)
        → Wrote gcm rand sink base key hn x w
        → write gcm rand sink w p ≡ some (w', n, none)
        → Wrote gcm rand sink base key hn (x ++ p) w' × (n ≡ length p)
    unfolding write
    write-Wrote x p w w' n h e =
        let (after, count) = write_loop-Wrote (length p + 2) x p w w' 0 n h e in
        (after, omega (arith, count))

    -- A close that reports no error leaves a complete stream behind what the sink held: its plaintext
    -- is what was written.
    pub close-IsStream :
        (x : Bytes) (w w' : Writer sink.W rand.Seed)
        → Wrote gcm rand sink base key hn x w
        → close gcm rand sink w ≡ (w', none)
        → (frames : List Frame) × (sink.contents w'.out ≡ base ++ encode gcm key hn 0 frames)
          × IsStream frames
          × (plaintext frames ≡ x)
    unfolding close
    close-IsStream x w w' h e = elim (Bool-cases (length w.buf == 0)) [
      | inl z ↦
          let same : w ≡ w' = unfold flush_chunk in ground arith in
          (
            h.frames,
            ap (λ (t : Writer sink.W rand.Seed). sink.contents t.out) (sym same) ∙ h.on_disk,
            IsStream-AreFull h.frames h.full,
            sym (append-nil (plaintext h.frames))
                ∙ ap (◌++◌ (plaintext h.frames)) (sym (length_zero w.buf z))
                ∙ h.taken,
          )
      | inr z ↦
          let f = flush_chunk-Flushed gcm rand sink w w' z e in
          (
            h.frames ++ (f.nonce, w.buf) ∷ [],
            added_frame gcm rand sink base key hn x w w' h f,
            IsStream-append h.frames f.nonce w.buf h.full f.nonce_size (ground arith) h.room,
            plaintext_added gcm rand sink base key hn x f.nonce w.buf h.frames h.taken,
          )
    ]

  flush_chunk_empties :
      (w w' : Writer sink.W rand.Seed)
      → flush_chunk gcm rand sink w ≡ (w', none)
      → length w'.buf ≡ 0
  flush_chunk_empties w w' e = elim (Bool-cases (length w.buf == 0)) [
    | inl z ↦ unfold flush_chunk in ground arith
    | inr z ↦ ap length (flush_chunk-Flushed gcm rand sink w w' z e).empty
  ]

  write_loop_total :
      (fuel : ℕ) (w : Writer sink.W rand.Seed) (p : Bytes) (total : ℕ)
      → length p + (1 - (32768 - length w.buf)) < fuel
      → (r : Writer sink.W rand.Seed × ℕ × Option ContentError) × (write_loop gcm rand sink fuel w p
            total
          ≡ some r)
  write_loop_total zero w p total h = elim h [ ]
  write_loop_total (suc fuel) w p total h = elim (Bool-cases (length p == 0)) [
    | inl z ↦ (_, loop_empty fuel w p total z)
    | inr z ↦ elim (Bool-cases (ltb (length p) (32768 - length w.buf))) [
      | inl fits ↦ (_, loop_fits fuel w p total z fits)
      | inr long ↦ elim (Option-cases (refill w p).1) [
        | inl fine ↦
            let empty = flush_chunk_empties _ _ (pair_eq (refill w p) fine) in
            let space = 32768 - length w.buf in
            let rest = write_loop_total fuel (refill w p).0 (drop space p) (total + space) (
              smaller (length p) (length (refill w p).0.buf) space fuel (length (drop space p))
                empty (length-drop space p) z h) in
            (rest.0, loop_goes_on fuel w p total z long fine ∙ rest.1)
        | inr (failed, f) ↦ (_, loop_fails fuel w p total failed z long f)
      ]
    ]
  ]

  -- EncryptingWriter.Write returns on every writer and input, whatever the sink and the
  -- randomness do: the fuel of the model is enough.
  pub write_total :
      (w : Writer sink.W rand.Seed) (p : Bytes)
      → (r : Writer sink.W rand.Seed × ℕ × Option ContentError) × (write gcm rand sink w p ≡ some r)
  unfolding write
  write_total w p = write_loop_total (length p + 2) w p 0 (omega arith)
