-- ===== src/Tail.antt =====
-- `TailBuffer` of internal/procgroup/output.go: what is kept of the output of an external tool. The
-- limit is an int64 pattern; the mutex makes each call one step.
use cryp.Prelude.{
  ℕ, ◌+◌, ◌-◌, ◌≤◌, ◌<◌, ◌≡◌, refl, sym, ap, ◌∙◌, true, Bool-cases, inl, inr, not, List, [], ◌∷◌,
  ◌++◌, append-nil, append_assoc, arith, ltb, leb, length, take, drop, length-append, length-take,
  length-drop, take-append-drop, drop_of_length-le, if◌then◌else◌, suc,
}
use cryp.Bytes.{Bytes}
use cryp.Int64.{is_positive}

pub record TailBuffer : Type 0 where
  pub limit : ℕ
  pub buf : Bytes

-- `NewTailBuffer`.
unfoldable pub new_tail_buffer : ℕ → TailBuffer
new_tail_buffer limit = record { limit = limit; buf = [] }

-- `Write`: the buffer, and the count that it reports.
unfoldable pub tail_write : TailBuffer → Bytes → TailBuffer × ℕ
tail_write b p =
    if not (is_positive b.limit)
    then (b, length p)
    else if leb b.limit (length p)
    then (record b { buf = drop (length p - b.limit) p }, length p)
    else let joined = b.buf ++ p in
      if ltb b.limit (length joined)
      then (record b { buf = drop (length joined - b.limit) joined }, length p)
      else (record b { buf = joined }, length p)

-- A sequence of writes.
unfoldable pub tail_writes : TailBuffer → List Bytes → TailBuffer
tail_writes b [] = b
tail_writes b (p ∷ ps) = tail_writes (tail_write b p).0 ps

-- Everything that was written.
unfoldable pub output : List Bytes → Bytes
output [] = []
output (p ∷ ps) = p ++ output ps

-- The last `n` bytes, or all of them where there are no more.
abbrev pub last_bytes : ℕ → Bytes → Bytes
last_bytes n xs = drop (length xs - n) xs

drop_past : (n : ℕ) (xs ys : Bytes) → drop (length xs + n) (xs ++ ys) ≡ drop n ys
drop_past n [] ys = ap (λ (t : ℕ). drop t ys) (omega arith)
drop_past n (x ∷ xs) ys =
    let shift : length (x ∷ xs) + n ≡ suc (length xs + n) = omega arith in
    ap (λ (t : ℕ). drop t (x ∷ xs ++ ys)) shift ∙ drop_past n xs ys

module _ (limit : ℕ) (seen : Bytes) where
  abbrev older : Bytes
  older = take (length seen - limit) seen

  -- The last bytes of more output depend only on the last bytes of the output so far.
  last_bytes-append :
      (p : Bytes)
      → last_bytes limit (seen ++ p)
        ≡ drop
            (length older + (length (last_bytes limit seen ++ p)) - limit)
            (older ++ (last_bytes limit seen ++ p))
  last_bytes-append p =
      let split : seen ++ p ≡ older ++ (last_bytes limit seen ++ p) =
        ap (λ (t : Bytes). t ++ p) (sym (take-append-drop (length seen - limit) seen))
        ∙ append_assoc older (last_bytes limit seen) p in
      ap (λ (t : Bytes). last_bytes limit t) split
      ∙ ap (λ (n : ℕ). drop (n - limit) (older ++ (last_bytes limit seen ++ p)))
          (length-append older (last_bytes limit seen ++ p))

  long_write : (p : Bytes) → limit ≤ length p → last_bytes limit (seen ++ p) ≡ last_bytes limit p
  long_write p long =
      let past : length (seen ++ p) - limit ≡ length seen + (length p - limit) =
        omega (arith, length-append seen p) in
      ap (λ (n : ℕ). drop n (seen ++ p)) past ∙ drop_past (length p - limit) seen p

  overfull_write :
      (p : Bytes)
      → limit < length (last_bytes limit seen ++ p)
      → last_bytes limit (seen ++ p) ≡ last_bytes limit (last_bytes limit seen ++ p)
  overfull_write p over =
      let joined = last_bytes limit seen ++ p in
      let past : length older + length joined - limit ≡ length older + (length joined - limit) =
        omega arith in
      last_bytes-append p
      ∙ ap (λ (n : ℕ). drop n (older ++ joined)) past
      ∙ drop_past (length joined - limit) older joined

  fitting_write :
      (p : Bytes)
      → length (last_bytes limit seen ++ p) ≤ limit
      → last_bytes limit (seen ++ p) ≡ last_bytes limit seen ++ p
  fitting_write p fits =
      let joined = last_bytes limit seen ++ p in
      let past : length older + length joined - limit ≡ length older + 0 = omega (
        arith,
        length-append (last_bytes limit seen) p,
        length-drop (length seen - limit) seen,
        length-take (length seen - limit) seen,
      ) in
      last_bytes-append p ∙ ap (λ (n : ℕ). drop n (older ++ joined)) past ∙ drop_past 0 older joined

tail_write_lem :
    (b : TailBuffer) (seen p : Bytes)
    → is_positive b.limit ≡ true
    → b.buf ≡ last_bytes b.limit seen
    → ((tail_write b p).0.buf ≡ last_bytes b.limit (seen ++ p))
      × ((tail_write b p).0.limit ≡ b.limit)
unfolding tail_write
tail_write_lem b seen p pos h =
    let kept = last_bytes b.limit seen in
    let size : length (b.buf ++ p) ≡ length (kept ++ p) = ap (λ (t : Bytes). length (t ++ p)) h in
    elim (Bool-cases (leb b.limit (length p))) [
      | inl long ↦
          rw (pos, long, tail_write) (sym (long_write b.limit seen p (ground (arith, long))), refl)
      | inr short ↦ elim (Bool-cases (ltb b.limit (length (b.buf ++ p)))) [
        | inl over ↦
            let more : b.limit < length (kept ++ p) = ground (arith, over, size) in
            rw (pos, short, over, tail_write)
              (
                ap (λ (t : Bytes). last_bytes b.limit (t ++ p)) h
                    ∙ sym (overfull_write b.limit seen p more),
                refl,
              )
        | inr fits ↦
            let room : length (kept ++ p) ≤ b.limit = ground (arith, fits, size) in
            rw (pos, short, fits, tail_write)
              (ap (λ (t : Bytes). t ++ p) h ∙ sym (fitting_write b.limit seen p room), refl)
      ]
    ]

tail_writes_lem :
    (ps : List Bytes) (b : TailBuffer) (seen : Bytes)
    → is_positive b.limit ≡ true
    → b.buf ≡ last_bytes b.limit seen
    → (tail_writes b ps).buf ≡ last_bytes b.limit (seen ++ output ps)
unfolding tail_writes output
tail_writes_lem [] b seen pos h =
    h ∙ ap (λ (t : Bytes). last_bytes b.limit t) (sym (append-nil seen))
tail_writes_lem (p ∷ ps) b seen pos h =
    let (one, same) = tail_write_lem b seen p pos h in
    tail_writes_lem ps (tail_write b p).0 (seen ++ p) (ap is_positive same ∙ pos)
      (one ∙ ap (λ (n : ℕ). last_bytes n (seen ++ p)) (sym same))
    ∙ ap (λ (n : ℕ). last_bytes n ((seen ++ p) ++ output ps)) same
    ∙ ap (λ (t : Bytes). last_bytes b.limit t) (append_assoc seen p (output ps))

-- After any writes to a new TailBuffer with a positive limit it holds the last `limit` bytes of
-- all that was written, and never more than `limit` bytes.
pub tail_kept :
    (limit : ℕ) (ps : List Bytes)
    → is_positive limit ≡ true
    → ((tail_writes (new_tail_buffer limit) ps).buf ≡ last_bytes limit (output ps))
      × (length (tail_writes (new_tail_buffer limit) ps).buf ≤ limit)
tail_kept limit ps pos =
    let kept : (tail_writes (new_tail_buffer limit) ps).buf ≡ last_bytes limit (output ps) =
      unfold new_tail_buffer in
      tail_writes_lem ps (new_tail_buffer limit) [] pos
        (sym (drop_of_length-le {A = ℕ} (0 - limit) [] (omega arith))) in
    (
      kept,
      omega (
        arith,
        ap (λ (t : Bytes). length t) kept,
        length-drop (length (output ps) - limit) (output ps),
      ),
    )
