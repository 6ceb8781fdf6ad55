-- ===== src/Api/Range/Copy.antt =====
-- A limited copy from a reader over a stream takes exactly that many bytes of the plaintext.
use cryp.Prelude.{
  ℕ, zero, suc, ◌+◌, ◌-◌, ◌≤◌, ◌<◌, ◌≡◌, inl, inr, refl, sym, ap, ◌∙◌, false, none, some, List, [],
  ◌∷◌, ◌++◌, ◌==◌, length, take, drop, min, arith, length-append, length-take, length-drop,
  take_of_length-le,
}
use cryp.Bytes.{Bytes}
use cryp.Crypto.Gcm.{Gcm}
use cryp.Crypto.Content.Stream.{Frame, plaintext}
use cryp.Crypto.Content.Reader.{Reader, read, file}
use cryp.Crypto.Content.Reader.Steps.{
  Reads, serve_step, read_frame, first_sizes, drop-drop, drop-nil,
}
use cryp.Crypto.Content.Reader.ReadAll.{read_held}
use cryp.Api.Range.{copy_limited}

take-append_le : (m : ℕ) (xs ys : Bytes) → m ≤ length xs → take m (xs ++ ys) ≡ take m xs
take-append_le zero xs ys h = refl
take-append_le (suc m) [] ys h = absurd (omega arith)
take-append_le (suc m) (x ∷ xs) ys h = ap (◌∷◌ x) (take-append_le m xs ys (omega arith))

drop-append_le : (m : ℕ) (xs ys : Bytes) → m ≤ length xs → drop m (xs ++ ys) ≡ drop m xs ++ ys
drop-append_le zero xs ys h = refl
drop-append_le (suc m) [] ys h = absurd (omega arith)
drop-append_le (suc m) (x ∷ xs) ys h = drop-append_le m xs ys (omega arith)

-- Taking `m` bytes and then the rest of `n`.
take_in_two : (m n : ℕ) (xs : Bytes) → m ≤ n → take m xs ++ take (n - m) (drop m xs) ≡ take n xs
take_in_two zero n xs h = ap (λ (t : ℕ). take t xs) (omega arith)
take_in_two (suc m) zero xs h = absurd (omega arith)
take_in_two (suc m) (suc n) [] h = take_nil (suc n - suc m)
  where
    take_nil : (k : ℕ) → ◌≡◌ {A = Bytes} (take k []) []
    take_nil zero = refl
    take_nil (suc k) = refl
take_in_two (suc m) (suc n) (x ∷ xs) h =
    let shift : suc n - suc m ≡ n - m = omega arith in
    ap (◌∷◌ x)
      (ap (λ (t : ℕ). take m xs ++ take t (drop m xs)) shift ∙ take_in_two m n xs (omega arith))

take-min : (k : ℕ) (xs : Bytes) → take k xs ≡ take (min k (length xs)) xs
take-min zero xs =
    let none_taken : 0 ≡ min 0 (length xs) = omega arith in ap (λ (t : ℕ). take t xs) none_taken
take-min (suc k) [] = sym (take_of_length-le {A = ℕ} (min (suc k) 0) [] (omega arith))
take-min (suc k) (x ∷ xs) =
    let shift : min (suc k) (suc (length xs)) ≡ suc (min k (length xs)) = omega arith in
    ap (◌∷◌ x) (take-min k xs) ∙ ap (λ (t : ℕ). take t (x ∷ xs)) (sym shift)

drop-min : (k : ℕ) (xs : Bytes) → drop k xs ≡ drop (min k (length xs)) xs
drop-min zero xs =
    let none_dropped : 0 ≡ min 0 (length xs) = omega arith in ap (λ (t : ℕ). drop t xs) none_dropped
drop-min (suc k) [] = sym (drop-nil (min (suc k) 0))
drop-min (suc k) (x ∷ xs) =
    let shift : min (suc k) (suc (length xs)) ≡ suc (min k (length xs)) = omega arith in
    drop-min k xs ∙ ap (λ (t : ℕ). drop t (x ∷ xs)) (sym shift)

module _ (gcm : Gcm) (key hn : Bytes) where
  abbrev pub Left : Bytes → List Frame → Bytes
  Left pending frames = pending ++ plaintext frames

  -- What a read of at most `size` bytes does to what is left.
  pub record Piece (left : Bytes) (dr : Reader Bytes) (size : ℕ) : Type 0 where
    pub count : ℕ
    pub after : Reader Bytes
    pub pending : Bytes
    pub frames : List Frame
    pub chunk : ℕ
    pub got : read gcm file dr size ≡ (after, take count left, none)
    pub reads : Reads gcm key hn pending frames chunk after
    pub remains : Left pending frames ≡ drop count left
    pub some_byte : 0 < count
    pub at_most : count ≤ size
    pub in_left : count ≤ length left

  -- A piece of the bytes `p` that stand before `rest`.
  Piece-of :
      (p : Bytes) (fs : List Frame) (c : ℕ) (dr dr' : Reader Bytes) (size : ℕ)
      → 0 < length p
      → 0 < size
      → read gcm file dr size ≡ (dr', take size p, none)
      → Reads gcm key hn (drop size p) fs c dr'
      → Piece (p ++ plaintext fs) dr size
  Piece-of p fs c dr dr' size some_left pos first rest =
      let m = min size (length p) in
      let le : m ≤ length p = omega arith in
      record {
        count = m;
        after = dr';
        pending = drop size p;
        frames = fs;
        chunk = c;
        got =
            first
            ∙ ap (λ (t : Bytes). (dr', t, none))
                (take-min size p ∙ sym (take-append_le m p (plaintext fs) le));
        reads = rest;
        remains =
            ap (λ (t : Bytes). t ++ plaintext fs) (drop-min size p)
            ∙ sym (drop-append_le m p (plaintext fs) le);
        some_byte = omega arith;
        at_most = omega arith;
        in_left = omega (arith, length-append p (plaintext fs));
      }

  -- A read from a reader with something left gives a nonempty piece of it.
  read-Piece :
      (pending : Bytes) (frames : List Frame) (c : ℕ) (dr : Reader Bytes) (size : ℕ)
      → Reads gcm key hn pending frames c dr
      → 0 < size
      → 0 < length (Left pending frames)
      → Piece (Left pending frames) dr size
  unfolding plaintext
  read-Piece [] [] c dr size h pos more = absurd (omega arith)
  read-Piece [] ((n, p) ∷ fs) c dr size h pos more = elim h.ended [
    | inr none_left ↦ absurd (cc none_left)
    | inl going ↦
        let (dr', got, after) = read_frame gcm key hn dr c n p fs size h pos going in
        Piece-of p fs (suc c) dr dr' size (first_sizes gcm key hn n p fs h.stream).1 pos got after
  ]
  read-Piece (x ∷ ps) frames c dr size h pos more =
      let (dr', got, after) = serve_step gcm key hn (x ∷ ps) frames c dr size h in
      Piece-of (x ∷ ps) frames c dr dr' size (omega arith) pos
        (read_held gcm dr size pos (omega (arith, ap length h.held)) ∙ got) after

  -- What a copy of `n` bytes does to what is left.
  pub record Copied (left : Bytes) (dr : Reader Bytes) (size fuel n : ℕ) : Type 0 where
    pub after : Reader Bytes
    pub pending : Bytes
    pub frames : List Frame
    pub chunk : ℕ
    pub copies : copy_limited gcm fuel dr size n ≡ some (after, take n left, none)
    pub reads : Reads gcm key hn pending frames chunk after
    pub remains : Left pending frames ≡ drop n left

  copy_more :
      (fuel n : ℕ) (dr dr' last : Reader Bytes) (size : ℕ) (got rest : Bytes)
      → (n == 0) ≡ false
      → read gcm file dr (min size n) ≡ (dr', got, none)
      → copy_limited gcm fuel dr' size (n - length got) ≡ some (last, rest, none)
      → copy_limited gcm (suc fuel) dr size n ≡ some (last, got ++ rest, none)
  unfolding copy_limited
  copy_more fuel n dr dr' last size got rest more first others = ground arith

  pub copy_limited_lem :
      (fuel n : ℕ) (pending : Bytes) (frames : List Frame) (c : ℕ) (dr : Reader Bytes) (size : ℕ)
      → Reads gcm key hn pending frames c dr
      → 0 < size
      → n < fuel
      → n ≤ length (Left pending frames)
      → Copied (Left pending frames) dr size fuel n
  copy_limited_lem zero n pending frames c dr size h pos enough fits = absurd (omega arith)
  copy_limited_lem (suc fuel) zero pending frames c dr size h pos enough fits = record {
    after = dr;
    pending = pending;
    frames = frames;
    chunk = c;
    copies = unfold copy_limited in refl;
    reads = h;
    remains = refl;
  }
  copy_limited_lem (suc fuel) (suc n) pending frames c dr size h pos enough fits =
      let left = Left pending frames in
      let one = read-Piece pending frames c dr (min size (suc n)) h (omega arith) (omega arith) in
      let taken : length (take one.count left) ≡ one.count =
        omega (arith, length-take one.count left, one.in_left) in
      let whole : one.count + (suc n - one.count) ≡ suc n = omega (arith, one.at_most) in
      let rest =
        copy_limited_lem fuel (suc n - one.count) one.pending one.frames one.chunk one.after size
          one.reads pos (omega (arith, one.some_byte))
          (omega (arith, ap length one.remains, length-drop one.count left)) in
      record {
        after = rest.after;
        pending = rest.pending;
        frames = rest.frames;
        chunk = rest.chunk;
        copies =
            copy_more fuel (suc n) dr one.after rest.after size (take one.count left) _
              (ground arith) one.got
              (ap (λ (t : ℕ). copy_limited gcm fuel one.after size (suc n - t)) taken ∙ rest.copies)
            ∙ ap (λ (t : Bytes). some (rest.after, t, none))
                (ap (λ (t : Bytes). take one.count left ++ take (suc n - one.count) t) one.remains
                  ∙ take_in_two one.count (suc n) left (omega (arith, one.at_most)));
        reads = rest.reads;
        remains =
            rest.remains
            ∙ ap (λ (t : Bytes). drop (suc n - one.count) t) one.remains
            ∙ drop-drop (suc n - one.count) one.count left
            ∙ ap (λ (t : ℕ). drop t left) whole;
      }
