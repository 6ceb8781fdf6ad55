-- ===== src/Metadata/Capped.antt =====
-- The buffer for the output of ffprobe keeps the beginning, and notes that there was more.
use cryp.Prelude.{
  ◌≡◌, refl, sym, subst, ap, ◌∙◌, ℕ, zero, suc, ◌-◌, ◌==◌, ltb, length, take, false, List, [], ◌∷◌,
  ◌++◌, All, arith, append-nil, append_assoc, length-append, length-take, take_of_length-le,
  Bool-cases, inl, inr,
}
use cryp.Bytes.{Bytes}
use cryp.Metadata.{CappedBuffer, capped_write, capped_writes, empty_buffer}

-- All that was written.
unfoldable pub joined : List Bytes → Bytes
joined [] = []
joined (value ∷ values) = value ++ joined values

take_of_append : (n : ℕ) (xs ys : Bytes) → take n (xs ++ ys) ≡ take n xs ++ take (n - length xs) ys
take_of_append zero [] ys = refl
take_of_append (suc n) [] ys = let same : suc n - 0 ≡ suc n = omega arith in rw same refl
take_of_append zero (x ∷ xs) ys =
    let nothing : 0 - suc (length xs) ≡ 0 = omega arith in rw nothing refl
take_of_append (suc n) (x ∷ xs) ys =
    let same : suc n - suc (length xs) ≡ n - length xs = omega arith in
    rw same (ap (◌∷◌ x) (take_of_append n xs ys))

-- The buffer holds the beginning of what was written.
record Holds (limit : ℕ) (written : Bytes) (b : CappedBuffer) : Type 0 where
  same_limit : b.limit ≡ limit
  kept : b.buffer ≡ take limit written
  noted : b.overflow ≡ ltb limit (length written)

module _ (limit : ℕ) (written : Bytes) (b : CappedBuffer) (h : Holds limit written b) where
  size : length b.buffer ≡ length (take limit written)
  size = ap (λ (t : Bytes). length t) h.kept

  write-Holds :
      (value : Bytes)
      → (length value == 0) ≡ false
      → Holds limit (written ++ value) (capped_write b value)
  unfolding capped_write
  write-Holds value some_there =
      let cut = length-take limit written in
      let both = length-append written value in
      let parts = take_of_append limit written value in
      elim (Bool-cases (b.limit - length b.buffer == 0)) [
        | inl full ↦
            let nothing : limit - length written ≡ 0 =
              ground (arith, full, size, cut, h.same_limit) in
            rw full (record {
              same_limit = h.same_limit;
              kept =
                  h.kept
                  ∙ sym (append-nil (take limit written))
                  ∙ ap (λ (n : ℕ). take limit written ++ take n value) (sym nothing)
                  ∙ sym parts;
              noted = ground (arith, full, size, cut, both, some_there, h.same_limit);
            })
        | inr space ↦
            let room : b.limit - length b.buffer ≡ limit - length written =
              ground (arith, space, size, cut, h.same_limit) in
            rw space (record {
              same_limit = h.same_limit;
              kept =
                  ap (λ (n : ℕ). b.buffer ++ take n value) room
                  ∙ ap (λ (t : Bytes). t ++ take (limit - length written) value) h.kept
                  ∙ sym parts;
              noted = ground (arith, space, size, cut, both, h.noted, h.same_limit);
            })
      ]

writes-Holds :
    (limit : ℕ) (written : Bytes) (b : CappedBuffer) (values : List Bytes)
    → Holds limit written b
    → All (λ value. length value == 0 ≡ false) values
    → Holds limit (written ++ joined values) (capped_writes b values)
unfolding capped_writes joined
writes-Holds limit written b [] h e =
    subst (λ (t : Bytes). Holds limit t b) (sym (append-nil written)) h
writes-Holds limit written b (value ∷ values) h e =
    subst (λ (t : Bytes). Holds limit t (capped_writes b (value ∷ values)))
      (append_assoc written value (joined values))
      (writes-Holds limit (written ++ value) (capped_write b value) values
        (write-Holds limit written b h value e.0) e.1)

-- After any writes of one byte or more to an empty capped buffer it holds the first bytes of all
-- that was written, up to its limit, and overflow says whether more was written.
pub capped_writes-empty :
    (limit : ℕ) (values : List Bytes)
    → All (λ value. length value == 0 ≡ false) values
    → ((capped_writes (empty_buffer limit) values).buffer ≡ take limit (joined values))
      × ((capped_writes (empty_buffer limit) values).overflow ≡ ltb limit (length (joined values)))
capped_writes-empty limit values e =
    let start : Holds limit [] (empty_buffer limit) = record {
      same_limit = refl;
      kept = sym (take_of_length-le limit [] (omega arith));
      noted = ground arith;
    } in
    let h = writes-Holds limit [] (empty_buffer limit) values start e in (h.kept, h.noted)
