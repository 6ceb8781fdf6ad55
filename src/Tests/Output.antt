-- ===== src/Tests/Output.antt =====
-- The tail buffer on concrete data.
use cryp.Prelude.{◌≡◌, ◌≤◌, refl, [], ◌∷◌, length, codes}
use cryp.Tail.{tail_writes, new_tail_buffer, output, last_bytes, tail_kept}

-- Three writes into four bytes: a short one, one that overflows, and one that is longer.
tail_kept_example :
    ((tail_writes (new_tail_buffer 4) (codes "ab" ∷ codes "cde" ∷ codes "fghijk" ∷ [])).buf
      ≡ last_bytes 4 (output (codes "ab" ∷ codes "cde" ∷ codes "fghijk" ∷ [])))
    × (length (tail_writes (new_tail_buffer 4) (codes "ab" ∷ codes "cde" ∷ codes "fghijk" ∷ [])).buf
        ≤ 4)
tail_kept_example = tail_kept 4 (codes "ab" ∷ codes "cde" ∷ codes "fghijk" ∷ []) refl
