-- ===== src/Crypto/KeyWrap/Steps.antt =====
-- Each pass of the inner loops undoes the other's, and so do rounds and runs of rounds.
use cryp.Prelude.{
  ℕ, zero, suc, ◌≡◌, refl, ap, ◌∙◌, List, [], ◌∷◌, ◌++◌, arith, length, take, drop, length-append,
  length-take, length-drop, take-append-drop, take-append, drop-append,
}
use cryp.Bytes.{
  Bytes, IsBytes, xor_bytes, IsBytes-append, IsBytes-take, IsBytes-drop, length-xor_bytes,
  length-big_endian, IsBytes-big_endian,
}
use cryp.Bytes.Xor.{xor_bytes_cancel, IsBytes-xor_bytes}
use cryp.Crypto.Aes.{Aes, IsBlock}
use cryp.Crypto.KeyWrap.{
  counter, wrap_step, unwrap_step, wrap_round, unwrap_round, wrap_rounds, unwrap_rounds,
}

-- Eight bytes.
abbrev pub IsRegister : Bytes → Type 0
IsRegister r = (length r ≡ 8) × IsBytes r

abbrev pub AreRegisters : List Bytes → Type 0
AreRegisters [] = Unit {0}
AreRegisters (r ∷ rs) = IsRegister r × AreRegisters rs

abbrev pub IsState : Bytes × List Bytes → Type 0
IsState s = IsRegister s.0 × AreRegisters s.1

IsBlock-append : (a r : Bytes) → IsRegister a → IsRegister r → IsBlock (a ++ r)
IsBlock-append a r ha hr = (omega (arith, length-append a r), IsBytes-append a r ha.1 hr.1)

IsRegister-take : (b : Bytes) → IsBlock b → IsRegister (take 8 b)
IsRegister-take b h = (omega (arith, length-take 8 b), IsBytes-take 8 b h.1)

IsRegister-drop : (b : Bytes) → IsBlock b → IsRegister (drop 8 b)
IsRegister-drop b h = (omega (arith, length-drop 8 b), IsBytes-drop 8 b h.1)

IsRegister-xor : (a t : Bytes) → IsRegister a → IsRegister t → IsRegister (xor_bytes a t)
IsRegister-xor a t ha ht = (length-xor_bytes a t ∙ ha.0, IsBytes-xor_bytes a t ha.1 ht.1)

IsRegister-counter : (n j i : ℕ) → IsRegister (counter n j i)
IsRegister-counter n j i = (length-big_endian 8 _, IsBytes-big_endian 8 _)

module _ (aes : Aes) (kek : Bytes) where
  unwrap_step-wrap_step :
      (t a r : Bytes)
      → IsRegister a
      → IsRegister r
      → unwrap_step aes kek t (wrap_step aes kek t a r).0 (wrap_step aes kek t a r).1 ≡ (a, r)
  unfolding wrap_step unwrap_step
  unwrap_step-wrap_step t a r ha hr =
      rw
        (
          xor_bytes_cancel (take 8 (aes.encrypt kek (a ++ r))) t,
          take-append-drop 8 (aes.encrypt kek (a ++ r)),
          aes.decrypt-encrypt kek (a ++ r) (IsBlock-append a r ha hr),
          take-append 8 a r ha.0,
          drop-append 8 a r ha.0,
        )
        refl

  wrap_step-unwrap_step :
      (t a r : Bytes)
      → IsRegister t
      → IsRegister a
      → IsRegister r
      → wrap_step aes kek t (unwrap_step aes kek t a r).0 (unwrap_step aes kek t a r).1 ≡ (a, r)
  unfolding wrap_step unwrap_step
  wrap_step-unwrap_step t a r ht ha hr =
      let hx = IsRegister-xor a t ha ht in
      rw
        (
          take-append-drop 8 (aes.decrypt kek (xor_bytes a t ++ r)),
          aes.encrypt-decrypt kek (xor_bytes a t ++ r) (IsBlock-append (xor_bytes a t) r hx hr),
          take-append 8 (xor_bytes a t) r hx.0,
          drop-append 8 (xor_bytes a t) r hx.0,
          xor_bytes_cancel a t,
        )
        refl

  wrap_step-IsRegister :
      (t a r : Bytes)
      → IsRegister t
      → IsRegister a
      → IsRegister r
      → IsRegister (wrap_step aes kek t a r).0 × IsRegister (wrap_step aes kek t a r).1
  unfolding wrap_step
  wrap_step-IsRegister t a r ht ha hr =
      let h = aes.encrypt-IsBlock kek (a ++ r) (IsBlock-append a r ha hr) in
      (IsRegister-xor _ t (IsRegister-take _ h) ht, IsRegister-drop _ h)

  unwrap_step-IsRegister :
      (t a r : Bytes)
      → IsRegister t
      → IsRegister a
      → IsRegister r
      → IsRegister (unwrap_step aes kek t a r).0 × IsRegister (unwrap_step aes kek t a r).1
  unfolding unwrap_step
  unwrap_step-IsRegister t a r ht ha hr =
      let h = aes.decrypt-IsBlock kek _ (IsBlock-append _ r (IsRegister-xor a t ha ht) hr) in
      (IsRegister-take _ h, IsRegister-drop _ h)

  wrap_round-IsState :
      (n j i : ℕ) (a : Bytes) (rs : List Bytes)
      → IsState (a, rs)
      → IsState (wrap_round aes kek n j i (a, rs))
  unfolding wrap_round
  wrap_round-IsState n j i a [] h = h
  wrap_round-IsState n j i a (r ∷ rs) h =
      let s = wrap_step-IsRegister (counter n j i) a r (IsRegister-counter n j i) h.0 h.1.0 in
      let ih =
        wrap_round-IsState n j (suc i) (wrap_step aes kek (counter n j i) a r).0 rs (s.0, h.1.1) in
      (ih.0, (s.1, ih.1))

  unwrap_round-IsState :
      (n j i : ℕ) (a : Bytes) (rs : List Bytes)
      → IsState (a, rs)
      → IsState (unwrap_round aes kek n j i (a, rs))
  unfolding unwrap_round
  unwrap_round-IsState n j i a [] h = h
  unwrap_round-IsState n j i a (r ∷ rs) h =
      let ih = unwrap_round-IsState n j (suc i) a rs (h.0, h.1.1) in
      let s =
        unwrap_step-IsRegister (counter n j i) (unwrap_round aes kek n j (suc i) (a, rs)).0 r
          (IsRegister-counter n j i) ih.0 h.1.0 in
      (s.0, (s.1, ih.1))

  unwrap_round-wrap_round :
      (n j i : ℕ) (a : Bytes) (rs : List Bytes)
      → IsState (a, rs)
      → unwrap_round aes kek n j i (wrap_round aes kek n j i (a, rs)) ≡ (a, rs)
  unfolding wrap_round unwrap_round
  unwrap_round-wrap_round n j i a [] h = refl
  unwrap_round-wrap_round n j i a (r ∷ rs) h =
      let s = wrap_step-IsRegister (counter n j i) a r (IsRegister-counter n j i) h.0 h.1.0 in
      rw
        (unwrap_round-wrap_round n j (suc i) (wrap_step aes kek (counter n j i) a r).0 rs
          (s.0, h.1.1))
        (rw (unwrap_step-wrap_step (counter n j i) a r h.0 h.1.0) refl)

  wrap_round-unwrap_round :
      (n j i : ℕ) (a : Bytes) (rs : List Bytes)
      → IsState (a, rs)
      → wrap_round aes kek n j i (unwrap_round aes kek n j i (a, rs)) ≡ (a, rs)
  unfolding wrap_round unwrap_round
  wrap_round-unwrap_round n j i a [] h = refl
  wrap_round-unwrap_round n j i a (r ∷ rs) h =
      let u = unwrap_round aes kek n j (suc i) (a, rs) in
      let hu = unwrap_round-IsState n j (suc i) a rs (h.0, h.1.1) in
      rw (wrap_step-unwrap_step (counter n j i) u.0 r (IsRegister-counter n j i) hu.0 h.1.0)
        (rw (wrap_round-unwrap_round n j (suc i) a rs (h.0, h.1.1)) refl)

  pub wrap_rounds-IsState :
      (n j : ℕ) (s : Bytes × List Bytes) → IsState s → IsState (wrap_rounds aes kek n j s)
  unfolding wrap_rounds
  wrap_rounds-IsState n zero s h = h
  wrap_rounds-IsState n (suc j) s h = wrap_round-IsState n j 1 _ _ (wrap_rounds-IsState n j s h)

  pub unwrap_rounds-IsState :
      (n j : ℕ) (s : Bytes × List Bytes) → IsState s → IsState (unwrap_rounds aes kek n j s)
  unfolding unwrap_rounds
  unwrap_rounds-IsState n zero s h = h
  unwrap_rounds-IsState n (suc j) s h =
      unwrap_rounds-IsState n j _ (unwrap_round-IsState n j 1 s.0 s.1 h)

  pub unwrap_rounds-wrap_rounds :
      (n j : ℕ) (s : Bytes × List Bytes)
      → IsState s
      → unwrap_rounds aes kek n j (wrap_rounds aes kek n j s) ≡ s
  unfolding wrap_rounds unwrap_rounds
  unwrap_rounds-wrap_rounds n zero s h = refl
  unwrap_rounds-wrap_rounds n (suc j) s h =
      ap (unwrap_rounds aes kek n j)
        (unwrap_round-wrap_round n j 1 _ _ (wrap_rounds-IsState n j s h))
      ∙ unwrap_rounds-wrap_rounds n j s h

  pub wrap_rounds-unwrap_rounds :
      (n j : ℕ) (s : Bytes × List Bytes)
      → IsState s
      → wrap_rounds aes kek n j (unwrap_rounds aes kek n j s) ≡ s
  unfolding wrap_rounds unwrap_rounds
  wrap_rounds-unwrap_rounds n zero s h = refl
  wrap_rounds-unwrap_rounds n (suc j) s h =
      ap (wrap_round aes kek n j 1)
        (wrap_rounds-unwrap_rounds n j _ (unwrap_round-IsState n j 1 s.0 s.1 h))
      ∙ wrap_round-unwrap_round n j 1 s.0 s.1 h

  length-wrap_round :
      (n j i : ℕ) (a : Bytes) (rs : List Bytes)
      → length (wrap_round aes kek n j i (a, rs)).1 ≡ length rs
  unfolding wrap_round
  length-wrap_round n j i a [] = refl
  length-wrap_round n j i a (r ∷ rs) = ap suc (length-wrap_round n j (suc i) _ rs)

  length-unwrap_round :
      (n j i : ℕ) (a : Bytes) (rs : List Bytes)
      → length (unwrap_round aes kek n j i (a, rs)).1 ≡ length rs
  unfolding unwrap_round
  length-unwrap_round n j i a [] = refl
  length-unwrap_round n j i a (r ∷ rs) = ap suc (length-unwrap_round n j (suc i) a rs)

  pub length-wrap_rounds :
      (n j : ℕ) (s : Bytes × List Bytes) → length (wrap_rounds aes kek n j s).1 ≡ length s.1
  unfolding wrap_rounds
  length-wrap_rounds n zero s = refl
  length-wrap_rounds n (suc j) s = length-wrap_round n j 1 _ _ ∙ length-wrap_rounds n j s

  pub length-unwrap_rounds :
      (n j : ℕ) (s : Bytes × List Bytes) → length (unwrap_rounds aes kek n j s).1 ≡ length s.1
  unfolding unwrap_rounds
  length-unwrap_rounds n zero s = refl
  length-unwrap_rounds n (suc j) s = length-unwrap_rounds n j _ ∙ length-unwrap_round n j 1 s.0 s.1
