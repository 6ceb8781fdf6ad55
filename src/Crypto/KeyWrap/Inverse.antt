-- ===== src/Crypto/KeyWrap/Inverse.antt =====
-- Wrap and unwrap as a whole: what is wrapped is unwrapped, and nothing else is accepted.
use cryp.Prelude.{
  ℕ, zero, suc, ◌+◌, ◌-◌, ◌*◌, ◌/◌, ◌%◌, ◌≤◌, ◌≡◌, refl, sym, ap, subst, ◌∙◌, true, false, List, [],
  ◌∷◌, ◌++◌, arith, ==_iff, ◌==◌, ltb, length, take, drop, length-append, length-take, length-drop,
  take-append-drop, take-append, drop-append, ok, guard, ◌>>=◌, ◌>>◌, inl, inr, Bool-cases,
}
use cryp.Bytes.{Bytes, IsBytes, IsBytes-take, IsBytes-drop, IsBytes-append}
use cryp.Crypto.Aes.{Aes, is_key_size}
use cryp.Crypto.KeyWrap.{
  WrapError, default_iv, same_bytes, registers, joined, wrap_rounds, unwrap_rounds, aes_key_wrap,
  aes_key_unwrap,
}
use cryp.Crypto.KeyWrap.Steps.{
  IsRegister, AreRegisters, IsState, wrap_rounds-IsState, unwrap_rounds-IsState,
  unwrap_rounds-wrap_rounds, wrap_rounds-unwrap_rounds, length-wrap_rounds, length-unwrap_rounds,
}

length-registers : (n : ℕ) (p : Bytes) → length (registers n p) ≡ n
unfolding registers
length-registers zero p = refl
length-registers (suc n) p = ap suc (length-registers n (drop 8 p))

registers-AreRegisters :
    (n : ℕ) (p : Bytes) → length p ≡ 8 * n → IsBytes p → AreRegisters (registers n p)
unfolding registers
registers-AreRegisters zero p h b = tt
registers-AreRegisters (suc n) p h b = (
  (omega (arith, length-take 8 p), IsBytes-take 8 p b),
  registers-AreRegisters n (drop 8 p) (omega (arith, length-drop 8 p)) (IsBytes-drop 8 p b),
)

joined-registers : (n : ℕ) (p : Bytes) → length p ≡ 8 * n → joined (registers n p) ≡ p
unfolding registers joined
joined-registers zero [] h = refl
joined-registers zero (x ∷ p) h = absurd (omega arith)
joined-registers (suc n) p h =
    rw (joined-registers n (drop 8 p) (omega (arith, length-drop 8 p))) (take-append-drop 8 p)

length-joined : (rs : List Bytes) → AreRegisters rs → length (joined rs) ≡ 8 * length rs
unfolding joined
length-joined [] h = refl
length-joined (r ∷ rs) h = omega (arith, h.0.0, length-append r (joined rs), length-joined rs h.1)

registers-joined : (rs : List Bytes) → AreRegisters rs → registers (length rs) (joined rs) ≡ rs
unfolding registers joined
registers-joined [] h = refl
registers-joined (r ∷ rs) h =
    rw
      (
        take-append 8 r (joined rs) h.0.0,
        drop-append 8 r (joined rs) h.0.0,
        registers-joined rs h.1,
      )
      refl

IsBytes-joined : (rs : List Bytes) → AreRegisters rs → IsBytes (joined rs)
unfolding joined
IsBytes-joined [] h = tt
IsBytes-joined (r ∷ rs) h = IsBytes-append r (joined rs) h.0.1 (IsBytes-joined rs h.1)

pub same_bytes→eq : (xs ys : Bytes) → same_bytes xs ys ≡ true → xs ≡ ys
unfolding same_bytes
same_bytes→eq [] [] h = refl
same_bytes→eq [] (y ∷ ys) h = cc
same_bytes→eq (x ∷ xs) [] h = cc
same_bytes→eq (x ∷ xs) (y ∷ ys) h = ground (arith, same_bytes→eq xs ys)

IsRegister-default_iv : IsRegister default_iv
IsRegister-default_iv = (refl, omega arith)

same_bytes-default_iv : same_bytes default_iv default_iv ≡ true
unfolding same_bytes
same_bytes-default_iv = refl

-- Key data of 16 bytes or more.
abbrev pub IsWrappable : Bytes → Type 0
IsWrappable p = (length p % 8 ≡ 0) × (16 ≤ length p) × IsBytes p

module _ (aes : Aes) (kek : Bytes) where
  -- The registers and the checksum after the six rounds of wrap.
  abbrev wrapped : Bytes → Bytes × List Bytes
  wrapped p = wrap_rounds aes kek (length p / 8) 6 (default_iv, registers (length p / 8) p)

  aes_key_wrap_lem :
      (p : Bytes)
      → is_key_size kek ≡ true
      → length p % 8 ≡ 0
      → aes_key_wrap aes kek p ≡ ok ((wrapped p).0 ++ joined (wrapped p).1)
  unfolding aes_key_wrap
  aes_key_wrap_lem p k h = rw ((==_iff (length p % 8) 0).1 h, k) refl

  wrapped-IsState : (p : Bytes) → IsWrappable p → IsState (wrapped p)
  wrapped-IsState p h =
      wrap_rounds-IsState aes kek (length p / 8) 6 _
        (IsRegister-default_iv, registers-AreRegisters (length p / 8) p (omega arith) h.2)

  length-wrapped : (p : Bytes) → length (wrapped p).1 ≡ length p / 8
  length-wrapped p =
      length-wrap_rounds aes kek (length p / 8) 6 _ ∙ length-registers (length p / 8) p

  -- Wrapping adds 8 bytes.
  pub length-aes_key_wrap :
      (p : Bytes)
      → is_key_size kek ≡ true
      → IsWrappable p
      → (c : Bytes) × (aes_key_wrap aes kek p ≡ ok c) × (length c ≡ length p + 8)
  length-aes_key_wrap p k h =
      let w = wrapped-IsState p h in
      (
        (wrapped p).0 ++ joined (wrapped p).1,
        aes_key_wrap_lem p k h.0,
        omega (
          arith,
          length-append (wrapped p).0 (joined (wrapped p).1),
          w.0.0,
          length-joined (wrapped p).1 w.1,
          length-wrapped p,
        ),
      )

  -- The registers and the checksum after the six rounds of unwrap.
  abbrev unwrapped : Bytes × List Bytes → Bytes × List Bytes
  unwrapped s = unwrap_rounds aes kek (length s.1) 6 s

  aes_key_unwrap_lem :
      (s : Bytes × List Bytes)
      → is_key_size kek ≡ true
      → IsState s
      → 2 ≤ length s.1
      → aes_key_unwrap aes kek (s.0 ++ joined s.1) ≡ (
          guard (same_bytes (unwrapped s).0 default_iv) WrapError.integrity_check_failed
          >> ok (joined (unwrapped s).1))
  unfolding aes_key_unwrap
  aes_key_unwrap_lem s k h two =
      let size : length (s.0 ++ joined s.1) ≡ 8 * suc (length s.1) =
        omega (arith, length-append s.0 (joined s.1), h.0.0, length-joined s.1 h.1) in
      let count : length (s.0 ++ joined s.1) / 8 - 1 ≡ length s.1 = omega arith in
      let whole : (length (s.0 ++ joined s.1) % 8 == 0) ≡ true = (==_iff _ 0).1 (omega arith) in
      let long : ltb (length (s.0 ++ joined s.1)) 24 ≡ false = ground arith in
      rw
        (
          count,
          whole,
          long,
          k,
          take-append 8 s.0 (joined s.1) h.0.0,
          drop-append 8 s.0 (joined s.1) h.0.0,
          registers-joined s.1 h.1,
        )
        refl

  -- Under a key of an AES size, key data of 16 bytes or more in whole words is unwrapped to
  -- itself after AESKeyWrap.
  pub aes_key_unwrap-aes_key_wrap :
      (p : Bytes)
      → is_key_size kek ≡ true
      → IsWrappable p
      → (aes_key_wrap aes kek p >>= aes_key_unwrap aes kek) ≡ ok p
  aes_key_unwrap-aes_key_wrap p k h =
      let n = length p / 8 in
      let start = (registers-AreRegisters n p (omega arith) h.2) in
      let undone =
        unwrap_rounds-wrap_rounds aes kek n 6 (default_iv, registers n p)
          (IsRegister-default_iv, start) in
      rw (aes_key_wrap_lem p k h.0) (
        rw
          (
            aes_key_unwrap_lem (wrapped p) k (wrapped-IsState p h)
                (omega (arith, length-wrapped p)),
            length-wrapped p,
            undone,
            same_bytes-default_iv,
            joined-registers n p (omega arith),
          )
          refl)

  accepted_shape :
      (c p : Bytes)
      → aes_key_unwrap aes kek c ≡ ok p
      → (is_key_size kek ≡ true) × (length c % 8 ≡ 0) × (24 ≤ length c)
  unfolding aes_key_unwrap
  accepted_shape c p e = elim (Bool-cases (is_key_size kek)) [
    | inl good ↦ (good, ground arith, ground arith)
    | inr bad ↦ absurd (ground arith)
  ]

  -- What unwrap returns for a checksum and registers that it accepts.
  accepted_state :
      (s : Bytes × List Bytes) (p : Bytes)
      → (guard (same_bytes (unwrapped s).0 default_iv) WrapError.integrity_check_failed
          >> ok (joined (unwrapped s).1))
        ≡ ok p
      → ((unwrapped s).0 ≡ default_iv) × (joined (unwrapped s).1 ≡ p)
  accepted_state s p e = elim (Bool-cases (same_bytes (unwrapped s).0 default_iv)) [
    | inl same ↦ (same_bytes→eq _ _ same, ground arith)
    | inr other ↦ absurd (ground arith)
  ]

  -- Wrapping what unwrap returned rebuilds the checksum and the registers.
  rewrap_state :
      (s : Bytes × List Bytes) (p : Bytes)
      → is_key_size kek ≡ true
      → IsState s
      → (unwrapped s).0 ≡ default_iv
      → joined (unwrapped s).1 ≡ p
      → aes_key_wrap aes kek p ≡ ok (s.0 ++ joined s.1)
  rewrap_state s p k h iv data' =
      let u = unwrap_rounds-IsState aes kek (length s.1) 6 s h in
      let same_count = length-unwrap_rounds aes kek (length s.1) 6 s in
      let size : length p ≡ 8 * length s.1 =
        omega (arith, ap length data', length-joined (unwrapped s).1 u.1, same_count) in
      let words : length p / 8 ≡ length s.1 = omega arith in
      let regs : registers (length s.1) p ≡ (unwrapped s).1 =
        subst (λ (x : Bytes). registers (length s.1) x ≡ (unwrapped s).1) data'
          (subst (λ (m : ℕ). registers m (joined (unwrapped s).1) ≡ (unwrapped s).1) same_count
            (registers-joined (unwrapped s).1 u.1)) in
      let start : wrapped p ≡ s =
        rw (words, regs, ← iv) (wrap_rounds-unwrap_rounds aes kek (length s.1) 6 s h) in
      rw (aes_key_wrap_lem p k (omega arith), start) refl

  -- Bytes that AESKeyUnwrap accepts are what AESKeyWrap makes of the key data it returns:
  -- nothing else is accepted.
  pub aes_key_wrap_of_unwrap :
      (c p : Bytes) → IsBytes c → aes_key_unwrap aes kek c ≡ ok p → aes_key_wrap aes kek p ≡ ok c
  aes_key_wrap_of_unwrap c p b e =
      let (k, whole, long) = accepted_shape c p e in
      let n = length c / 8 - 1 in
      let tail : length (drop 8 c) ≡ 8 * n = omega (arith, length-drop 8 c) in
      let s : Bytes × List Bytes = (take 8 c, registers n (drop 8 c)) in
      let h : IsState s = (
        (omega (arith, length-take 8 c), IsBytes-take 8 c b),
        registers-AreRegisters n (drop 8 c) tail (IsBytes-drop 8 c b),
      ) in
      let rebuilt : s.0 ++ joined s.1 ≡ c =
        rw (joined-registers n (drop 8 c) tail) (take-append-drop 8 c) in
      let returned =
        sym (aes_key_unwrap_lem s k h (omega (arith, length-registers n (drop 8 c))))
        ∙ ap (aes_key_unwrap aes kek) rebuilt
        ∙ e in
      let (iv, bytes) = accepted_state s p returned in rewrap_state s p k h iv bytes ∙ ap ok rebuilt
