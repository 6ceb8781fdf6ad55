-- ===== src/Crypto/Siv/Inverse.antt =====
-- Deterministic encryption of names: decryption undoes it, and accepts nothing else.
use cryp.Prelude.{
  ℕ, zero, suc, ◌+◌, ◌-◌, ◌*◌, ◌/◌, ◌%◌, ◌^◌, ◌≤◌, ◌≡◌, ◌⊎◌, refl, sym, ◌∙◌, Bool, true, false,
  Bool-cases, inl, inr, ◌&&◌, not, [], ◌∷◌, ◌++◌, ◌==◌, ==_iff, ltb, leb, length, take, drop,
  replicate, arith, if◌then◌else◌, length-append, length-take, length-drop, take-append,
  drop-append, take-append-drop, ok, >>=-elim, guard-eq-ok,
}
use cryp.Bytes.{
  Bytes, IsBytes, xor_bytes, IsBytes-append, IsBytes-take, IsBytes-drop, length-xor_bytes,
  big_endian, length-big_endian, IsBytes-big_endian,
}
use cryp.Bytes.BigEndian.{from_big_endian}
use cryp.Bytes.Xor.{xor_bytes_cancel, IsBytes-xor_bytes}
use cryp.Crypto.Aes.{Aes, IsBlock, is_key_size}
use cryp.Crypto.KeyWrap.{same_bytes}
use cryp.Crypto.KeyWrap.Inverse.{same_bytes→eq}
use cryp.Crypto.Siv.{
  NameError, dbl, pad, generate_subkeys, cmac_chain, cmac_last, aes_cmac, s2v_last, s2v, ctr_iv,
  ctr_blocks, xor_key_stream, siv_encrypt, siv_decrypt,
}
use cryp.Crypto.Siv.Doubling.{length-dbl, IsBytes-dbl}

IsBytes-zeros : (n : ℕ) → IsBytes (replicate n 0)
IsBytes-zeros zero = tt
IsBytes-zeros (suc n) = (omega arith, IsBytes-zeros n)

IsBlock-pad : (b : Bytes) → IsBytes b → IsBlock (pad b)
unfolding pad
IsBlock-pad b h =
    let all = b ++ 0x80 ∷ replicate 16 0 in
    (
      omega (arith, length-take 16 all, length-append b (0x80 ∷ replicate 16 0)),
      IsBytes-take 16 all
          (IsBytes-append b (0x80 ∷ replicate 16 0) h (omega arith, IsBytes-zeros 16)),
    )

IsBlock-xor : (a b : Bytes) → IsBlock a → IsBytes b → IsBlock (xor_bytes a b)
IsBlock-xor a b ha hb = (length-xor_bytes a b ∙ ha.0, IsBytes-xor_bytes a b ha.1 hb)

IsBlock-dbl : (b : Bytes) → IsBlock b → IsBlock (dbl b)
IsBlock-dbl b h = (length-dbl b ∙ h.0, IsBytes-dbl b h.1)

IsBlock-zeros : IsBlock (replicate 16 0)
IsBlock-zeros = (refl, IsBytes-zeros 16)

same_bytes_refl : (xs : Bytes) → same_bytes xs xs ≡ true
unfolding same_bytes
same_bytes_refl [] = refl
same_bytes_refl (x ∷ xs) = rw ((==_iff x x).1 refl, same_bytes_refl xs) refl

-- The blocks before the last one lie in the data.
blocks_fit : (l : ℕ) → 16 * ((if (l + 15) / 16 == 0 then 1 else (l + 15) / 16) - 1) ≤ l
blocks_fit l = ground arith

-- If the data ends with a full block, that is what is left for the last one.
last_block :
    (l r : ℕ)
    → r ≡ l - ((if (l + 15) / 16 == 0 then 1 else (l + 15) / 16) - 1) * 16
    → ((ltb 0 l && l % 16 == 0) ≡ false) ⊎ (r ≡ 16)
last_block l r e = elim (Bool-cases (ltb 0 l && l % 16 == 0)) [
  | inl full ↦ inr (ground arith)
  | inr partial ↦ inl partial
]

not_short : (siv rest : Bytes) → length siv ≡ 16 → ltb (length (siv ++ rest)) 16 ≡ false
not_short siv rest h = ground (arith, length-append siv rest)

module _ (aes : Aes) where
  cmac_chain-IsBlock :
      (n : ℕ) (key x data' : Bytes)
      → 16 * n ≤ length data'
      → IsBlock x
      → IsBytes data'
      → IsBlock (cmac_chain aes n key x data')
  unfolding cmac_chain
  cmac_chain-IsBlock zero key x data' h hx hd = hx
  cmac_chain-IsBlock (suc n) key x data' h hx hd =
      let first : IsBlock (take 16 data') =
        (omega (arith, length-take 16 data'), IsBytes-take 16 data' hd) in
      cmac_chain-IsBlock n key _ (drop 16 data') (omega (arith, length-drop 16 data'))
        (aes.encrypt-IsBlock key _ (IsBlock-xor (take 16 data') x first hx.1))
        (IsBytes-drop 16 data' hd)

  subkeys-AreBlocks :
      (key : Bytes) → IsBlock (generate_subkeys aes key).0 × IsBlock (generate_subkeys aes key).1
  unfolding generate_subkeys
  subkeys-AreBlocks key =
      let zeros : Bytes = replicate 16 0 in
      let k1 = IsBlock-dbl (aes.encrypt key zeros) (aes.encrypt-IsBlock key zeros IsBlock-zeros) in
      (k1, IsBlock-dbl (dbl (aes.encrypt key zeros)) k1)

  cmac_last-IsBlock :
      (key : Bytes) (complete : Bool) (rest : Bytes)
      → IsBytes rest
      → (complete ≡ false) ⊎ (length rest ≡ 16)
      → IsBlock (cmac_last aes key complete rest)
  unfolding cmac_last
  cmac_last-IsBlock key true rest hr (inl no_block) = absurd (cc)
  cmac_last-IsBlock key true rest hr (inr size) =
      IsBlock-xor rest _ (size, hr) (subkeys-AreBlocks key).0.1
  cmac_last-IsBlock key false rest hr h =
      IsBlock-xor (pad rest) _ (IsBlock-pad rest hr) (subkeys-AreBlocks key).1.1

  pub aes_cmac-IsBlock : (key data' : Bytes) → IsBytes data' → IsBlock (aes_cmac aes key data')
  unfolding aes_cmac
  aes_cmac-IsBlock key data' h =
      let l = length data' in
      let before = (if (l + 15) / 16 == 0 then 1 else (l + 15) / 16) - 1 in
      let rest = drop (before * 16) data' in
      let complete = ltb 0 l && l % 16 == 0 in
      let x = cmac_chain aes before key (replicate 16 0) data' in
      let last =
        cmac_last-IsBlock key complete rest (IsBytes-drop (before * 16) data' h)
          (last_block l (length rest) (length-drop (before * 16) data')) in
      let chained =
        cmac_chain-IsBlock before key (replicate 16 0) data' (blocks_fit l) IsBlock-zeros h in
      aes.encrypt-IsBlock key _ (IsBlock-xor (cmac_last aes key complete rest) x last chained.1)

  -- The last input of `s2v` holds bytes.
  s2v_last-IsBytes : (p d : Bytes) → IsBytes p → IsBlock d → IsBytes (s2v_last aes p d)
  unfolding s2v_last
  s2v_last-IsBytes p d hp hd = elim (Bool-cases (leb 16 (length p))) [
    | inl long ↦ rw long (
        IsBytes-append _ _ (IsBytes-take (length p - 16) p hp)
          (IsBytes-xor_bytes _ d (IsBytes-drop (length p - 16) p hp) hd.1))
    | inr short ↦
        rw short (IsBytes-xor_bytes (pad p) (dbl d) (IsBlock-pad p hp).1 (IsBlock-dbl d hd).1)
  ]

  -- The mixed and doubled D of `s2v`, and the synthetic IV that it returns.
  abbrev mixed : Bytes → Bytes → Bytes
  mixed mac_key ad =
      xor_bytes (dbl (aes_cmac aes mac_key (replicate 16 0))) (aes_cmac aes mac_key ad)

  abbrev tag : Bytes → Bytes → Bytes → Bytes
  tag mac_key p ad = aes_cmac aes mac_key (s2v_last aes p (mixed mac_key ad))

  s2v_lem :
      (mac_key p ad : Bytes)
      → is_key_size mac_key ≡ true
      → s2v aes mac_key p ad ≡ ok (tag mac_key p ad)
  unfolding s2v
  s2v_lem mac_key p ad h = rw h refl

  tag-IsBlock : (mac_key p ad : Bytes) → IsBytes p → IsBytes ad → IsBlock (tag mac_key p ad)
  tag-IsBlock mac_key p ad hp ha =
      let zeros : Bytes = replicate 16 0 in
      let first =
        IsBlock-dbl (aes_cmac aes mac_key zeros) (aes_cmac-IsBlock mac_key zeros IsBlock-zeros.1) in
      let hd =
        IsBlock-xor (dbl (aes_cmac aes mac_key zeros)) (aes_cmac aes mac_key ad) first
          (aes_cmac-IsBlock mac_key ad ha).1 in
      aes_cmac-IsBlock mac_key (s2v_last aes p (mixed mac_key ad))
        (s2v_last-IsBytes p (mixed mac_key ad) hp hd)

  length-xor_key_stream : (key iv src : Bytes) → length (xor_key_stream aes key iv src) ≡ length src
  unfolding xor_key_stream
  length-xor_key_stream key iv src = length-xor_bytes src _

  IsBytes-ctr_blocks : (n : ℕ) (key : Bytes) (counter : ℕ) → IsBytes (ctr_blocks aes n key counter)
  unfolding ctr_blocks
  IsBytes-ctr_blocks zero key counter = tt
  IsBytes-ctr_blocks (suc n) key counter =
      let block : IsBlock (big_endian 16 (counter % 2 ^ 128)) =
        (length-big_endian 16 (counter % 2 ^ 128), IsBytes-big_endian 16 (counter % 2 ^ 128)) in
      IsBytes-append (aes.encrypt key (big_endian 16 (counter % 2 ^ 128)))
        (ctr_blocks aes n key (counter + 1))
        (aes.encrypt-IsBlock key (big_endian 16 (counter % 2 ^ 128)) block).1
        (IsBytes-ctr_blocks n key (counter + 1))

  IsBytes-xor_key_stream :
      (key iv src : Bytes) → IsBytes src → IsBytes (xor_key_stream aes key iv src)
  unfolding xor_key_stream
  IsBytes-xor_key_stream key iv src h =
      IsBytes-xor_bytes src _ h
        (IsBytes-ctr_blocks ((length src + 15) / 16) key (from_big_endian iv))

  -- The key stream is the same for texts of one length.
  xor_key_stream_cancel :
      (key iv src : Bytes) → xor_key_stream aes key iv (xor_key_stream aes key iv src) ≡ src
  unfolding xor_key_stream
  xor_key_stream_cancel key iv src = rw (length-xor_bytes src) (xor_bytes_cancel src _)

  module _ (mac_key enc_key : Bytes) where
    -- For bytes and keys of AES sizes sivEncrypt succeeds with bytes that sivDecrypt
    -- decrypts, under the same associated data, to the plaintext.
    pub siv_decrypt-siv_encrypt :
        (p ad : Bytes)
        → IsBytes p
        → IsBytes ad
        → is_key_size mac_key ≡ true
        → is_key_size enc_key ≡ true
        → (c : Bytes) × (siv_encrypt aes mac_key enc_key p ad ≡ ok c)
          × IsBytes c
          × (siv_decrypt aes mac_key enc_key c ad ≡ ok p)
    unfolding siv_encrypt siv_decrypt
    siv_decrypt-siv_encrypt p ad hp ha hm he =
        let siv = tag mac_key p ad in
        let cipher = xor_key_stream aes enc_key (ctr_iv siv) p in
        let size = (tag-IsBlock mac_key p ad hp ha).0 in
        let long : ltb (length (siv ++ cipher)) 16 ≡ false = not_short siv cipher size in
        (
          siv ++ cipher,
          rw (s2v_lem mac_key p ad hm, he) refl,
          IsBytes-append siv cipher (tag-IsBlock mac_key p ad hp ha).1
              (IsBytes-xor_key_stream enc_key (ctr_iv siv) p hp),
          rw
              (
                long,
                take-append 16 siv cipher size,
                drop-append 16 siv cipher size,
                he,
                xor_key_stream_cancel enc_key (ctr_iv siv) p,
                s2v_lem mac_key p ad hm,
                same_bytes_refl siv,
              )
              refl,
        )

    -- Data that sivDecrypt accepts is what sivEncrypt makes of the plaintext it returns.
    pub siv_encrypt_of_decrypt :
        (c p ad : Bytes)
        → siv_decrypt aes mac_key enc_key c ad ≡ ok p
        → siv_encrypt aes mac_key enc_key p ad ≡ ok c
    unfolding siv_encrypt siv_decrypt
    siv_encrypt_of_decrypt c p ad e =
        let siv = take 16 c in
        let text = xor_key_stream aes enc_key (ctr_iv siv) (drop 16 c) in
        let (long, e1) = guard-eq-ok (not (ltb (length c) 16)) NameError.too_short _ e in
        let (he, e2) = guard-eq-ok (is_key_size enc_key) NameError.invalid_key_size _ e1 in
        >>=-elim (s2v aes mac_key text ad) _ e2 λ computed got e3.
          let (same, e4) =
            guard-eq-ok (same_bytes siv computed) NameError.siv_authentication_failed _ e3 in
          let equal : computed ≡ siv = sym (same_bytes→eq siv computed same) in
          let plain : text ≡ p = cc e4 in
          rw
            (
              ← plain,
              got,
              he,
              equal,
              xor_key_stream_cancel enc_key (ctr_iv siv) (drop 16 c),
              take-append-drop 16 c,
            )
            refl
