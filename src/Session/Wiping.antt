-- ===== src/Session/Wiping.antt =====
-- What the loops over the sessions leave behind: the sessions that stay, and the memory of the others.
use Prim.Native.String.{String}
use cryp.Prelude.{
  ℕ, ◌≡◌, refl, ap, ◌∙◌, subst, Bool, true, false, Bool-cases, inl, inr, none, some, List, [], ◌∷◌,
  ◌==◌, ==_iff, map, arith, if◌then◌else◌,
}
use cryp.Bytes.{Bytes}
use cryp.GoMap.{str_eq, str_eq_iff, lookup, Every, IsMap, lookup_missing}
use cryp.Crypto.Keys.{VaultKeys, zero_keys}
use cryp.Session.{
  Session, Store, Heap, zero_vault_keys, expired, keep, wipe, delete_by_vault, sweep, close,
}
use cryp.Session.Isolation.{Every-keep}

abbrev pub AreZero : Bytes → Type 0
AreZero [] = Unit {0}
AreZero (x ∷ xs) = (x ≡ 0) × AreZero xs

-- Every byte of both keys is 0.
abbrev pub IsWiped : VaultKeys → Type 0
IsWiped k = AreZero k.master_key × AreZero k.mac_key

map-AreZero : (xs : Bytes) → AreZero (map (λ _. 0) xs)
map-AreZero [] = tt
map-AreZero (x ∷ xs) = (refl, map-AreZero xs)

zero_keys-IsWiped : (k : VaultKeys) → IsWiped (zero_keys k)
unfolding zero_keys
zero_keys-IsWiped k = (map-AreZero k.master_key, map-AreZero k.mac_key)

zeroed : (a : ℕ) (h : Heap) → IsWiped (zero_vault_keys a h a)
unfolding zero_vault_keys
zeroed a h = let same : (a == a) ≡ true = (==_iff a a).1 refl in rw same (zero_keys-IsWiped (h a))

zero-IsWiped : (a b : ℕ) (h : Heap) → IsWiped (h b) → IsWiped (zero_vault_keys a h b)
unfolding zero_vault_keys
zero-IsWiped a b h w = elim (Bool-cases (a == b)) [
  | inl same ↦ rw same (zero_keys-IsWiped (h b))
  | inr other ↦ rw other w
]

module _ (drop : Session → Bool) where
  wipe-IsWiped :
      (b : ℕ) (m : List (String × Session)) (h : Heap) → IsWiped (h b) → IsWiped (wipe drop m h b)
  unfolding wipe
  wipe-IsWiped b [] h w = w
  wipe-IsWiped b ((id, t) ∷ m) h w = elim (Bool-cases (drop t)) [
    | inl gone ↦ rw (gone, wipe) (wipe-IsWiped b m _ (zero-IsWiped t.keys b h w))
    | inr stays ↦ rw (stays, wipe) (wipe-IsWiped b m h w)
  ]

  wipe_lem :
      (j : String) (session : Session) (m : List (String × Session)) (h : Heap)
      → lookup j m ≡ some session
      → drop session ≡ true
      → IsWiped (wipe drop m h session.keys)
  unfolding wipe lookup
  wipe_lem j session [] h found gone = absurd (ground arith)
  wipe_lem j session ((id, t) ∷ m) h found gone = elim (Bool-cases (str_eq id j)) [
    | inl same ↦
        let here : t ≡ session = ground arith in
        let gone' : drop t ≡ true = ap drop here ∙ gone in
        rw (← here, gone', wipe) (wipe-IsWiped t.keys m _ (zeroed t.keys h))
    | inr other ↦ wipe_lem j session m _ (ground arith) gone
  ]

  lookup-keep :
      (j : String) (session : Session) (m : List (String × Session))
      → IsMap m
      → lookup j m ≡ some session
      → lookup j (keep drop m) ≡ (if drop session then none else some session)
  unfolding keep lookup
  lookup-keep j session [] h found = absurd (ground arith)
  lookup-keep j session ((id, t) ∷ m) h found = elim (Bool-cases (str_eq id j)) [
    | inl same ↦
        let here : t ≡ session = ground arith in
        let key : id ≡ j = (str_eq_iff id j).0 same in
        let none_left : lookup j (keep drop m) ≡ none = lookup_missing j (keep drop m) (
          Every-keep (λ i _. str_eq i j ≡ false) drop m
            (subst (λ (k : String). Every (λ i _. str_eq i k ≡ false) m) key h.0)) in
        rw (← here) (ground (arith, none_left, same))
    | inr other ↦
        let rest = lookup-keep j session m h.1 (ground arith) in ground (arith, rest, other)
  ]

keep_none : (m : List (String × Session)) → keep (λ _. true) m ≡ []
unfolding keep
keep_none [] = refl
keep_none ((id, t) ∷ m) = keep_none m

no_session : (j : String) (m : List (String × Session)) → lookup j (keep (λ _. true) m) ≡ none
unfolding lookup
no_session j m = rw (keep_none m) refl

module _ (s : Store) (j : String) (session : Session) where
  -- In a store whose ids are distinct, one tick of cleanup drops a session if it is expired and
  -- keeps it unchanged otherwise.
  pub sweep_lem :
      (now : ℕ)
      → IsMap s.sessions
      → lookup j s.sessions ≡ some session
      → lookup j (sweep s now).sessions ≡ (if expired now session then none else some session)
  unfolding sweep
  sweep_lem now h found = lookup-keep (expired now) j session s.sessions h found

  -- After one tick of cleanup every key byte of an expired session is zero.
  pub sweep-IsWiped :
      (now : ℕ)
      → lookup j s.sessions ≡ some session
      → expired now session ≡ true
      → IsWiped ((sweep s now).heap session.keys)
  unfolding sweep
  sweep-IsWiped now found late = wipe_lem (expired now) j session s.sessions s.heap found late

  -- In a store whose ids are distinct, after DeleteByVault a session of that vault is gone and
  -- its key bytes are zero.
  pub delete_by_vault-IsWiped :
      (vault_id : String)
      → IsMap s.sessions
      → lookup j s.sessions ≡ some session
      → str_eq session.vault_id vault_id ≡ true
      → (lookup j (delete_by_vault s vault_id).sessions ≡ none)
        × IsWiped ((delete_by_vault s vault_id).heap session.keys)
  unfolding delete_by_vault
  delete_by_vault-IsWiped v h found same =
      let test : Session → Bool = λ t. str_eq t.vault_id v in
      (
        ground (arith, lookup-keep test j session s.sessions h found),
        wipe_lem test j session s.sessions s.heap found same,
      )

  -- After Close of an open store a session that was in it is gone and its key bytes are zero.
  pub close-IsWiped :
      s.closed ≡ false
      → lookup j s.sessions ≡ some session
      → (lookup j (close s).sessions ≡ none) × IsWiped ((close s).heap session.keys)
  unfolding close
  close-IsWiped opened found =
      simp opened
        (no_session j s.sessions, wipe_lem (λ _. true) j session s.sessions s.heap found refl)
