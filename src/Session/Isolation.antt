-- ===== src/Session/Isolation.antt =====
-- Memory safety of the session store: a snapshot that `Get` handed out is never touched by the store
-- again, so a logout, an expiry or a shutdown cannot zero keys that a handler is still using.
use Prim.Native.String.{String}
use cryp.Prelude.{
  ℕ, ◌<◌, ◌≡◌, ◌≢◌, refl, ◌∙◌, Bool, true, Bool-cases, Option-cases, inl, inr, Option, none, some,
  List, [], ◌∷◌, arith,
}
use cryp.GoMap.{lookup, remove, Every, Every-insert, Every-remove, Every-lookup}
use cryp.Crypto.Keys.{VaultKeys}
use cryp.Session.{
  Session, Store, Heap, zero_vault_keys, clone_keys, create, expired, drop_expired, get, delete,
  keep, wipe, delete_by_vault, sweep, close, refresh,
}

-- The operations on a store.
pub data Call : Type 0 where
  creates : Option String → ℕ → String → String → Option ℕ → Call
  gets : ℕ → String → Call
  drops : ℕ → String → Call
  deletes : String → Call
  deletes_by_vault : String → Call
  refreshes : ℕ → String → Call
  sweeps : ℕ → Call
  closes : Call

unfoldable pub step : Store → Call → Store
step s (creates drawn now v p keys) = (create s drawn now v p keys).0
step s (gets now id) = (get s now id).0
step s (drops now id) = drop_expired s now id
step s (deletes id) = delete s id
step s (deletes_by_vault v) = delete_by_vault s v
step s (refreshes now id) = refresh s now id
step s (sweeps now) = sweep s now
step s closes = close s

unfoldable pub run : Store → List Call → Store
run s [] = s
run s (c ∷ cs) = run (step s c) cs

-- The memory at `a` is in use, belongs to no session of the store, and holds `k`.
pub record Apart (a : ℕ) (k : VaultKeys) (s : Store) : Type 0 where
  pub used : a < s.next
  pub foreign : Every (λ _ session. session.keys ≢ a) s.sessions
  pub holds : s.heap a ≡ k

zero_elsewhere : (a b : ℕ) (h : Heap) → b ≢ a → zero_vault_keys b h a ≡ h a
unfolding zero_vault_keys
zero_elsewhere a b h ne = ground arith

wipe_elsewhere :
    (a : ℕ) (drop : Session → Bool) (m : List (String × Session)) (h : Heap)
    → Every (λ _ session. session.keys ≢ a) m
    → wipe drop m h a ≡ h a
unfolding wipe
wipe_elsewhere a drop [] h e = refl
wipe_elsewhere a drop ((id, s) ∷ m) h e =
    wipe_elsewhere a drop m _ e.1 ∙ ground (arith, zero_elsewhere a s.keys h e.0)

pub Every-keep {κ} :
    (P : String → Session → Type κ) (drop : Session → Bool) (m : List (String × Session))
    → Every P m
    → Every P (keep drop m)
unfolding keep
Every-keep P drop [] h = tt
Every-keep P drop ((id, s) ∷ m) h = elim (Bool-cases (drop s)) [
  | inl gone ↦ rw gone (Every-keep P drop m h.1)
  | inr stays ↦ rw stays (h.0, Every-keep P drop m h.1)
]

module _ (a : ℕ) (k : VaultKeys) where
  purge-Apart :
      (drop : Session → Bool) (s : Store)
      → Apart a k s
      → Apart a k (record s { heap = wipe drop s.sessions s.heap; sessions = keep drop s.sessions })
  purge-Apart drop s h = record {
    used = h.used;
    foreign = Every-keep (λ _ session. session.keys ≢ a) drop s.sessions h.foreign;
    holds = wipe_elsewhere a drop s.sessions s.heap h.foreign ∙ h.holds;
  }

  -- Dropping one session of the store.
  remove-Apart :
      (s : Store) (id : String) (session : Session)
      → Apart a k s
      → lookup id s.sessions ≡ some session
      → Apart a k
          (record s { heap = zero_vault_keys session.keys s.heap; sessions = remove id s.sessions })
  remove-Apart s id session h e = record {
    used = h.used;
    foreign = Every-remove (λ _ t. t.keys ≢ a) id s.sessions h.foreign;
    holds =
        zero_elsewhere a session.keys s.heap
          (Every-lookup (λ _ t. t.keys ≢ a) id s.sessions session h.foreign e)
        ∙ h.holds;
  }

  clone-Apart : (b : ℕ) (s : Store) → Apart a k s → Apart a k (clone_keys b s).1
  unfolding clone_keys
  clone-Apart b s h = record { used = ground arith; foreign = h.foreign; holds = ground arith }

  create-Apart :
      (s : Store) (drawn : Option String) (now : ℕ) (v p : String) (keys : Option ℕ)
      → Apart a k s
      → Apart a k (create s drawn now v p keys).0
  unfolding create clone_keys
  create-Apart s drawn now v p none h = h
  create-Apart s none now v p (some b) h = h
  create-Apart s (some id) now v p (some b) h = elim (Bool-cases s.closed) [
    | inl shut ↦ rw shut (record {
      used = omega (arith, h.used);
      foreign = h.foreign;
      holds = zero_elsewhere a s.next _ (omega (arith, h.used)) ∙ ground (arith, h.used, h.holds);
    })
    | inr opened ↦ rw opened (record {
      used = omega (arith, h.used);
      foreign = Every-insert (λ _ t. t.keys ≢ a) id _ s.sessions (omega (arith, h.used)) h.foreign;
      holds = ground (arith, h.used, h.holds);
    })
  ]

  drop_expired-Apart :
      (s : Store) (now : ℕ) (id : String) → Apart a k s → Apart a k (drop_expired s now id)
  unfolding drop_expired
  drop_expired-Apart s now id h = elim (Option-cases (lookup id s.sessions)) [
    | inl missing ↦ rw (missing, drop_expired) h
    | inr (session, e) ↦ elim (Bool-cases (expired now session)) [
      | inl late ↦ rw (e, late, drop_expired) (remove-Apart s id session h e)
      | inr early ↦ rw (e, early, drop_expired) h
    ]
  ]

  get-Apart : (s : Store) (now : ℕ) (id : String) → Apart a k s → Apart a k (get s now id).0
  unfolding get
  get-Apart s now id h = elim (Option-cases (lookup id s.sessions)) [
    | inl missing ↦ rw (missing, get) h
    | inr (session, e) ↦ elim (Bool-cases (expired now session)) [
      | inl late ↦ rw (e, late, get) (drop_expired-Apart s now id h)
      | inr early ↦ rw (e, early, get) (clone-Apart session.keys s h)
    ]
  ]

  delete-Apart : (s : Store) (id : String) → Apart a k s → Apart a k (delete s id)
  unfolding delete
  delete-Apart s id h = elim (Option-cases (lookup id s.sessions)) [
    | inl missing ↦ rw (missing, delete) h
    | inr (session, e) ↦ rw (e, delete) (remove-Apart s id session h e)
  ]

  refresh-Apart : (s : Store) (now : ℕ) (id : String) → Apart a k s → Apart a k (refresh s now id)
  unfolding refresh
  refresh-Apart s now id h = elim (Option-cases (lookup id s.sessions)) [
    | inl missing ↦ rw (missing, refresh) h
    | inr (session, e) ↦
        rw (e, refresh)
          (record {
            used = h.used;
            foreign =
                Every-insert (λ _ t. t.keys ≢ a) id _ s.sessions
                  (Every-lookup (λ _ t. t.keys ≢ a) id s.sessions session h.foreign e) h.foreign;
            holds = h.holds;
          })
  ]

  close-Apart : (s : Store) → Apart a k s → Apart a k (close s)
  unfolding close
  close-Apart s h = elim (Bool-cases s.closed) [
    | inl was ↦ simp was h
    | inr now ↦
        let p = purge-Apart (λ _. true) s h in
        simp now (record { used = p.used; foreign = p.foreign; holds = p.holds })
  ]

  step-Apart : (s : Store) (c : Call) → Apart a k s → Apart a k (step s c)
  unfolding step delete_by_vault sweep
  step-Apart s (creates drawn now v p keys) h = create-Apart s drawn now v p keys h
  step-Apart s (gets now id) h = get-Apart s now id h
  step-Apart s (drops now id) h = drop_expired-Apart s now id h
  step-Apart s (deletes id) h = delete-Apart s id h
  step-Apart s (deletes_by_vault v) h = purge-Apart _ s h
  step-Apart s (refreshes now id) h = refresh-Apart s now id h
  step-Apart s (sweeps now) h = purge-Apart _ s h
  step-Apart s closes h = close-Apart s h

  pub run-Apart : (s : Store) (cs : List Call) → Apart a k s → Apart a k (run s cs)
  unfolding run
  run-Apart s [] h = h
  run-Apart s (c ∷ cs) h = run-Apart (step s c) cs (step-Apart s c h)
