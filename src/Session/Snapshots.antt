-- ===== src/Session/Snapshots.antt =====
-- Snapshots in a running store.
use Prim.Native.String.{String}
use cryp.Prelude.{
  ℕ, ◌+◌, ◌≤◌, ◌<◌, ◌≡◌, ◌≢◌, refl, sym, ap, subst, true, Bool-cases, Option-cases, inl, inr,
  Option, none, some, List, [], ◌∷◌, ◌==◌, if◌then◌else◌, arith,
}
use cryp.GoMap.{lookup, Every, Every-insert, Every-remove, Every-lookup}
use cryp.Session.{
  Session, Store, Heap, clone_keys, new_store, create, expired, drop_expired, get, delete,
  delete_by_vault, sweep, close, refresh,
}
use cryp.Session.Isolation.{
  Call, creates, gets, drops, deletes, deletes_by_vault, refreshes, sweeps, closes, step, run,
  Apart, run-Apart, Every-keep,
}

-- Every session's keys lie in memory that is in use.
abbrev Below : ℕ → List (String × Session) → Type 0
Below n = Every (λ _ session. session.keys < n)

Below-mono : (m n : ℕ) (l : List (String × Session)) → m ≤ n → Below m l → Below n l
Below-mono m n [] h b = tt
Below-mono m n ((id, s) ∷ l) h b = (omega (arith, b.0), Below-mono m n l h b.1)

abbrev InUse : Store → Type 0
InUse s = Below s.next s.sessions

create-InUse :
    (s : Store) (drawn : Option String) (now : ℕ) (v p : String) (keys : Option ℕ)
    → InUse s
    → InUse (create s drawn now v p keys).0
unfolding create clone_keys
create-InUse s drawn now v p none h = h
create-InUse s none now v p (some b) h = h
create-InUse s (some id) now v p (some b) h =
    let wider = Below-mono s.next (s.next + 1) s.sessions (omega arith) h in
    elim (Bool-cases s.closed) [
      | inl shut ↦ rw shut wider
      | inr opened ↦
          rw opened (Every-insert (λ _ t. t.keys < s.next + 1) id _ s.sessions (omega arith) wider)
    ]

drop_expired-InUse : (s : Store) (now : ℕ) (id : String) → InUse s → InUse (drop_expired s now id)
unfolding drop_expired
drop_expired-InUse s now id h = elim (Option-cases (lookup id s.sessions)) [
  | inl missing ↦ rw (missing, drop_expired) h
  | inr (session, e) ↦ elim (Bool-cases (expired now session)) [
    | inl late ↦ rw (e, late, drop_expired) (Every-remove (λ _ t. t.keys < s.next) id s.sessions h)
    | inr early ↦ rw (e, early, drop_expired) h
  ]
]

get-InUse : (s : Store) (now : ℕ) (id : String) → InUse s → InUse (get s now id).0
unfolding get
get-InUse s now id h = elim (Option-cases (lookup id s.sessions)) [
  | inl missing ↦ rw (missing, get) h
  | inr (session, e) ↦ elim (Bool-cases (expired now session)) [
    | inl late ↦ rw (e, late, get) (drop_expired-InUse s now id h)
    | inr early ↦
        rw (e, early, get)
          (unfold clone_keys in Below-mono s.next (s.next + 1) s.sessions (omega arith) h)
  ]
]

delete-InUse : (s : Store) (id : String) → InUse s → InUse (delete s id)
unfolding delete
delete-InUse s id h = elim (Option-cases (lookup id s.sessions)) [
  | inl missing ↦ rw (missing, delete) h
  | inr (session, e) ↦ rw (e, delete) (Every-remove (λ _ t. t.keys < s.next) id s.sessions h)
]

refresh-InUse : (s : Store) (now : ℕ) (id : String) → InUse s → InUse (refresh s now id)
unfolding refresh
refresh-InUse s now id h = elim (Option-cases (lookup id s.sessions)) [
  | inl missing ↦ rw (missing, refresh) h
  | inr (session, e) ↦
      rw (e, refresh)
        (Every-insert (λ _ t. t.keys < s.next) id _ s.sessions
          (Every-lookup (λ _ t. t.keys < s.next) id s.sessions session h e) h)
]

close-InUse : (s : Store) → InUse s → InUse (close s)
unfolding close
close-InUse s h = elim (Bool-cases s.closed) [
  | inl was ↦ simp was h
  | inr now ↦ simp now (Every-keep (λ _ t. t.keys < s.next) (λ _. true) s.sessions h)
]

step-InUse : (s : Store) (c : Call) → InUse s → InUse (step s c)
unfolding step delete_by_vault sweep
step-InUse s (creates drawn now v p keys) h = create-InUse s drawn now v p keys h
step-InUse s (gets now id) h = get-InUse s now id h
step-InUse s (drops now id) h = drop_expired-InUse s now id h
step-InUse s (deletes id) h = delete-InUse s id h
step-InUse s (deletes_by_vault v) h = Every-keep (λ _ t. t.keys < s.next) _ s.sessions h
step-InUse s (refreshes now id) h = refresh-InUse s now id h
step-InUse s (sweeps now) h = Every-keep (λ _ t. t.keys < s.next) _ s.sessions h
step-InUse s closes h = close-InUse s h

run-InUse : (s : Store) (cs : List Call) → InUse s → InUse (run s cs)
unfolding run
run-InUse s [] h = h
run-InUse s (c ∷ cs) h = run-InUse (step s c) cs (step-InUse s c h)

other_cells : (n : ℕ) (l : List (String × Session)) → Below n l → Every (λ _ t. t.keys ≢ n) l
other_cells n [] h = tt
other_cells n ((id, s) ∷ l) h = (omega (arith, h.0), other_cells n l h.1)

-- A snapshot is a session's data with keys of its own.
get_snapshot :
    (t : Store) (now : ℕ) (id : String) (s : Store) (session snapshot : Session)
    → InUse t
    → lookup id t.sessions ≡ some session
    → get t now id ≡ (s, some snapshot)
    → Apart snapshot.keys (t.heap session.keys) s
      × (snapshot ≡ record session { keys = snapshot.keys })
      × (s.sessions ≡ t.sessions)
unfolding get clone_keys
get_snapshot t now id s session snapshot h found got = elim (Bool-cases (expired now session)) [
  | inl late ↦ absurd (ground arith)
  | inr early ↦
      let copied : record t {
        heap = λ b. if t.next == b then t.heap session.keys else t.heap b;
        next = t.next + 1;
      }
          ≡ s =
        ground arith in
      let shown : record session { keys = t.next } ≡ snapshot = ground arith in
      (
        subst (Apart snapshot.keys (t.heap session.keys)) copied (
            subst
              (λ (x : Session). Apart x.keys (t.heap session.keys) (record t {
                heap = λ b. if t.next == b then t.heap session.keys else t.heap b;
                next = t.next + 1;
              }))
              shown
              (record {
                used = omega arith;
                foreign = other_cells t.next t.sessions h;
                holds = ground arith;
              })),
        subst (λ (x : Session). x ≡ record session { keys = x.keys }) shown refl,
        ap (λ (x : Store). x.sessions) (sym copied),
      )
]

-- Whatever calls come before and after, a session snapshot that Get returns differs from the
-- stored session only in its keys address, and the keys there stay what the session had when Get
-- returned.
pub snapshot_isolated :
    (heap : Heap) (next : ℕ) (before after : List Call) (now : ℕ) (id : String) (s : Store)
    (session snapshot : Session)
    → lookup id (run (new_store heap next) before).sessions ≡ some session
    → get (run (new_store heap next) before) now id ≡ (s, some snapshot)
    → (snapshot ≡ record session { keys = snapshot.keys })
      × ((run s after).heap snapshot.keys ≡ (run (new_store heap next) before).heap session.keys)
snapshot_isolated heap next before after now id s session snapshot found got =
    let used = run-InUse (new_store heap next) before (unfold new_store in tt) in
    let (apart, shows, _) =
      get_snapshot (run (new_store heap next) before) now id s session snapshot used found got in
    (shows, (run-Apart snapshot.keys _ s after apart).holds)
