-- ===== src/Session.antt =====
-- internal/session/store.go. The key material lies in a heap, since the store and its callers share
-- it by reference and `Zero` overwrites it in place: a `*VaultKeys` is an address. The clock and the
-- drawn session id are arguments; each call runs under the store's lock.
pub mod Isolation
pub mod Snapshots
pub mod Expiry
pub mod Wiping
use Prim.Native.String.{String}
use cryp.Prelude.{
  ℕ, suc, ◌+◌, ◌*◌, Bool, true, false, ◌&&◌, not, Option, none, some, List, [], ◌∷◌, ◌==◌, ltb,
  if◌then◌else◌, Result, ok, err,
}
use cryp.GoMap.{str_eq, lookup, insert, remove}
use cryp.Crypto.Keys.{VaultKeys, zero_keys}

-- `SessionExpiry`, in nanoseconds.
abbrev pub session_expiry : ℕ
session_expiry = 24 * 3600 * 1_000_000_000

pub record Session : Type 0 where
  pub id : String
  pub vault_id : String
  pub vault_path : String
  pub keys : ℕ
  pub expires_at : ℕ

-- The store, and the memory that holds key material: `next` is the first free address.
pub record Store : Type 0 where
  pub sessions : List (String × Session)
  pub closed : Bool
  pub heap : ℕ → VaultKeys
  pub next : ℕ

pub data StoreError : Type 0 where
  keys_missing rand_failed store_closed : StoreError

abbrev pub Heap : Type 0
Heap = ℕ → VaultKeys

-- `zeroVaultKeys` at an address.
unfoldable pub zero_vault_keys : ℕ → Heap → Heap
zero_vault_keys a h b = if a == b then zero_keys (h b) else h b

-- `Clone` into fresh memory.
unfoldable pub clone_keys : ℕ → Store → ℕ × Store
clone_keys a s =
    let copy = s.heap a in
    (s.next, record s { heap = λ b. if s.next == b then copy else s.heap b; next = s.next + 1 })

-- `NewStore`, over the memory of the process.
unfoldable pub new_store : Heap → ℕ → Store
new_store heap next = record { sessions = []; closed = false; heap = heap; next = next }

-- `Create`; the drawn id is `none` where the random source fails.
unfoldable pub create :
    Store → Option String → ℕ → String → String → Option ℕ → Store × Result StoreError String
create s drawn now vault_id vault_path none = (s, err StoreError.keys_missing)
create s none now vault_id vault_path (some keys) = (s, err StoreError.rand_failed)
create s (some id) now vault_id vault_path (some keys) =
    let (owned, s') = clone_keys keys s in
    if s'.closed
    then (record s' { heap = zero_vault_keys owned s'.heap }, err StoreError.store_closed)
    else (
      record s' {
        sessions =
            insert id
              (record {
                id = id;
                vault_id = vault_id;
                vault_path = vault_path;
                keys = owned;
                expires_at = now + session_expiry;
              })
              s'.sessions;
      },
      ok id,
    )

-- `now.After(session.ExpiresAt)`.
unfoldable pub expired : ℕ → Session → Bool
expired now session = ltb session.expires_at now

-- The write-locked part of `Get`: the session is looked up again and dropped if it is expired still.
unfoldable pub drop_expired : Store → ℕ → String → Store
drop_expired s now id = elim (lookup id s.sessions) [
  | none ↦ s
  | some current ↦
      if expired now current
      then record s { heap = zero_vault_keys current.keys s.heap; sessions = remove id s.sessions }
      else s
]

-- `Get`: a snapshot with its own copy of the keys.
unfoldable pub get : Store → ℕ → String → Store × Option Session
get s now id = elim (lookup id s.sessions) [
  | none ↦ (s, none)
  | some session ↦
      if expired now session
      then (drop_expired s now id, none)
      else let (copy, s') = clone_keys session.keys s in (s', some (record session { keys = copy }))
]

-- `Has`.
unfoldable pub has : Store → ℕ → String → Bool
has s now id =
    if str_eq id ""
    then false
    else elim (lookup id s.sessions) [ none ↦ false | some session ↦ ltb now session.expires_at ]

-- `Delete`.
unfoldable pub delete : Store → String → Store
delete s id = elim (lookup id s.sessions) [
  | none ↦ s
  | some session ↦ record s {
    heap = zero_vault_keys session.keys s.heap;
    sessions = remove id s.sessions;
  }
]

-- The loops that delete while they range over the sessions: the entries to be kept, and the memory
-- after the keys of the others are zeroed.
unfoldable pub keep : (Session → Bool) → List (String × Session) → List (String × Session)
keep drop [] = []
keep drop ((id, s) ∷ m) = let rest = keep drop m in if drop s then rest else (id, s) ∷ rest

unfoldable pub wipe : (Session → Bool) → List (String × Session) → Heap → Heap
wipe drop [] h = h
wipe drop ((id, s) ∷ m) h = wipe drop m (if drop s then zero_vault_keys s.keys h else h)

abbrev purge : (Session → Bool) → Store → Store
purge drop s = record s { heap = wipe drop s.sessions s.heap; sessions = keep drop s.sessions }

-- `DeleteByVault`.
unfoldable pub delete_by_vault : Store → String → Store
delete_by_vault s vault_id = purge (λ session. str_eq session.vault_id vault_id) s

-- One tick of `cleanup`.
unfoldable pub sweep : Store → ℕ → Store
sweep s now = purge (expired now) s

-- `Close`; `stopOnce` makes a second call do nothing.
unfoldable pub close : Store → Store
close s = if s.closed then s else record (purge (λ _. true) s) { closed = true }

-- `Refresh`.
unfoldable pub refresh : Store → ℕ → String → Store
refresh s now id = elim (lookup id s.sessions) [
  | none ↦ s
  | some session ↦ record s {
    sessions = insert id (record session { expires_at = now + session_expiry }) s.sessions;
  }
]
