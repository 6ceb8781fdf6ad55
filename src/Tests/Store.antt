-- ===== src/Tests/Store.antt =====
-- The session store on concrete data.
use cryp.Prelude.{◌≡◌, refl, true, false, some, none, replicate, List, [], ◌∷◌}
use cryp.GoMap.{lookup, insert, IsMap}
use cryp.Crypto.Keys.{VaultKeys}
use cryp.Session.{
  Session, Store, clone_keys, new_store, create, expired, get, has, delete_by_vault, close,
  session_expiry,
}
use cryp.Session.Isolation.{Call, creates, closes, run, step}
use cryp.Session.Snapshots.{snapshot_isolated}
use cryp.Session.Expiry.{boundary}
use cryp.Session.Wiping.{IsWiped, delete_by_vault-IsWiped, close-IsWiped}

abbrev keys : VaultKeys
keys = record { master_key = replicate 32 1; mac_key = replicate 32 2 }

abbrev alice : Session
alice = record { id = "a"; vault_id = "v"; vault_path = "/v"; keys = 4; expires_at = 100 }

abbrev bob : Session
bob = record { id = "b"; vault_id = "w"; vault_path = "/w"; keys = 5; expires_at = 200 }

abbrev two_sessions : Store
two_sessions = record {
  sessions = ("a", alice) ∷ ("b", bob) ∷ [];
  closed = false;
  heap = λ _. keys;
  next = 6;
}

found : lookup "a" two_sessions.sessions ≡ some alice
unfolding lookup
found = refl

two_sessions-IsMap : IsMap two_sessions.sessions
two_sessions-IsMap = ((refl, tt), (tt, tt))

boundary_example :
    (has two_sessions 100 "a" ≡ false)
    × ((copy : Session) × ((get two_sessions 100 "a").1 ≡ some copy))
boundary_example = boundary two_sessions 100 "a" alice found refl

late : expired 150 alice ≡ true
unfolding expired
late = refl

delete_by_vault-IsWiped_example :
    (lookup "a" (delete_by_vault two_sessions "v").sessions ≡ none)
    × IsWiped ((delete_by_vault two_sessions "v").heap 4)
delete_by_vault-IsWiped_example =
    delete_by_vault-IsWiped two_sessions "a" alice "v" two_sessions-IsMap found refl

close-IsWiped_example :
    (lookup "a" (close two_sessions).sessions ≡ none) × IsWiped ((close two_sessions).heap 4)
close-IsWiped_example = close-IsWiped two_sessions "a" alice refl found

-- A session is created at time 0, shown at time 1, and the store is closed.
abbrev before : List Call
before = creates (some "a") 0 "v" "/v" (some 0) ∷ []

abbrev session : Session
session = record {
  id = "a";
  vault_id = "v";
  vault_path = "/v";
  keys = 1;
  expires_at = session_expiry;
}

abbrev snapshot : Session
snapshot = record session { keys = 2 }

opened : lookup "a" (run (new_store (λ _. keys) 1) before).sessions ≡ some session
unfolding lookup run step new_store create clone_keys insert
opened = refl

abbrev shown : Store
unfolding get run step new_store create clone_keys insert lookup expired
shown = (get (run (new_store (λ _. keys) 1) before) 1 "a").0

shows : get (run (new_store (λ _. keys) 1) before) 1 "a" ≡ (shown, some snapshot)
unfolding shown get run step new_store create clone_keys insert lookup expired
shows = refl

snapshot_isolated_example :
    (snapshot ≡ record session { keys = 2 })
    × ((run shown (closes ∷ [])).heap 2 ≡ (run (new_store (λ _. keys) 1) before).heap 1)
snapshot_isolated_example =
    snapshot_isolated (λ _. keys) 1 before (closes ∷ []) 1 "a" shown session snapshot opened shows
