-- ===== src/Thumb/Queue.antt =====
-- Admission to the thumbnail queue: `tryEnqueue`, `pruneFailedLocked` and `WaitVaultIdle`.
use Prim.Native.String.{String, ◌++◌}
use cryp.Prelude.{
  ℕ, ◌+◌, ◌-◌, ◌%◌, ◌^◌, ltb, length, drop, Bool, true, false, ◌||◌, not, Option, none, some, List,
  [], ◌∷◌, ◌++◌ as ◌+++◌, if◌then◌else◌,
}
use cryp.GoMap.{lookup, insert, remove}
use cryp.Crypto.Keys.{VaultKeys}
use cryp.Task.{has_key}
use cryp.Thumb.{
  is_blank, ThumbJob, Generator, has_prefix, count_of, thumb_job_key, lifecycle_of, set_lifecycle,
  is_idle, maybe_retire, retain_generation,
}

abbrev pub queue_size : ℕ
queue_size = 1000

abbrev pub max_failed_jobs : ℕ
max_failed_jobs = 5000

-- What `tryEnqueue` returns, and `WaitVaultIdle`.
pub data ThumbError : Type 0 where
  unavailable stopped_generator vault_unavailable queue_full generation_failed : ThumbError

-- The loop that drops the failures whose time has passed.
unfoldable pub unexpired : ℕ → List (String × ℕ) → List (String × ℕ)
unexpired now [] = []
unexpired now ((key, until) ∷ m) =
    let rest = unexpired now m in if ltb now until then (key, until) ∷ rest else rest

-- `pruneFailedLocked`. Which entries go when there are too many is the map's order of iteration.
unfoldable pub prune_failed : ℕ → List (String × ℕ) → List (String × ℕ)
prune_failed now m = let kept = unexpired now m in drop (length kept - max_failed_jobs) kept

-- The part of `tryEnqueue` from the mark in `queued` on; the queue's room decides.
unfoldable pub push_job :
    Generator → String → String → String → VaultKeys → Generator × Option ThumbError
push_job g vault_id vault_path virtual_path keys_copy =
    let key = thumb_job_key vault_id virtual_path in
    let state = lifecycle_of g vault_id in
    let next = (state.next_id + 1) % 2 ^ 64 in
    let job : ThumbJob = record {
      vault_id = vault_id;
      vault_path = vault_path;
      keys = keys_copy;
      file_path = virtual_path;
      generation = count_of key g.generations;
      queue_id = next;
      run_id = 0;
    } in
    if ltb (length g.jobs) queue_size
    then (
      retain_generation
          (record (set_lifecycle g vault_id
            (record state { next_id = next; pending = state.pending + 1 })) {
              queued = insert key tt g.queued;
              jobs = g.jobs +++ (job ∷ []);
            })
          key,
      none,
    )
    else (
      maybe_retire
          (record (set_lifecycle g vault_id (record state { next_id = next })) {
            queued = remove key g.queued;
          })
          vault_id,
      some ThumbError.queue_full,
    )

-- The part of `tryEnqueue` from the look into `failed` on: a failure that still cools down is not tried
-- again.
unfoldable pub retry_job :
    Generator → String → String → String → VaultKeys → ℕ → Generator × Option ThumbError
retry_job g vault_id vault_path virtual_path keys_copy now =
    let key = thumb_job_key vault_id virtual_path in
    elim (lookup key g.failed) [
      | none ↦ push_job g vault_id vault_path virtual_path keys_copy
      | some until ↦
          if ltb now until
          then (g, none)
          else push_job (record g { failed = remove key g.failed }) vault_id vault_path virtual_path
              keys_copy
    ]

-- The part under the lock.
unfoldable pub admit_thumb :
    Generator → String → String → String → VaultKeys → ℕ → Generator × Option ThumbError
admit_thumb g vault_id vault_path virtual_path keys_copy now =
    let state = lifecycle_of g vault_id in
    let known = set_lifecycle g vault_id state in
    let pruned = record known { failed = prune_failed now g.failed } in
    if g.stopped
    then (g, some ThumbError.stopped_generator)
    else if state.quiescing || state.retiring
    then (known, some ThumbError.vault_unavailable)
    else if has_key (thumb_job_key vault_id virtual_path) g.queued
    then (pruned, none)
    else retry_job pruned vault_id vault_path virtual_path keys_copy now

-- `tryEnqueue`, given whether the picture is cached already; the copy of the keys that the queue does
-- not take is wiped.
unfoldable pub try_enqueue :
    Generator
    → String
    → String
    → Option VaultKeys
    → String
    → ℕ
    → Bool
    → Generator × Option ThumbError
try_enqueue g vault_id vault_path none virtual_path now cached = (g, some ThumbError.unavailable)
try_enqueue g vault_id vault_path (some keys) virtual_path now cached =
    if is_blank g.vault_dir || is_blank vault_id
    then (g, some ThumbError.unavailable)
    else if cached
    then (g, none)
    else admit_thumb g vault_id vault_path virtual_path keys now

-- One look of `WaitVaultIdle`: whether it returns, and with which error.
unfoldable pub any_prefix : String → List (String × ℕ) → Bool
any_prefix prefix [] = false
any_prefix prefix ((k, v) ∷ m) = has_prefix k prefix || any_prefix prefix m

unfoldable pub wait_vault_idle : Generator → String → Option (Option ThumbError)
wait_vault_idle g vault_id =
    let idle : Bool = elim (lookup vault_id g.vaults) [
      | none ↦ true
      | some state ↦ is_idle state
    ] in
    if not idle
    then none
    else if any_prefix (vault_id ++ "\0") g.failed
    then some (some ThumbError.generation_failed)
    else some none
