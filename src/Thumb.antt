-- ===== src/Thumb.antt =====
-- The thumbnail generator of internal/thumbnail/thumbnail.go: its queue, its vaults' lifecycles and its
-- bookkeeping. Each function is one critical section under `mu`. The channel `jobs` is a list, the
-- one worker is between two critical sections in a `WorkerPhase`, and the generation of a picture itself
-- is an outcome that is given to `finish_job`. A context is a run's flag `cancelled`, and a `done` channel is closed when its run
-- leaves `active`. Times are numbers.
pub mod Queue
pub mod Worker
pub mod Calls
pub mod Frame
pub mod Observe
pub mod Kept
pub mod Opening
pub mod Counts
pub mod Admit
pub mod Rounds
pub mod Sound
pub mod Shut
pub mod Barrier
use Prim.Native.Char.{code}
use Prim.Native.String.{String, ◌++◌}
use cryp.Prelude.{
  ℕ, ◌+◌, ◌-◌, ◌%◌, ◌^◌, ◌==◌, ltb, leb, length, Bool, true, false, ◌&&◌, ◌||◌, not, Option, none,
  some, List, [], ◌∷◌, if◌then◌else◌,
}
use cryp.GoMap.{str_eq, lookup, insert, remove}
use cryp.GoText.{is_space}
use cryp.Crypto.Keys.{VaultKeys}
use cryp.Task.{has_key}

-- `thumbJob`; its context is that of its run.
pub record ThumbJob : Type 0 where
  pub vault_id : String
  pub vault_path : String
  pub keys : VaultKeys
  pub file_path : String
  pub generation : ℕ
  pub queue_id : ℕ
  pub run_id : ℕ

-- `vaultLifecycle`; an active run is its id and whether it is cancelled.
pub record VaultLifecycle : Type 0 where
  pub quiescing : Bool
  pub retiring : Bool
  pub pending : ℕ
  pub next_id : ℕ
  pub active : List (ℕ × Bool)

-- What the worker does next with the job that it received: `discardJob`, `finishJob` after the
-- generation, or `endJob`.
pub data WorkerPhase : Type 0 where
  waiting : WorkerPhase
  discarding generating ending : ThumbJob → WorkerPhase

-- `Generator`, with the phase of its worker.
pub record Generator : Type 0 where
  pub vault_dir : String
  pub jobs : List ThumbJob
  pub worker : WorkerPhase
  pub queued : List (String × Unit {0})
  pub failed : List (String × ℕ)
  pub generations : List (String × ℕ)
  pub generation_refs : List (String × ℕ)
  pub vaults : List (String × VaultLifecycle)
  pub resume_pending : List (String × Unit {0})
  pub stopped : Bool

-- `strings.HasPrefix`.
unfoldable pub has_prefix : String → String → Bool
has_prefix s String.[] = true
has_prefix String.[] (String.◌∷◌ d p) = false
has_prefix (String.◌∷◌ c s) (String.◌∷◌ d p) =
    let rest = has_prefix s p in if code c == code d then rest else false

-- `m[k]` of a map to numbers.
unfoldable pub count_of : String → List (String × ℕ) → ℕ
count_of k m = elim (lookup k m) [ none ↦ 0 | some n ↦ n ]

-- `thumbJobKey`.
unfoldable pub thumb_job_key : String → String → String
thumb_job_key vault_id virtual_path = vault_id ++ ("\0" ++ virtual_path)

abbrev pub new_lifecycle : VaultLifecycle
new_lifecycle = record {
  quiescing = false;
  retiring = false;
  pending = 0;
  next_id = 0;
  active = [];
}

-- `lifecycleLocked`, of which the caller writes the state back.
unfoldable pub lifecycle_of : Generator → String → VaultLifecycle
lifecycle_of g vault_id = elim (lookup vault_id g.vaults) [
  | none ↦ new_lifecycle
  | some state ↦ state
]

unfoldable pub set_lifecycle : Generator → String → VaultLifecycle → Generator
set_lifecycle g vault_id state = record g { vaults = insert vault_id state g.vaults }

-- The loops of `purgeVaultCachesLocked`.
unfoldable pub without_prefix : {V : Type 0} → String → List (String × V) → List (String × V)
without_prefix prefix [] = []
without_prefix prefix ((k, v) ∷ m) =
    let rest = without_prefix prefix m in if has_prefix k prefix then rest else (k, v) ∷ rest

-- `purgeVaultCachesLocked`.
unfoldable pub purge_vault_caches : Generator → String → Generator
purge_vault_caches g vault_id =
    let prefix = vault_id ++ "\0" in
    record g {
      queued = without_prefix prefix g.queued;
      failed = without_prefix prefix g.failed;
      generations = without_prefix prefix g.generations;
      generation_refs = without_prefix prefix g.generation_refs;
    }

-- `len(state.active) == 0 && state.pending == 0`.
unfoldable pub is_idle : VaultLifecycle → Bool
is_idle state = (state.pending == 0) && (length state.active == 0)

-- `maybeRetireLocked`.
unfoldable pub maybe_retire : Generator → String → Generator
maybe_retire g vault_id = elim (lookup vault_id g.vaults) [
  | none ↦ g
  | some state ↦
      if state.retiring && is_idle state
      then record (purge_vault_caches g vault_id) {
        resume_pending = remove vault_id g.resume_pending;
        vaults = remove vault_id g.vaults;
      }
      else g
]

-- `retainGenerationLocked`.
unfoldable pub retain_generation : Generator → String → Generator
retain_generation g key = record g {
  generation_refs = insert key (count_of key g.generation_refs + 1) g.generation_refs;
}

-- `maybePurgeGenerationLocked`.
unfoldable pub maybe_purge_generation : Generator → String → Generator
maybe_purge_generation g key =
    if not (count_of key g.generation_refs == 0) || has_key key g.queued
    then g
    else record g { generations = remove key g.generations }

-- `releaseGenerationLocked`.
unfoldable pub release_generation : Generator → String → Generator
release_generation g key =
    let refs = count_of key g.generation_refs in
    if ltb 1 refs
    then record g { generation_refs = insert key (refs - 1) g.generation_refs }
    else maybe_purge_generation (record g { generation_refs = remove key g.generation_refs }) key

-- The loop of `QuiesceVault` that cancels the active runs.
unfoldable pub cancel_active : List (ℕ × Bool) → List (ℕ × Bool)
cancel_active [] = []
cancel_active ((id, cancelled) ∷ runs) = (id, true) ∷ cancel_active runs

-- `QuiesceVault` up to its waiting for the cancelled runs.
unfoldable pub quiesce_thumbs : Generator → String → Generator
quiesce_thumbs g vault_id =
    if g.stopped
    then g
    else let state = lifecycle_of g vault_id in
      set_lifecycle g vault_id
        (record state { quiescing = true; active = cancel_active state.active })

-- `ResumeVault`.
unfoldable pub resume_thumbs : Generator → String → Generator
resume_thumbs g vault_id = elim (lookup vault_id g.vaults) [
  | none ↦ g
  | some state ↦
      if state.retiring
      then g
      else if is_idle state
      then record (set_lifecycle g vault_id (record state { quiescing = false })) {
        resume_pending = remove vault_id g.resume_pending;
      }
      else record g { resume_pending = insert vault_id tt g.resume_pending }
]

-- `ForgetVault`.
unfoldable pub forget_thumbs : Generator → String → Generator
forget_thumbs g vault_id = elim (lookup vault_id g.vaults) [
  | none ↦ g
  | some state ↦
      maybe_retire (set_lifecycle g vault_id (record state { retiring = true; quiescing = true }))
        vault_id
]

-- `PrepareVaultRebuild` behind its waiting: the file system removes the cached pictures, and `removed`
-- says whether that went without an error.
unfoldable pub finish_prepare : Generator → String → Bool → Generator
finish_prepare g vault_id removed =
    if removed then resume_thumbs (purge_vault_caches g vault_id) vault_id else g

-- `Stop`; it marks the generator and closes the channel.
unfoldable pub stop_thumbs : Generator → Generator
stop_thumbs g = record g { stopped = true }

-- `strings.TrimSpace(s) == ""`.
unfoldable pub is_blank : String → Bool
is_blank String.[] = true
is_blank (String.◌∷◌ c s) = let rest = is_blank s in is_space (code c) && rest

-- `DeleteThumbnail`; generations are uint64.
unfoldable pub delete_thumbnail : Generator → String → String → Generator
delete_thumbnail g vault_id virtual_path =
    let key = thumb_job_key vault_id virtual_path in
    if is_blank g.vault_dir || is_blank vault_id || str_eq virtual_path ""
    then g
    else maybe_purge_generation
        (record g {
          generations = insert key ((count_of key g.generations + 1) % 2 ^ 64) g.generations;
          queued = remove key g.queued;
          failed = remove key g.failed;
        })
        key
