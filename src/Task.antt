-- ===== src/Task.antt =====
-- The task manager of internal/task/manager.go: its state and its lifecycle. Each function is one
-- critical section under `mu`, so that interleavings of starters, workers and the API are sequences
-- of calls. The manager and its arguments are not nil; the database, `m.db`, may be. A `done` channel
-- is closed exactly when its entry leaves its map, and a context is its flag `cancelled`.
pub mod Starts
pub mod Uploads
pub mod Calls
pub mod Vaults
pub mod Barrier
pub mod Exclusive
pub mod Resume
pub mod Entries
pub mod Owes
pub mod Owed
pub mod Admission
use Prim.Native.String.{String, ◌++◌}
use cryp.Prelude.{
  ℕ, ◌+◌, ◌-◌, ◌==◌, Bool, true, false, ◌&&◌, ◌||◌, not, Option, none, some, List, [], ◌∷◌,
  if◌then◌else◌, Result, ok, err,
}
use cryp.GoMap.{str_eq, lookup, insert, remove}
use cryp.Crypto.Keys.{VaultKeys, zero_keys}

pub data TaskError : Type 0 where
  task_manager_closed task_manager_not_closed vault_quiescing : TaskError
  task_id_empty vault_id_empty total_files_negative total_bytes_negative : TaskError
  start_in_progress : String → TaskError
  already_running : String → String → TaskError
  missing_keys guard_missing invalid_source count_failed : TaskError
  database_unavailable create_failed context_done : TaskError

-- `storage.TaskRecord`, without the times of the row; numbers are int64 patterns.
pub record TaskRecord : Type 0 where
  pub id : String
  pub vault_id : String
  pub kind : String
  pub status : String
  pub total_files : ℕ
  pub processed_files : ℕ
  pub total_bytes : ℕ
  pub processed_bytes : ℕ
  pub current_file : String
  pub error_msg : String
  pub source_path : String
  pub dest_path : String
  pub delete_source : Bool
  pub started_at : ℕ

-- The task table: `CreateTask`, `GetTask`, `UpdateTask` and `ListRunningTasks` of
-- internal/storage/db.go, whose statements SQLite runs. A Boolean says that there was no error.
pub record Database : Type 1 where
  pub D : Type 0
  pub create_task : D → TaskRecord → D × Bool
  pub get_task : D → String → Option TaskRecord
  pub update_task : D → TaskRecord → D × Bool
  pub list_running_tasks : D → Option (List TaskRecord)

pub record RunningTask : Type 0 where
  pub vault_id : String
  pub cancelled : Bool

-- A map to `struct{}` has values of the unit type. A pending start is its vault's id.
pub record Manager (D : Type 0) : Type 0 where
  pub db : Option D
  pub running : List (String × RunningTask)
  pub running_by_vault_type : List (String × String)
  pub task_run_keys : List (String × String)
  pub quiescing_vaults : List (String × Unit {0})
  pub pending_starts : List (String × String)
  pub resume_vaults : List (String × Unit {0})
  pub start_wg : ℕ
  pub wg : ℕ
  pub closed : Bool

-- `if _, ok := m[k]; ok`.
unfoldable pub has_key : {V : Type 0} → String → List (String × V) → Bool
has_key k m = elim (lookup k m) [ none ↦ false | some v ↦ true ]

-- The loops over `running` and `pendingStarts` that look for a vault.
unfoldable pub has_run : String → List (String × RunningTask) → Bool
has_run vault_id [] = false
has_run vault_id ((id, run) ∷ others) = str_eq run.vault_id vault_id || has_run vault_id others

unfoldable pub has_start : String → List (String × String) → Bool
has_start vault_id [] = false
has_start vault_id ((id, owner) ∷ others) = str_eq owner vault_id || has_start vault_id others

-- The loops that cancel runs.
unfoldable pub cancel_runs :
    (RunningTask → Bool) → List (String × RunningTask) → List (String × RunningTask)
cancel_runs hit [] = []
cancel_runs hit ((id, run) ∷ others) =
    let rest = cancel_runs hit others in
    (id, record run { cancelled = hit run || run.cancelled }) ∷ rest

module _ {D : Type 0} where
  -- `beginTaskStart`.
  unfoldable pub begin_task_start :
      Manager D → String → String → Manager D × Result TaskError (Unit {0})
  begin_task_start m task_id vault_id =
      if m.closed
      then (m, err TaskError.task_manager_closed)
      else if has_key vault_id m.quiescing_vaults
      then (m, err TaskError.vault_quiescing)
      else if str_eq task_id ""
      then (m, err TaskError.task_id_empty)
      else if has_key task_id m.pending_starts
      then (m, err (TaskError.start_in_progress task_id))
      else (
        record m {
          pending_starts = insert task_id vault_id m.pending_starts;
          start_wg = m.start_wg + 1;
        },
        ok tt,
      )

  -- `maybeResumeVaultLocked`.
  unfoldable pub maybe_resume_vault : Manager D → String → Manager D
  maybe_resume_vault m vault_id =
      if not (has_key vault_id m.resume_vaults) || m.closed
      then m
      else if has_run vault_id m.running || has_start vault_id m.pending_starts
      then m
      else record m {
        quiescing_vaults = remove vault_id m.quiescing_vaults;
        resume_vaults = remove vault_id m.resume_vaults;
      }

  -- `finishTaskStart`.
  unfoldable pub finish_task_start : Manager D → String → Manager D
  finish_task_start m task_id = elim (lookup task_id m.pending_starts) [
    | none ↦ m
    | some vault_id ↦
        maybe_resume_vault
          (record m { pending_starts = remove task_id m.pending_starts; start_wg = m.start_wg - 1 })
          vault_id
  ]

  -- `reserveExclusiveTask`.
  unfoldable pub reserve_exclusive_task :
      Manager D → String → String → String → Manager D × Result TaskError (Unit {0})
  reserve_exclusive_task m task_id vault_id task_type =
      let key = vault_id ++ (":" ++ task_type) in
      if m.closed
      then (m, err TaskError.task_manager_closed)
      else if has_key vault_id m.quiescing_vaults
      then (m, err TaskError.vault_quiescing)
      else elim (lookup key m.running_by_vault_type) [
        | some running_id ↦ (m, err (TaskError.already_running task_type running_id))
        | none ↦ (
          record m {
            running_by_vault_type = insert key task_id m.running_by_vault_type;
            task_run_keys = insert task_id key m.task_run_keys;
          },
          ok tt,
        )
      ]

  -- `releaseExclusiveTask`.
  unfoldable pub release_exclusive_task : Manager D → String → Manager D
  release_exclusive_task m task_id = elim (lookup task_id m.task_run_keys) [
    | none ↦ m
    | some key ↦ record m {
      running_by_vault_type = remove key m.running_by_vault_type;
      task_run_keys = remove task_id m.task_run_keys;
    }
  ]

  -- The vault of a run, or the empty string.
  unfoldable pub vault_of_run : Manager D → String → String
  vault_of_run m task_id = elim (lookup task_id m.running) [ none ↦ "" | some run ↦ run.vault_id ]

  -- `finishRun`.
  unfoldable pub finish_run : Manager D → String → Manager D
  finish_run m task_id =
      let vault_id = vault_of_run m task_id in
      let released =
        release_exclusive_task (record m { running = remove task_id m.running }) task_id in
      if str_eq vault_id "" then released else maybe_resume_vault released vault_id

  -- The end of a worker's goroutine, after its runner returned: `wg.Done`.
  unfoldable pub worker_exits : Manager D → Manager D
  worker_exits m = record m { wg = m.wg - 1 }

  -- `CancelTask`.
  unfoldable pub cancel_task : Manager D → String → Manager D × Bool
  cancel_task m task_id = elim (lookup task_id m.running) [
    | none ↦ (m, false)
    | some run ↦
        (record m { running = insert task_id (record run { cancelled = true }) m.running }, true)
  ]

  -- `QuiesceVault` up to its waiting.
  unfoldable pub quiesce_vault : Manager D → String → Manager D × Result TaskError (Unit {0})
  quiesce_vault m vault_id = if m.closed then (m, err TaskError.task_manager_closed) else (
    record m {
      quiescing_vaults = insert vault_id tt m.quiescing_vaults;
      running = cancel_runs (λ run. str_eq run.vault_id vault_id) m.running;
    },
    ok tt,
  )

  -- `ResumeVault`.
  unfoldable pub resume_vault : Manager D → String → Manager D
  resume_vault m vault_id =
      if has_run vault_id m.running || has_start vault_id m.pending_starts
      then record m { resume_vaults = insert vault_id tt m.resume_vaults }
      else record m {
        quiescing_vaults = remove vault_id m.quiescing_vaults;
        resume_vaults = remove vault_id m.resume_vaults;
      }

  -- `ForgetVault`.
  unfoldable pub forget_vault : Manager D → String → Manager D
  forget_vault m vault_id =
      if has_run vault_id m.running || has_start vault_id m.pending_starts then m else record m {
        quiescing_vaults = remove vault_id m.quiescing_vaults;
        resume_vaults = remove vault_id m.resume_vaults;
      }

  -- `Shutdown` up to its waiting.
  unfoldable pub shutdown : Manager D → Manager D
  shutdown m =
      if m.closed
      then m
      else record m { closed = true; running = cancel_runs (λ run. true) m.running }

  -- `Wait`, asked once: whether it returns at this point, given that its context is done or not.
  unfoldable pub wait : Manager D → Bool → Option (Result TaskError (Unit {0}))
  wait m context_is_done =
      if not m.closed
      then some (err TaskError.task_manager_not_closed)
      else if (m.start_wg == 0) && (m.wg == 0)
      then some (ok tt)
      else if context_is_done
      then some (err TaskError.context_done)
      else none

-- `admitBackgroundTask`: the manager, the worker's keys, which are wiped where no worker gets them,
-- and the error.
unfoldable pub admit_background_task :
    (database : Database)
    → Manager database.D
    → String
    → String
    → TaskRecord
    → VaultKeys
    → Manager database.D × VaultKeys × Result TaskError (Unit {0})
admit_background_task database m task_id vault_id t owned =
    if m.closed
    then (m, zero_keys owned, err TaskError.task_manager_closed)
    else if has_key vault_id m.quiescing_vaults
    then (m, zero_keys owned, err TaskError.vault_quiescing)
    else elim m.db [
      | none ↦ (m, zero_keys owned, err TaskError.database_unavailable)
      | some d ↦
          let (d', created) = database.create_task d t in
          if created
          then (
            record m {
              db = some d';
              running =
                  insert task_id (record { vault_id = vault_id; cancelled = false }) m.running;
              wg = m.wg + 1;
            },
            owned,
            ok tt,
          )
          else (record m { db = some d' }, zero_keys owned, err TaskError.create_failed)
    ]
