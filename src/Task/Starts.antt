-- ===== src/Task/Starts.antt =====
-- `StartImport` and `StartRebuildIndex` of internal/task/manager.go as chains of the manager's calls,
-- and how `runImport` ends. The deferred calls stand on every path out.
use Prim.Native.String.{String}
use cryp.Prelude.{ℕ, Bool, false, Option, none, some, if◌then◌else◌, Result, ok, err}
use cryp.Crypto.Keys.{VaultKeys}
use cryp.Task.{
  TaskError, TaskRecord, Database, Manager, begin_task_start, finish_task_start,
  reserve_exclusive_task, release_exclusive_task, admit_background_task,
}

-- What a starter does between its calls of the manager: the guard of the import source gives the
-- validated path, the destination is normalized, and the files and their bytes are counted.
pub record ImportPlan : Type 0 where
  pub guarded : Bool
  pub validated_path : Option String
  pub normalized_dest : String
  pub counted : Option (ℕ × ℕ)
  pub now : ℕ

module _ (database : Database) where
  abbrev State : Type 0
  State = Manager database.D

  -- From the reservation of the slot on: the slot is released unless the task is admitted.
  unfoldable pub reserve_and_admit :
      State
      → String
      → String
      → String
      → Option TaskRecord
      → TaskError
      → VaultKeys
      → State × Result TaskError (Unit {0})
  reserve_and_admit m task_id vault_id task_type record' failed keys =
      let (reserved, slot) = reserve_exclusive_task m task_id vault_id task_type in
      elim slot [
        | err e ↦ (reserved, err e)
        | ok _ ↦ elim record' [
          | none ↦ (release_exclusive_task reserved task_id, err failed)
          | some t ↦
              let (admitted, owned, started) =
                admit_background_task database reserved task_id vault_id t keys in
              elim started [
                | err e ↦ (release_exclusive_task admitted task_id, err e)
                | ok _ ↦ (admitted, ok tt)
              ]
        ]
      ]

  -- The record of an import; `none` where counting the files failed.
  unfoldable pub import_record : String → String → String → Bool → ImportPlan → Option TaskRecord
  import_record task_id vault_id source_path delete_source plan = elim plan.counted [
    | none ↦ none
    | some (total_files, total_bytes) ↦ some (record {
      id = task_id;
      vault_id = vault_id;
      kind = "import";
      status = "running";
      total_files = total_files;
      processed_files = 0;
      total_bytes = total_bytes;
      processed_bytes = 0;
      current_file = "";
      error_msg = "";
      source_path = source_path;
      dest_path = plan.normalized_dest;
      delete_source = delete_source;
      started_at = plan.now;
    })
  ]

  -- `StartImport` between `beginTaskStart` and `finishTaskStart`.
  unfoldable pub start_import_body :
      State → String → String → VaultKeys → Bool → ImportPlan → State × Result TaskError (Unit {0})
  start_import_body m task_id vault_id keys delete_source plan =
      if plan.guarded
      then elim plan.validated_path [
        | none ↦ (m, err TaskError.invalid_source)
        | some source_path ↦
            reserve_and_admit m task_id vault_id "import"
              (import_record task_id vault_id source_path delete_source plan) TaskError.count_failed
              keys
      ]
      else (m, err TaskError.guard_missing)

  -- `StartImport`.
  unfoldable pub start_import :
      State
      → String
      → String
      → Option VaultKeys
      → Bool
      → ImportPlan
      → State × Result TaskError (Unit {0})
  start_import m task_id vault_id none delete_source plan = (m, err TaskError.missing_keys)
  start_import m task_id vault_id (some keys) delete_source plan =
      let (begun, start) = begin_task_start m task_id vault_id in
      elim start [
        | err e ↦ (begun, err e)
        | ok _ ↦
            let (done, result) = start_import_body begun task_id vault_id keys delete_source plan in
            (finish_task_start done task_id, result)
      ]

  unfoldable pub index_record : String → String → ℕ → TaskRecord
  index_record task_id vault_id now = record {
    id = task_id;
    vault_id = vault_id;
    kind = "index";
    status = "running";
    total_files = 0;
    processed_files = 0;
    total_bytes = 0;
    processed_bytes = 0;
    current_file = "";
    error_msg = "";
    source_path = "";
    dest_path = "";
    delete_source = false;
    started_at = now;
  }

  -- `StartRebuildIndex`.
  unfoldable pub start_rebuild_index :
      State → String → String → Option VaultKeys → ℕ → State × Result TaskError (Unit {0})
  start_rebuild_index m task_id vault_id none now = (m, err TaskError.missing_keys)
  start_rebuild_index m task_id vault_id (some keys) now =
      let (begun, start) = begin_task_start m task_id vault_id in
      elim start [
        | err e ↦ (begun, err e)
        | ok _ ↦
            let (done, result) =
              reserve_and_admit begun task_id vault_id "index"
                (some (index_record task_id vault_id now)) TaskError.missing_keys keys in
            (finish_task_start done task_id, result)
      ]
