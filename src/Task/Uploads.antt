-- ===== src/Task/Uploads.antt =====
-- Upload tasks of internal/task/manager.go, which HTTP requests drive, and the recovery of tasks that
-- a stop of the server cut off.
use Prim.Native.String.{String}
use cryp.Prelude.{ℕ, false, Option, none, some, List, [], ◌∷◌, if◌then◌else◌, Result, ok, err}
use cryp.Int64.{is_negative, le_signed64}
use cryp.GoMap.{str_eq}
use cryp.Task.{TaskError, TaskRecord, Database, Manager, has_key}

module _ (database : Database) where
  abbrev State : Type 0
  State = Manager database.D

  -- `CreateUploadTask`.
  unfoldable pub create_upload_task :
      State → String → String → ℕ → ℕ → ℕ → State × Result TaskError (Unit {0})
  create_upload_task m task_id vault_id total_files total_bytes now =
      if str_eq task_id ""
      then (m, err TaskError.task_id_empty)
      else if str_eq vault_id ""
      then (m, err TaskError.vault_id_empty)
      else if is_negative total_files
      then (m, err TaskError.total_files_negative)
      else if is_negative total_bytes
      then (m, err TaskError.total_bytes_negative)
      else if m.closed
      then (m, err TaskError.task_manager_closed)
      else if has_key vault_id m.quiescing_vaults
      then (m, err TaskError.vault_quiescing)
      else elim m.db [
        | none ↦ (m, err TaskError.database_unavailable)
        | some d ↦
            let (d', created) = database.create_task d (record {
              id = task_id;
              vault_id = vault_id;
              kind = "upload";
              status = "running";
              total_files = total_files;
              processed_files = 0;
              total_bytes = total_bytes;
              processed_bytes = 0;
              current_file = "";
              error_msg = "";
              source_path = "";
              dest_path = "";
              delete_source = false;
              started_at = now;
            }) in
            (record m { db = some d' }, (if created then ok tt else err TaskError.create_failed))
      ]

  -- `updateTask`; an error of the database is only logged.
  unfoldable pub update_task : State → TaskRecord → State
  update_task m t = elim m.db [
    | none ↦ m
    | some d ↦ record m { db = some (database.update_task d t).0 }
  ]

  -- `updateUploadTask`.
  unfoldable pub update_upload_task : State → String → (TaskRecord → TaskRecord) → State
  update_upload_task m task_id update = elim m.db [
    | none ↦ m
    | some d ↦
        if str_eq task_id ""
        then m
        else if m.closed
        then m
        else elim (database.get_task d task_id) [
          | none ↦ m
          | some t ↦ if has_key t.vault_id m.quiescing_vaults then m else update_task m (update t)
        ]
  ]

  -- `UpdateUploadProgress`.
  unfoldable pub update_upload_progress : State → String → ℕ → ℕ → String → State
  update_upload_progress m task_id processed_files processed_bytes current_file =
      update_upload_task m task_id λ t. record t {
        processed_files = processed_files;
        processed_bytes = processed_bytes;
        current_file = current_file;
        status = if le_signed64 t.total_files processed_files then "done" else t.status;
      }

  -- `CompleteUploadTask`.
  unfoldable pub complete_upload_task : State → String → State
  complete_upload_task m task_id = update_upload_task m task_id λ t. record t {
    status = "done";
    processed_files = t.total_files;
    processed_bytes = t.total_bytes;
  }

  -- `FailUploadTask`.
  unfoldable pub fail_upload_task : State → String → String → State
  fail_upload_task m task_id message =
      update_upload_task m task_id λ t. record t { status = "error"; error_msg = message }

  -- The loop of `recoverTasks`.
  unfoldable pub interrupt_tasks : State → List TaskRecord → State
  interrupt_tasks m [] = m
  interrupt_tasks m (t ∷ ts) =
      interrupt_tasks
        (update_task m
          (record t { status = "error"; error_msg = "server restarted, task interrupted" }))
        ts

  -- `NewManager` with `recoverTasks`.
  unfoldable pub new_manager : Option database.D → State
  new_manager db =
      let m : State = record {
        db = db;
        running = [];
        running_by_vault_type = [];
        task_run_keys = [];
        quiescing_vaults = [];
        pending_starts = [];
        resume_vaults = [];
        start_wg = 0;
        wg = 0;
        closed = false;
      } in
      elim db [
        | none ↦ m
        | some d ↦ elim (database.list_running_tasks d) [
          | none ↦ m
          | some tasks ↦ interrupt_tasks m tasks
        ]
      ]
