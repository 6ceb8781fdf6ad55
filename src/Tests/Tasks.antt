-- ===== src/Tests/Tasks.antt =====
-- The task manager on concrete data.
use cryp.Prelude.{◌+◌, ok, err, ◌≡◌, refl, true, false, not, ◌||◌, ◌&&◌, some, none, List, [], ◌∷◌}
use cryp.GoMap.{str_eq, lookup, insert, remove}
use cryp.Crypto.Keys.{VaultKeys, zero_keys}
use cryp.Task.{
  vault_of_run, begin_task_start, finish_task_start, quiesce_vault, resume_vault,
  maybe_resume_vault, cancel_runs, TaskError, admit_background_task, TaskRecord, Database, Manager,
  RunningTask, has_key, has_run, has_start, finish_run, reserve_exclusive_task,
}
use cryp.Task.Admission.{admit_fails, admit_succeeds}
use cryp.Task.Calls.{
  Call, begins, finishes_start, quiesces, reserves, admits, finishes_run, resumes, run_calls, step,
}
use cryp.Task.Barrier.{IsDrained, run_calls-IsDrained}
use cryp.Task.Exclusive.{slot_exclusive}
use cryp.Task.Owes.{AllNewTasks}
use cryp.Task.Owed.{resumption_owed}

-- A table that counts the tasks created.
abbrev table : Database
table = record {
  D = List TaskRecord;
  create_task = λ d t. (t ∷ d, true);
  get_task = λ d id. none;
  update_task = λ d t. (d, true);
  list_running_tasks = λ d. some [];
}

abbrev keys : VaultKeys
keys = record { master_key = []; mac_key = [] }

abbrev task : TaskRecord
task = record {
  id = "t";
  vault_id = "v";
  kind = "index";
  status = "running";
  total_files = 0;
  processed_files = 0;
  total_bytes = 0;
  processed_bytes = 0;
  current_file = "";
  error_msg = "";
  source_path = "";
  dest_path = "";
  delete_source = false;
  started_at = 0;
}

-- Vault "v" is being removed, and vault "w" has a task.
abbrev removing : Manager (List TaskRecord)
removing = record {
  db = some [];
  running = ("u", record { vault_id = "w"; cancelled = false }) ∷ [];
  running_by_vault_type = [];
  task_run_keys = [];
  quiescing_vaults = ("v", tt) ∷ [];
  pending_starts = ("t", "v") ∷ [];
  resume_vaults = [];
  start_wg = 1;
  wg = 1;
  closed = false;
}

removing-IsDrained : IsDrained table "v" removing
unfolding has_key has_run lookup
removing-IsDrained = record { quiescing = refl; not_resumed = refl; idle = refl }

-- A starter of "v" that was under way tries to go on, the task of "w" ends, and "w" is resumed.
run_calls-IsDrained_example : IsDrained table "v" (
    run_calls table removing
      (reserves "t" "v" "index" ∷ admits "t" "v" task keys ∷ finishes_run "u" ∷ resumes "w" ∷ []))
run_calls-IsDrained_example =
    run_calls-IsDrained table "v" removing
      (reserves "t" "v" "index" ∷ admits "t" "v" task keys ∷ finishes_run "u" ∷ resumes "w" ∷ [])
      (tt, (tt, (tt, (refl, tt)))) removing-IsDrained

abbrev two_reservations : List Call
two_reservations = reserves "t" "w" "index" ∷ reserves "s" "w" "index" ∷ []

holds : lookup "t" (run_calls table removing two_reservations).task_run_keys ≡ some "w:index"
unfolding run_calls step reserve_exclusive_task has_key lookup insert
holds = refl

slot_exclusive_example :
    (task.id ≡ task.id)
    × (lookup "w:index" (run_calls table removing two_reservations).running_by_vault_type
        ≡ some "t")
slot_exclusive_example =
    slot_exclusive table removing two_reservations "t" "t" "w:index" refl holds holds

abbrev run : RunningTask
run = record { vault_id = "w"; cancelled = false }

-- A manager that just began. The removal of "v" is given up while a task of it runs.
abbrev idle : Manager (List TaskRecord)
idle = record {
  db = some [];
  running = [];
  running_by_vault_type = [];
  task_run_keys = [];
  quiescing_vaults = [];
  pending_starts = [];
  resume_vaults = [];
  start_wg = 0;
  wg = 0;
  closed = false;
}

abbrev given_up : List Call
given_up =
    begins "t" "v" ∷ admits "t" "v" task keys ∷ finishes_start "t" ∷ quiesces "v" ∷ resumes "v" ∷ []

all_new : AllNewTasks table idle given_up
unfolding step begin_task_start has_key lookup insert
all_new = (tt, (refl, (tt, (tt, (tt, tt)))))

waits : has_key "v" (run_calls table idle given_up).resume_vaults ≡ true
unfolding run_calls step begin_task_start admit_background_task finish_task_start quiesce_vault
    resume_vault maybe_resume_vault has_run has_start cancel_runs has_key lookup insert remove
waits = refl

resumption_owed_example :
    ((run_calls table idle given_up).closed
        || has_run "v" (run_calls table idle given_up).running
        || has_start "v" (run_calls table idle given_up).pending_starts
      ≡ true)
    × (has_key "v" (finish_run (run_calls table idle given_up) "t").quiescing_vaults ≡ (
        has_key "v" (run_calls table idle given_up).quiescing_vaults
        && (not (str_eq (vault_of_run (run_calls table idle given_up) "t") "v")
            || (run_calls table idle given_up).closed
            || has_run "v" (remove "t" (run_calls table idle given_up).running)
            || has_start "v" (run_calls table idle given_up).pending_starts)))
resumption_owed_example =
    resumption_owed table idle given_up "v" "t" refl refl refl refl all_new waits

-- The manager with the task of "w" admitted as well.
abbrev admitted : Manager (List TaskRecord)
unfolding insert
admitted = record removing {
  db = some (task ∷ []);
  running = insert "t" run removing.running;
  wg = 2;
}

admits_w : admit_background_task table removing "t" "w" task keys ≡ (admitted, keys, ok tt)
unfolding admit_background_task has_key lookup admitted insert
admits_w = refl

refuses_v :
    admit_background_task table removing "t" "v" task keys
    ≡ (removing, zero_keys keys, err TaskError.vault_quiescing)
unfolding admit_background_task has_key lookup
refuses_v = refl

admit_succeeds_example :
    (removing.closed ≡ false)
    × (has_key "w" removing.quiescing_vaults ≡ false)
    × (keys ≡ keys)
    × (admitted.wg ≡ removing.wg + 1)
    × (lookup "t" admitted.running ≡ some run)
admit_succeeds_example = admit_succeeds table removing admitted "t" "w" task keys keys admits_w

admit_fails_example :
    (zero_keys keys ≡ zero_keys keys)
    × (removing.running ≡ removing.running)
    × (removing.running_by_vault_type ≡ removing.running_by_vault_type)
    × (removing.wg ≡ removing.wg)
admit_fails_example =
    admit_fails table removing removing "t" "v" task keys (zero_keys keys) TaskError.vault_quiescing
      refuses_v
