-- ===== src/Task/Calls.antt =====
-- The critical sections of the task manager, in any order.
use Prim.Native.String.{String}
use cryp.Prelude.{List, [], ◌∷◌}
use cryp.Crypto.Keys.{VaultKeys}
use cryp.Task.{
  TaskRecord, Database, Manager, begin_task_start, finish_task_start, reserve_exclusive_task,
  release_exclusive_task, finish_run, worker_exits, cancel_task, quiesce_vault, resume_vault,
  forget_vault, shutdown, admit_background_task,
}

-- The critical sections that starters, workers and the API run in any order.
pub data Call : Type 0 where
  begins : String → String → Call
  finishes_start : String → Call
  reserves : String → String → String → Call
  releases : String → Call
  admits : String → String → TaskRecord → VaultKeys → Call
  finishes_run : String → Call
  exits : Call
  cancels : String → Call
  quiesces : String → Call
  resumes : String → Call
  forgets : String → Call
  shuts_down : Call

module _ (database : Database) where
  abbrev State : Type 0
  State = Manager database.D

  unfoldable pub step : State → Call → State
  step m (begins id v) = (begin_task_start m id v).0
  step m (finishes_start id) = finish_task_start m id
  step m (reserves id v kind) = (reserve_exclusive_task m id v kind).0
  step m (releases id) = release_exclusive_task m id
  step m (admits id v t keys) = (admit_background_task database m id v t keys).0
  step m (finishes_run id) = finish_run m id
  step m exits = worker_exits m
  step m (cancels id) = (cancel_task m id).0
  step m (quiesces v) = (quiesce_vault m v).0
  step m (resumes v) = resume_vault m v
  step m (forgets v) = forget_vault m v
  step m shuts_down = shutdown m

  unfoldable pub run_calls : State → List Call → State
  run_calls m [] = m
  run_calls m (c ∷ cs) = run_calls (step m c) cs
