-- ===== src/Thumb/Worker.antt =====
-- The worker of the thumbnail generator: `beginJob`, `endJob`, `discardJob`, `finishJob`, and the rounds
-- of its loop.
use cryp.Prelude.{
  ℕ, ◌+◌, ◌*◌, ◌-◌, ◌%◌, ◌^◌, ◌==◌, ltb, Bool, false, ◌&&◌, ◌||◌, not, Option, none, some, List, [],
  ◌∷◌, if◌then◌else◌,
}
use cryp.GoMap.{lookup, insert, remove}
use cryp.Task.{has_key}
use cryp.Thumb.{
  ThumbJob, VaultLifecycle, Generator, count_of, thumb_job_key, waiting, discarding, generating,
  ending, lifecycle_of, set_lifecycle, is_idle, maybe_retire, release_generation,
}

-- How the generation of a picture ends.
pub data Outcome : Type 0 where
  generated stale skipped failed_to_generate : Outcome

-- The count of queued jobs after one was taken.
unfoldable pub taken_pending : ThumbJob → VaultLifecycle → ℕ
taken_pending job state =
    if not (job.queue_id == 0) && ltb 0 state.pending then state.pending - 1 else state.pending

-- `delete(state.active, job.runID)`.
unfoldable pub remove_run : ℕ → List (ℕ × Bool) → List (ℕ × Bool)
remove_run id [] = []
remove_run id ((j, cancelled) ∷ runs) =
    let rest = remove_run id runs in if j == id then rest else (j, cancelled) ∷ rest

-- `beginJob`: the job with its run, if it may run.
unfoldable pub begin_job : Generator → ThumbJob → Generator × Option ThumbJob
begin_job g job =
    let state = lifecycle_of g job.vault_id in
    let taken : VaultLifecycle = record state { pending = taken_pending job state } in
    if g.stopped || state.quiescing || state.retiring
    then (maybe_retire (set_lifecycle g job.vault_id taken) job.vault_id, none)
    else let run_id = (state.next_id + 1) % 2 ^ 64 in
      (
        set_lifecycle g job.vault_id (record taken {
          next_id = run_id;
          active = (run_id, false) ∷ remove_run run_id state.active;
        }),
        some (record job { run_id = run_id }),
      )

-- The part of `endJob` that takes the run out and gives the vault back if that was deferred.
unfoldable pub leave_run : Generator → ThumbJob → VaultLifecycle → Generator
leave_run g job state =
    let ended : VaultLifecycle = record state { active = remove_run job.run_id state.active } in
    if is_idle ended && has_key job.vault_id g.resume_pending && not state.retiring
    then record (set_lifecycle g job.vault_id (record ended { quiescing = false })) {
      resume_pending = remove job.vault_id g.resume_pending;
    }
    else set_lifecycle g job.vault_id ended

-- `endJob`.
unfoldable pub end_job : Generator → ThumbJob → Generator
end_job g job = if job.run_id == 0 then g else elim (lookup job.vault_id g.vaults) [
  | none ↦ g
  | some state ↦ maybe_retire (leave_run g job state) job.vault_id
]

-- `discardJob`.
unfoldable pub discard_job : Generator → ThumbJob → Generator
discard_job g job =
    let key = thumb_job_key job.vault_id job.file_path in
    let cleared =
      if count_of key g.generations == job.generation
      then record g { queued = remove key g.queued }
      else g in
    maybe_retire (release_generation cleared key) job.vault_id

abbrev pub fail_cooldown : ℕ
fail_cooldown = 5 * 60 * 1_000_000_000

-- `finishJob`.
unfoldable pub finish_job : Generator → ThumbJob → Outcome → ℕ → Generator
finish_job g job outcome now =
    let key = thumb_job_key job.vault_id job.file_path in
    let is_current = count_of key g.generations == job.generation in
    let unmarked = if is_current then record g { queued = remove key g.queued } else g in
    let cooling = record unmarked { failed = insert key (now + fail_cooldown) g.failed } in
    let cleared = record unmarked { failed = remove key g.failed } in
    release_generation
      (if is_current
        then (elim outcome [
          | generated ↦ cleared
          | stale ↦ cleared
          | skipped ↦ cooling
          | failed_to_generate ↦ cooling
        ])
        else unmarked)
      key

-- What the worker turns to after `beginJob`.
unfoldable pub turn_to : ThumbJob → Generator × Option ThumbJob → Generator
turn_to job (g, none) = record g { worker = discarding job }
turn_to job (g, some running) = record g { worker = generating running }

-- The worker receives a job and begins it.
unfoldable pub receive_job : Generator → Generator
receive_job g = elim g.worker [
  | discarding job ↦ g
  | generating job ↦ g
  | ending job ↦ g
  | waiting ↦ elim g.jobs [
    | [] ↦ g
    | job ∷ others ↦ turn_to job (begin_job (record g { jobs = others }) job)
  ]
]

-- What the worker does with the job that it holds; a generation has ended with `outcome`.
unfoldable pub work : Generator → Outcome → ℕ → Generator
work g outcome now = elim g.worker [
  | waiting ↦ g
  | discarding job ↦ record (discard_job g job) { worker = waiting }
  | generating job ↦ record (finish_job g job outcome now) { worker = ending job }
  | ending job ↦ record (end_job g job) { worker = waiting }
]
