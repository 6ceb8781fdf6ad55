-- ===== src/Task/Owed.antt =====
-- The deferred resumptions of vaults of internal/task/manager.go, over all sequences of calls.
use Prim.Native.String.{String}
use cryp.Prelude.{
  by_if, Result, ◌≡◌, refl, sym, subst, true, false, ◌||◌, ◌&&◌, not, Bool-cases, Option-cases, inl,
  inr, List, [], ◌∷◌, arith,
}
use cryp.GoMap.{str_eq, str_eq_iff, lookup, remove, IsMap, IsMap-insert, IsMap-remove}
use cryp.Task.{
  TaskError, Database, RunningTask, Manager, has_key, has_run, has_start, reserve_exclusive_task,
  release_exclusive_task, finish_run, vault_of_run, worker_exits, cancel_task, quiesce_vault,
  resume_vault, forget_vault, shutdown,
}
use cryp.Task.Calls.{
  Call, begins, finishes_start, reserves, releases, admits, finishes_run, exits, cancels, quiesces,
  resumes, forgets, shuts_down, step, run_calls,
}
use cryp.Task.Resume.{finish_run_lem}
use cryp.Task.Vaults.{has_key-insert, has_key-remove, has_run-cancel_runs}
use cryp.Task.Entries.{has_run-same, has_run-absent, has_run-other, IsMap-cancel_runs}
use cryp.Task.Owes.{
  owes, IsOwed, IsNewTask, AllNewTasks, moved, maybe_resume_vault-IsOwed, begin_task_start-IsOwed,
  finish_task_start-IsOwed, admit_background_task-IsOwed, release_exclusive_task-IsOwed,
}

module _ (database : Database) where
  abbrev State : Type 0
  State = Manager database.D

  module _ (v : String) where
    finish_run-IsOwed :
        (m : State) (id : String)
        → str_eq v "" ≡ false
        → IsOwed database v m
        → IsOwed database v (finish_run m id)
    unfolding finish_run vault_of_run release_exclusive_task
    finish_run-IsOwed m id named h =
        let gone : State = record m { running = remove id m.running } in
        let after = release_exclusive_task gone id in
        let fewer = IsMap-remove id m.running h.tasks in
        let same_tasks : after.running ≡ remove id m.running = ground arith in
        let same_starts : after.pending_starts ≡ m.pending_starts = ground arith in
        let w = vault_of_run m id in
        let still : str_eq w v || owes database v after ≡ true =
          elim (Option-cases (lookup id m.running)) [
            | inl absent ↦ ground (arith, h.owed, has_run-absent v id m.running absent)
            | inr (run, found) ↦ elim (Bool-cases (str_eq run.vault_id v)) [
              | inl same ↦ ground (arith, found, same)
              | inr other ↦
                  ground (arith, h.owed, has_run-other v id run m.running h.tasks found other)
            ]
          ] in
        let tasks = subst (λ (x : List (String × RunningTask)). IsMap x) (sym same_tasks) fewer in
        let starts = subst (λ (x : List (String × String)). IsMap x) (sym same_starts) h.starts in
        elim (Bool-cases (str_eq w "")) [
          | inl unnamed ↦
              let empty : w ≡ "" = (str_eq_iff w "").0 unnamed in
              let other : str_eq w v ≡ false =
                ground (arith, named, empty, str_eq_iff w v, str_eq_iff v "") in
              rw (unnamed, finish_run)
                (record { tasks = tasks; starts = starts; owed = ground (arith, still, other) })
          | inr full ↦
              rw (full, finish_run)
                (maybe_resume_vault-IsOwed database v after w tasks starts still)
        ]

    cancel_task-IsOwed :
        (m : State) (id : String) → IsOwed database v m → IsOwed database v (cancel_task m id).0
    unfolding cancel_task
    cancel_task-IsOwed m id h = elim (Option-cases (lookup id m.running)) [
      | inl absent ↦ rw (absent, cancel_task) h
      | inr (run, found) ↦
          let next : RunningTask = record run { cancelled = true } in
          rw (found, cancel_task)
            (record {
              tasks = IsMap-insert id next m.running h.tasks;
              starts = h.starts;
              owed = ground (arith, h.owed, has_run-same v id run next m.running found refl);
            })
    ]

    quiesce_vault-IsOwed :
        (m : State) (w : String) → IsOwed database v m → IsOwed database v (quiesce_vault m w).0
    unfolding quiesce_vault
    quiesce_vault-IsOwed m w h =
        let hit = λ (run : RunningTask). str_eq run.vault_id w in
        by_if Q m.closed h (record {
          tasks = IsMap-cancel_runs hit m.running h.tasks;
          starts = h.starts;
          owed = ground (arith, h.owed, has_run-cancel_runs v hit m.running);
        })
      where
        Q : State × Result TaskError (Unit {0}) → Type 0
        Q r = IsOwed database v r.0

    shutdown-IsOwed : (m : State) → IsOwed database v m → IsOwed database v (shutdown m)
    unfolding shutdown
    shutdown-IsOwed m h = by_if (IsOwed database v) m.closed h (record {
      tasks = IsMap-cancel_runs (λ run. true) m.running h.tasks;
      starts = h.starts;
      owed = ground arith;
    })

    resume_vault-IsOwed :
        (m : State) (w : String) → IsOwed database v m → IsOwed database v (resume_vault m w)
    unfolding resume_vault
    resume_vault-IsOwed m w h =
        moved database v m _ h (ground arith) (ground arith) (elim (Bool-cases (str_eq w v)) [
          | inl same ↦
              let key : w ≡ v = (str_eq_iff w v).0 same in
              ground (
                arith,
                h.owed,
                key,
                same,
                has_key-remove v w m.resume_vaults,
                has_key-insert v w tt m.resume_vaults,
              )
          | inr other ↦ ground (
            arith,
            h.owed,
            other,
            has_key-remove v w m.resume_vaults,
            has_key-insert v w tt m.resume_vaults,
          )
        ])

    forget_vault-IsOwed :
        (m : State) (w : String) → IsOwed database v m → IsOwed database v (forget_vault m w)
    unfolding forget_vault
    forget_vault-IsOwed m w h =
        moved database v m _ h (ground arith) (ground arith)
          (ground (arith, h.owed, has_key-remove v w m.resume_vaults))

    step-IsOwed :
        (m : State) (c : Call)
        → str_eq v "" ≡ false
        → IsNewTask database m c
        → IsOwed database v m
        → IsOwed database v (step database m c)
    unfolding step worker_exits reserve_exclusive_task
    step-IsOwed m (begins id w) named new h = begin_task_start-IsOwed database v m id w h
    step-IsOwed m (finishes_start id) named new h = finish_task_start-IsOwed database v m id h
    step-IsOwed m (reserves id w kind) named new h =
        moved database v m _ h (ground arith) (ground arith) (ground (arith, h.owed))
    step-IsOwed m (releases id) named new h = release_exclusive_task-IsOwed database v m id h
    step-IsOwed m (admits id w t keys) named new h =
        admit_background_task-IsOwed database v m id w t keys new h
    step-IsOwed m (finishes_run id) named new h = finish_run-IsOwed m id named h
    step-IsOwed m exits named new h = record { tasks = h.tasks; starts = h.starts; owed = h.owed }
    step-IsOwed m (cancels id) named new h = cancel_task-IsOwed m id h
    step-IsOwed m (quiesces w) named new h = quiesce_vault-IsOwed m w h
    step-IsOwed m (resumes w) named new h = resume_vault-IsOwed m w h
    step-IsOwed m (forgets w) named new h = forget_vault-IsOwed m w h
    step-IsOwed m shuts_down named new h = shutdown-IsOwed m h

    run_calls-IsOwed :
        (m : State) (cs : List Call)
        → str_eq v "" ≡ false
        → AllNewTasks database m cs
        → IsOwed database v m
        → IsOwed database v (run_calls database m cs)
    unfolding run_calls
    run_calls-IsOwed m [] named new h = h
    run_calls-IsOwed m (c ∷ cs) named new h =
        run_calls-IsOwed (step database m c) cs named new.1 (step-IsOwed m c named new.0 h)

  -- From a manager without tasks, starters and vaults to be resumed, after any sequence of
  -- calls in which no task is admitted under the id of a running one, for a vault with a
  -- non-empty id whose resumption is pending: it still has a running task or a starter, or the
  -- manager is shut down. After finishRun for any task, the vault counts as being removed
  -- exactly if it did before and the task is not one of that vault, or the manager is shut
  -- down, or another task or a starter of the vault is left.
  pub resumption_owed :
      (m : State) (cs : List Call) (v id : String)
      → m.running ≡ []
      → m.pending_starts ≡ []
      → m.resume_vaults ≡ []
      → str_eq v "" ≡ false
      → AllNewTasks database m cs
      → has_key v (run_calls database m cs).resume_vaults ≡ true
      → ((run_calls database m cs).closed
            || has_run v (run_calls database m cs).running
            || has_start v (run_calls database m cs).pending_starts
          ≡ true)
        × (has_key v (finish_run (run_calls database m cs) id).quiescing_vaults ≡ (
            has_key v (run_calls database m cs).quiescing_vaults
            && (not (str_eq (vault_of_run (run_calls database m cs) id) v)
                || (run_calls database m cs).closed
                || has_run v (remove id (run_calls database m cs).running)
                || has_start v (run_calls database m cs).pending_starts)))
  unfolding has_key lookup
  resumption_owed m cs v id e1 e2 e3 named new waits =
      let start : IsOwed database v m = record {
        tasks = subst (λ (x : List (String × RunningTask)). IsMap x) (sym e1) tt;
        starts = subst (λ (x : List (String × String)). IsMap x) (sym e2) tt;
        owed = ground (arith, e3);
      } in
      (
        ground (arith, waits, (run_calls-IsOwed v m cs named new start).owed),
        ground (arith, waits, named, (finish_run_lem database (run_calls database m cs) id v).2),
      )
