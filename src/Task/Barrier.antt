-- ===== src/Task/Barrier.antt =====
-- The deletion barrier of the task manager: arbitrary interleavings of its calls.
use Prim.Native.String.{String}
use cryp.Prelude.{◌≡◌, true, false, Bool-cases, Option-cases, inl, inr, List, [], ◌∷◌, arith}
use cryp.GoMap.{str_eq, str_eq_iff, lookup, remove}
use cryp.Crypto.Keys.{VaultKeys}
use cryp.Task.{
  TaskRecord, Database, RunningTask, Manager, has_key, has_run, begin_task_start,
  maybe_resume_vault, finish_task_start, reserve_exclusive_task, release_exclusive_task, finish_run,
  vault_of_run, worker_exits, cancel_task, quiesce_vault, resume_vault, forget_vault, shutdown,
  admit_background_task,
}
use cryp.Task.Calls.{
  Call, begins, finishes_start, reserves, releases, admits, finishes_run, exits, cancels, quiesces,
  resumes, forgets, shuts_down, step, run_calls,
}
use cryp.Task.Vaults.{
  has_key-insert, has_key-remove, has_run-insert, has_run-remove, has_run-cancel_runs,
  has_run-lookup,
}

-- Every call but those that give the vault back.
abbrev pub Avoids : String → Call → Type 0
Avoids v (resumes w) = str_eq w v ≡ false
Avoids v (forgets w) = str_eq w v ≡ false
Avoids v _ = Unit {0}

abbrev pub AllAvoid : String → List Call → Type 0
AllAvoid v [] = Unit {0}
AllAvoid v (c ∷ cs) = Avoids v c × AllAvoid v cs

module _ (database : Database) where
  abbrev State : Type 0
  State = Manager database.D

  -- The vault is marked as being removed, nobody asked to give it back, and no task of it runs.
  pub record IsDrained (v : String) (m : State) : Type 0 where
    pub quiescing : has_key v m.quiescing_vaults ≡ true
    pub not_resumed : has_key v m.resume_vaults ≡ false
    pub idle : has_run v m.running ≡ false

  module _ (v : String) where
    begin_task_start-IsDrained :
        (m : State) (id w : String) → IsDrained v m → IsDrained v (begin_task_start m id w).0
    unfolding begin_task_start
    begin_task_start-IsDrained m id w h = record {
      quiescing = ground (arith, h.quiescing);
      not_resumed = ground (arith, h.not_resumed);
      idle = ground (arith, h.idle);
    }

    maybe_resume_vault-IsDrained :
        (m : State) (w : String) → IsDrained v m → IsDrained v (maybe_resume_vault m w)
    unfolding maybe_resume_vault
    maybe_resume_vault-IsDrained m w h = record {
      quiescing = ground (
        arith,
        has_key-remove v w m.quiescing_vaults,
        str_eq_iff w v,
        h.not_resumed,
        h.quiescing,
      );
      not_resumed = ground (arith, has_key-remove v w m.resume_vaults, h.not_resumed);
      idle = ground (arith, h.idle);
    }

    finish_task_start-IsDrained :
        (m : State) (id : String) → IsDrained v m → IsDrained v (finish_task_start m id)
    unfolding finish_task_start
    finish_task_start-IsDrained m id h = elim (Option-cases (lookup id m.pending_starts)) [
      | inl none_there ↦ rw (none_there, finish_task_start) h
      | inr (w, found) ↦
          rw (found, finish_task_start)
            (maybe_resume_vault-IsDrained _ w
              (record { quiescing = h.quiescing; not_resumed = h.not_resumed; idle = h.idle }))
    ]

    reserve_exclusive_task-IsDrained :
        (m : State) (id w kind : String)
        → IsDrained v m
        → IsDrained v (reserve_exclusive_task m id w kind).0
    unfolding reserve_exclusive_task
    reserve_exclusive_task-IsDrained m id w kind h = record {
      quiescing = ground (arith, h.quiescing);
      not_resumed = ground (arith, h.not_resumed);
      idle = ground (arith, h.idle);
    }

    release_exclusive_task-IsDrained :
        (m : State) (id : String) → IsDrained v m → IsDrained v (release_exclusive_task m id)
    unfolding release_exclusive_task
    release_exclusive_task-IsDrained m id h = record {
      quiescing = ground (arith, h.quiescing);
      not_resumed = ground (arith, h.not_resumed);
      idle = ground (arith, h.idle);
    }

    admit_background_task-IsDrained :
        (m : State) (id w : String) (t : TaskRecord) (keys : VaultKeys)
        → IsDrained v m
        → IsDrained v (admit_background_task database m id w t keys).0
    unfolding admit_background_task
    admit_background_task-IsDrained m id w t keys h =
        let r : RunningTask = record { vault_id = w; cancelled = false } in
        record {
          quiescing = ground (arith, h.quiescing);
          not_resumed = ground (arith, h.not_resumed);
          idle =
              ground (arith, h.quiescing, h.idle, has_run-insert v id r m.running, str_eq_iff w v);
        }

    finish_run-IsDrained : (m : State) (id : String) → IsDrained v m → IsDrained v (finish_run m id)
    unfolding finish_run
    finish_run-IsDrained m id h =
        let removed =
          release_exclusive_task-IsDrained (record m { running = remove id m.running }) id
            (record {
              quiescing = h.quiescing;
              not_resumed = h.not_resumed;
              idle = has_run-remove v id m.running h.idle;
            }) in
        elim (Bool-cases (str_eq (vault_of_run m id) "")) [
          | inl nobody ↦ rw (nobody, finish_run) removed
          | inr somebody ↦
              rw (somebody, finish_run) (maybe_resume_vault-IsDrained _ (vault_of_run m id) removed)
        ]

    cancel_task-IsDrained :
        (m : State) (id : String) → IsDrained v m → IsDrained v (cancel_task m id).0
    unfolding cancel_task
    cancel_task-IsDrained m id h = elim (Option-cases (lookup id m.running)) [
      | inl none_there ↦ rw (none_there, cancel_task) h
      | inr (r, found) ↦
          rw (found, cancel_task)
            (record {
              quiescing = h.quiescing;
              not_resumed = h.not_resumed;
              idle =
                  has_run-insert v id _ m.running (has_run-lookup v id r m.running h.idle found)
                    h.idle;
            })
    ]

    quiesce_vault-IsDrained :
        (m : State) (w : String) → IsDrained v m → IsDrained v (quiesce_vault m w).0
    unfolding quiesce_vault
    quiesce_vault-IsDrained m w h = record {
      quiescing = ground (arith, h.quiescing, has_key-insert v w tt m.quiescing_vaults);
      not_resumed = ground (arith, h.not_resumed);
      idle = ground (arith, h.idle, has_run-cancel_runs v (λ run. str_eq run.vault_id w) m.running);
    }

    resume_vault-IsDrained :
        (m : State) (w : String)
        → str_eq w v ≡ false
        → IsDrained v m
        → IsDrained v (resume_vault m w)
    unfolding resume_vault
    resume_vault-IsDrained m w other h = record {
      quiescing = ground (arith, h.quiescing, other, has_key-remove v w m.quiescing_vaults);
      not_resumed = ground (
        arith,
        h.not_resumed,
        other,
        has_key-remove v w m.resume_vaults,
        has_key-insert v w tt m.resume_vaults,
      );
      idle = ground (arith, h.idle);
    }

    forget_vault-IsDrained :
        (m : State) (w : String)
        → str_eq w v ≡ false
        → IsDrained v m
        → IsDrained v (forget_vault m w)
    unfolding forget_vault
    forget_vault-IsDrained m w other h = record {
      quiescing = ground (arith, h.quiescing, other, has_key-remove v w m.quiescing_vaults);
      not_resumed = ground (arith, h.not_resumed, other, has_key-remove v w m.resume_vaults);
      idle = ground (arith, h.idle);
    }

    shutdown-IsDrained : (m : State) → IsDrained v m → IsDrained v (shutdown m)
    unfolding shutdown
    shutdown-IsDrained m h = record {
      quiescing = ground (arith, h.quiescing);
      not_resumed = ground (arith, h.not_resumed);
      idle = ground (arith, h.idle, has_run-cancel_runs v (λ run. true) m.running);
    }

    step-IsDrained :
        (m : State) (c : Call) → Avoids v c → IsDrained v m → IsDrained v (step database m c)
    unfolding step worker_exits
    step-IsDrained m (begins id w) a h = begin_task_start-IsDrained m id w h
    step-IsDrained m (finishes_start id) a h = finish_task_start-IsDrained m id h
    step-IsDrained m (reserves id w kind) a h = reserve_exclusive_task-IsDrained m id w kind h
    step-IsDrained m (releases id) a h = release_exclusive_task-IsDrained m id h
    step-IsDrained m (admits id w t keys) a h = admit_background_task-IsDrained m id w t keys h
    step-IsDrained m (finishes_run id) a h = finish_run-IsDrained m id h
    step-IsDrained m exits a h = record {
      quiescing = h.quiescing;
      not_resumed = h.not_resumed;
      idle = h.idle;
    }
    step-IsDrained m (cancels id) a h = cancel_task-IsDrained m id h
    step-IsDrained m (quiesces w) a h = quiesce_vault-IsDrained m w h
    step-IsDrained m (resumes w) a h = resume_vault-IsDrained m w a h
    step-IsDrained m (forgets w) a h = forget_vault-IsDrained m w a h
    step-IsDrained m shuts_down a h = shutdown-IsDrained m h

    -- Once a vault that is being removed has no running task and nobody asked to resume it,
    -- no sequence of calls that neither resumes nor forgets that vault starts a task of it or
    -- lifts the mark: not a starter that was under way, not the end of other tasks, not the
    -- resumption of other vaults.
    pub run_calls-IsDrained :
        (m : State) (cs : List Call)
        → AllAvoid v cs
        → IsDrained v m
        → IsDrained v (run_calls database m cs)
    unfolding run_calls
    run_calls-IsDrained m [] a h = h
    run_calls-IsDrained m (c ∷ cs) a h =
        run_calls-IsDrained (step database m c) cs a.1 (step-IsDrained m c a.0 h)
