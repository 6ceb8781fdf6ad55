-- ===== src/Task/Owes.antt =====
-- Deferred resumptions of vaults: the start and the admission of tasks.
use Prim.Native.String.{String}
use cryp.Prelude.{
  by_if, Result, ◌+◌, ◌-◌, ◌≡◌, sym, subst, Bool, true, false, ◌||◌, not, none, Bool-cases,
  Option-cases, inl, inr, List, [], ◌∷◌, arith,
}
use cryp.GoMap.{str_eq, str_eq_iff, lookup, insert, remove, IsMap, IsMap-insert, IsMap-remove}
use cryp.Crypto.Keys.{VaultKeys}
use cryp.Task.{
  TaskError, TaskRecord, Database, RunningTask, Manager, has_key, has_run, has_start,
  begin_task_start, maybe_resume_vault, finish_task_start, release_exclusive_task,
  admit_background_task,
}
use cryp.Task.Calls.{Call, admits, step}
use cryp.Task.Vaults.{has_key-remove}
use cryp.Task.Entries.{has_start-new, has_run-new, has_start-other}

module _ (database : Database) where
  abbrev State : Type 0
  State = Manager database.D

  -- A vault that is to be resumed has a task or a starter, or the manager is shut down.
  abbrev pub owes : String → State → Bool
  owes v m =
      not (has_key v m.resume_vaults)
      || m.closed
      || has_run v m.running
      || has_start v m.pending_starts

  pub record IsOwed (v : String) (m : State) : Type 0 where
    pub tasks : IsMap m.running
    pub starts : IsMap m.pending_starts
    pub owed : owes v m ≡ true

  -- The id of a task that is admitted is not that of a running one.
  abbrev pub IsNewTask : State → Call → Type 0
  IsNewTask m (admits id w t keys) = lookup id m.running ≡ none
  IsNewTask m _ = Unit {0}

  abbrev pub AllNewTasks : State → List Call → Type 0
  AllNewTasks m [] = Unit {0}
  AllNewTasks m (c ∷ cs) = IsNewTask m c × AllNewTasks (step database m c) cs

  -- A start that is begun or refused.
  by_begun :
      (m : State) (id w : String) (P : State → Type 0)
      → P m
      → P (record m { pending_starts = insert id w m.pending_starts; start_wg = m.start_wg + 1 })
      → P (begin_task_start m id w).0
  unfolding begin_task_start
  by_begun m id w P refused begun = by_if Q m.closed refused (
      by_if Q (has_key w m.quiescing_vaults) refused
        (by_if Q (str_eq id "") refused (by_if Q (has_key id m.pending_starts) refused begun)))
    where
      Q : State × Result TaskError (Unit {0}) → Type 0
      Q r = P r.0

  module _ (v : String) where
    maybe_owes :
        (m : State) (w : String)
        → str_eq w v || owes v m ≡ true
        → owes v (maybe_resume_vault m w) ≡ true
    unfolding maybe_resume_vault
    maybe_owes m w h = elim (Bool-cases (str_eq w v)) [
      | inl same ↦
          let key : w ≡ v = (str_eq_iff w v).0 same in
          ground (arith, key, same, has_key-remove v w m.resume_vaults)
      | inr other ↦ ground (arith, h, other, has_key-remove v w m.resume_vaults)
    ]

    pub maybe_resume_vault-IsOwed :
        (m : State) (w : String)
        → IsMap m.running
        → IsMap m.pending_starts
        → str_eq w v || owes v m ≡ true
        → IsOwed v (maybe_resume_vault m w)
    maybe_resume_vault-IsOwed m w t s h =
        let running : (maybe_resume_vault m w).running ≡ m.running =
          unfold maybe_resume_vault in ground arith in
        let pending : (maybe_resume_vault m w).pending_starts ≡ m.pending_starts =
          unfold maybe_resume_vault in ground arith in
        record {
          tasks = subst (λ (x : List (String × RunningTask)). IsMap x) (sym running) t;
          starts = subst (λ (x : List (String × String)). IsMap x) (sym pending) s;
          owed = maybe_owes m w h;
        }

    -- What the tasks and the starters are, decides.
    pub moved :
        (m n : State)
        → IsOwed v m
        → n.running ≡ m.running
        → n.pending_starts ≡ m.pending_starts
        → owes v n ≡ true
        → IsOwed v n
    moved m n h e1 e2 o = record {
      tasks = subst (λ (x : List (String × RunningTask)). IsMap x) (sym e1) h.tasks;
      starts = subst (λ (x : List (String × String)). IsMap x) (sym e2) h.starts;
      owed = o;
    }

    pub begin_task_start-IsOwed :
        (m : State) (id w : String) → IsOwed v m → IsOwed v (begin_task_start m id w).0
    unfolding begin_task_start has_key
    begin_task_start-IsOwed m id w h = elim (Option-cases (lookup id m.pending_starts)) [
      | inr (u, found) ↦
          moved m _ h (ground (arith, found)) (ground (arith, found))
            (ground (arith, found, h.owed))
      | inl absent ↦
          let more = IsMap-insert id w m.pending_starts h.starts in
          record {
            tasks = by_begun m id w (λ (n : State). IsMap n.running) h.tasks h.tasks;
            starts = by_begun m id w (λ (n : State). IsMap n.pending_starts) h.starts more;
            owed = ground (arith, h.owed, absent, has_start-new v id w m.pending_starts absent);
          }
    ]

    pub finish_task_start-IsOwed :
        (m : State) (id : String) → IsOwed v m → IsOwed v (finish_task_start m id)
    unfolding finish_task_start
    finish_task_start-IsOwed m id h = elim (Option-cases (lookup id m.pending_starts)) [
      | inl absent ↦ rw (absent, finish_task_start) h
      | inr (w, found) ↦
          rw (found, finish_task_start)
            (maybe_resume_vault-IsOwed
              (record m { pending_starts = remove id m.pending_starts; start_wg = m.start_wg - 1 })
              w h.tasks (IsMap-remove id m.pending_starts h.starts)
              (elim (Bool-cases (str_eq w v)) [
                | inl same ↦ ground (arith, same)
                | inr other ↦
                    ground
                      (arith, h.owed, has_start-other v id w m.pending_starts h.starts found other)
              ]))
    ]

    pub admit_background_task-IsOwed :
        (m : State) (id w : String) (t : TaskRecord) (keys : VaultKeys)
        → lookup id m.running ≡ none
        → IsOwed v m
        → IsOwed v (admit_background_task database m id w t keys).0
    unfolding admit_background_task
    admit_background_task-IsOwed m id w t keys absent h =
        let run : RunningTask = record { vault_id = w; cancelled = false } in
        let more = IsMap-insert id run m.running h.tasks in
        by_if Q m.closed h (
          by_if Q (has_key w m.quiescing_vaults) h (elim (Option-cases m.db) [
            | inl no_table ↦ rw no_table h
            | inr (d, table) ↦ rw table (
                by_if Q (database.create_task d t).1
                  (record {
                    tasks = more;
                    starts = h.starts;
                    owed = ground (arith, h.owed, has_run-new v id run m.running absent);
                  })
                  (record { tasks = h.tasks; starts = h.starts; owed = h.owed }))
          ]))
      where
        Q : State × VaultKeys × Result TaskError (Unit {0}) → Type 0
        Q r = IsOwed v r.0

    pub release_exclusive_task-IsOwed :
        (m : State) (id : String) → IsOwed v m → IsOwed v (release_exclusive_task m id)
    unfolding release_exclusive_task
    release_exclusive_task-IsOwed m id h =
        moved m _ h (ground arith) (ground arith) (ground (arith, h.owed))
