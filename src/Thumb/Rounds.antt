-- ===== src/Thumb/Rounds.antt =====
-- The rounds of the worker and what the generator counts.
use Prim.Native.String.{String}
use cryp.Prelude.{
  ◌≡◌, refl, subst, ℕ, ◌+◌, ◌%◌, ◌^◌, ◌≤◌, Bool, true, false, ap, ◌||◌, Bool-cases, Option-cases,
  inl, inr, none, some, List, [], ◌∷◌, arith,
}
use cryp.GoMap.{str_eq, str_eq_iff, lookup, lookup-insert}
use cryp.Thumb.{
  ThumbJob, VaultLifecycle, WorkerPhase, waiting, discarding, generating, ending, Generator,
  lifecycle_of, set_lifecycle, maybe_retire,
}
use cryp.Thumb.Worker.{
  Outcome, taken_pending, remove_run, leave_run, begin_job, end_job, turn_to, receive_job, work,
}
use cryp.Thumb.Observe.{
  pending_of, run_ids, ids_of, lifecycle_of-pending, pending_of-set_lifecycle, ids_of-set_lifecycle,
}
use cryp.Thumb.Kept.{maybe_retire-IsKept, discard_job-IsKept, finish_job-IsKept}
use cryp.Thumb.Counts.{jobs_of, is_among, run_among, IsSoundFor, unchanged}

record IsEnded (v : String) (g h : Generator) : Type 0 where
  jobs : h.jobs ≡ g.jobs
  pending : pending_of v h ≡ pending_of v g

-- A run that was just begun is one of its vault's.
begun_among :
    (v : String) (g : Generator) (job : ThumbJob) (state : VaultLifecycle) (runs : List (ℕ × Bool))
    → state.active ≡ (job.run_id, false) ∷ runs
    → run_among v (generating job) (ids_of v (set_lifecycle g job.vault_id state)) ≡ true
unfolding run_among is_among run_ids
begun_among v g job state runs first =
    let set = ids_of-set_lifecycle v g job.vault_id state in
    let ids : run_ids state.active ≡ job.run_id ∷ run_ids runs =
      ap (λ (r : List (ℕ × Bool)). run_ids r) first in
    elim (Bool-cases (str_eq job.vault_id v)) [
      | inl at ↦ rw (set, at, ids) (ground arith)
      | inr other ↦ ground (arith, other)
    ]

module _ (v : String) where
  module _ (g : Generator) (h : IsSoundFor v g) where
    leave_run-IsEnded :
        (job : ThumbJob) (state : VaultLifecycle)
        → lookup job.vault_id g.vaults ≡ some state
        → IsEnded v g (leave_run g job state)
    unfolding leave_run set_lifecycle pending_of
    leave_run-IsEnded job state found =
        let ended : VaultLifecycle = record state { active = remove_run job.run_id state.active } in
        let reopened : VaultLifecycle = record ended { quiescing = false } in
        record {
          jobs = ground arith;
          pending = ground (
            arith,
            found,
            lookup-insert job.vault_id v ended g.vaults,
            lookup-insert job.vault_id v reopened g.vaults,
            str_eq_iff job.vault_id v,
          );
        }

    end_job-IsEnded : (job : ThumbJob) → IsEnded v g (end_job g job)
    unfolding end_job
    end_job-IsEnded job = elim (Option-cases (lookup job.vault_id g.vaults)) [
      | inl none_there ↦ record {
        jobs = ground (arith, none_there);
        pending = ground (arith, none_there);
      }
      | inr (state, found) ↦
          let left = leave_run-IsEnded job state found in
          let retired = maybe_retire-IsKept v (leave_run g job state) job.vault_id in
          record {
            jobs = ground (arith, found, left.jobs, retired.jobs);
            pending = ground (arith, found, left.pending, retired.pending);
          }
    ]

    pub received :
        (phase : WorkerPhase) (jobs : List ThumbJob)
        → g.worker ≡ phase
        → g.jobs ≡ jobs
        → IsSoundFor v (receive_job g)
    unfolding receive_job turn_to begin_job jobs_of run_among taken_pending set_lifecycle pending_of
        ids_of
    received (discarding job) jobs e1 e2 =
        let same : receive_job g ≡ g = ground (arith, e1) in unchanged v g h _ same
    received (generating job) jobs e1 e2 =
        let same : receive_job g ≡ g = ground (arith, e1) in unchanged v g h _ same
    received (ending job) jobs e1 e2 =
        let same : receive_job g ≡ g = ground (arith, e1) in unchanged v g h _ same
    received waiting [] e1 e2 =
        let same : receive_job g ≡ g = ground (arith, e1, e2) in unchanged v g h _ same
    received waiting (job ∷ others) e1 e2 =
        let w = job.vault_id in
        let rest = record g { jobs = others } in
        let counted : jobs_of v (job ∷ others) ≤ pending_of v g =
          subst (λ js. jobs_of v js ≤ pending_of v g) e2 h.counted in
        let state = lifecycle_of rest w in
        let taken : VaultLifecycle = record state { pending = taken_pending job state } in
        elim (Bool-cases (g.stopped || state.quiescing || state.retiring)) [
          | inl refused ↦
              let begun : begin_job rest job ≡ (maybe_retire (set_lifecycle rest w taken) w, none) =
                rw (refused, begin_job) refl in
              let retired = maybe_retire-IsKept v (set_lifecycle rest w taken) w in
              rw (e1, e2, receive_job, begun)
                (record {
                  counted = ground (
                    arith,
                    counted,
                    retired.jobs,
                    retired.pending,
                    pending_of-set_lifecycle v rest w taken,
                    lifecycle_of-pending w rest,
                    str_eq_iff w v,
                  );
                  owned = ground arith;
                })
          | inr allowed ↦
              let run_id = (state.next_id + 1) % 2 ^ 64 in
              let begun_state : VaultLifecycle = record taken {
                next_id = run_id;
                active = (run_id, false) ∷ remove_run run_id state.active;
              } in
              let begun : begin_job rest job
                  ≡ (set_lifecycle rest w begun_state, some (record job { run_id = run_id })) =
                rw (allowed, begin_job) refl in
              rw (e1, e2, receive_job, begun)
                (record {
                  counted = ground (
                    arith,
                    counted,
                    pending_of-set_lifecycle v rest w begun_state,
                    lifecycle_of-pending w rest,
                    str_eq_iff w v,
                  );
                  owned =
                      begun_among v rest (record job { run_id = run_id }) begun_state
                        (remove_run run_id state.active) refl;
                })
        ]

    pub worked :
        (phase : WorkerPhase) (outcome : Outcome) (now : ℕ)
        → g.worker ≡ phase
        → IsSoundFor v (work g outcome now)
    unfolding work run_among pending_of ids_of
    worked waiting outcome now e = unchanged v g h _ (ground (arith, e))
    worked (discarding job) outcome now e =
        let k = discard_job-IsKept v g job in
        rw (e, work)
          (record { counted = ground (arith, k.jobs, k.pending, h.counted); owned = ground arith })
    worked (generating job) outcome now e =
        let k = finish_job-IsKept v g job outcome now in
        let owned : run_among v (generating job) (ids_of v g) ≡ true =
          subst (λ phase. run_among v phase (ids_of v g) ≡ true) e h.owned in
        rw (e, work)
          (record {
            counted = ground (arith, k.jobs, k.pending, h.counted);
            owned = ground (arith, k.ids, owned);
          })
    worked (ending job) outcome now e =
        let k = end_job-IsEnded job in
        rw (e, work)
          (record { counted = ground (arith, k.jobs, k.pending, h.counted); owned = ground arith })
