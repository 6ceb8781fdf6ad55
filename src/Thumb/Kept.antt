-- ===== src/Thumb/Kept.antt =====
-- The calls of the thumbnail generator that leave the queue, the worker and the counts alone.
use Prim.Native.String.{String}
use cryp.Prelude.{
  ◌≡◌, refl, sym, ap, ◌∙◌, ℕ, ◌==◌, length, Bool, true, false, Option-cases, inl, inr, List, [],
  ◌∷◌, if◌then◌else◌, arith,
}
use cryp.GoMap.{str_eq_iff, lookup, remove, lookup-insert}
use cryp.Thumb.{
  ThumbJob, count_of, thumb_job_key, VaultLifecycle, Generator, lifecycle_of, set_lifecycle,
  maybe_retire, purge_vault_caches, maybe_purge_generation, release_generation, cancel_active,
  quiesce_thumbs, resume_thumbs, forget_thumbs, delete_thumbnail,
}
use cryp.Thumb.Worker.{Outcome, discard_job, finish_job}
use cryp.Thumb.Observe.{
  pending_of, runs_of, run_ids, ids_of, length-ids_of, pending_of-maybe_retire, ids_of-maybe_retire,
  lifecycle_of-pending, lifecycle_of-ids, pending_of-set_lifecycle, ids_of-set_lifecycle,
}

pub length-cancel_active : (runs : List (ℕ × Bool)) → length (cancel_active runs) ≡ length runs
unfolding cancel_active
length-cancel_active [] = refl
length-cancel_active ((id, cancelled) ∷ runs) = ground (arith, length-cancel_active runs)

run_ids-cancel_active : (runs : List (ℕ × Bool)) → run_ids (cancel_active runs) ≡ run_ids runs
unfolding cancel_active run_ids
run_ids-cancel_active [] = refl
run_ids-cancel_active ((id, cancelled) ∷ runs) = ground (arith, run_ids-cancel_active runs)

-- The queue, the worker, the count of jobs and the ids of the runs of a vault stay as they are.
pub record IsKept (v : String) (g h : Generator) : Type 0 where
  pub jobs : h.jobs ≡ g.jobs
  pub worker : h.worker ≡ g.worker
  pub pending : pending_of v h ≡ pending_of v g
  pub ids : ids_of v h ≡ ids_of v g

-- So does the number of the runs.
pub runs_of-IsKept : {v : String} {g h : Generator} → IsKept v g h → runs_of v h ≡ runs_of v g
runs_of-IsKept {v} {g} {h} k =
    sym (length-ids_of v h) ∙ ap (λ (ids : List ℕ). length ids) k.ids ∙ length-ids_of v g

module _ (v : String) (g : Generator) where
  pub IsKept-refl : IsKept v g g
  IsKept-refl = record { jobs = refl; worker = refl; pending = refl; ids = refl }

  pub maybe_retire-IsKept : (w : String) → IsKept v g (maybe_retire g w)
  unfolding maybe_retire purge_vault_caches
  maybe_retire-IsKept w = record {
    jobs = ground arith;
    worker = ground arith;
    pending = pending_of-maybe_retire v g w;
    ids = ids_of-maybe_retire v g w;
  }

  pub quiesce_thumbs-IsKept : (w : String) → IsKept v g (quiesce_thumbs g w)
  unfolding quiesce_thumbs set_lifecycle
  quiesce_thumbs-IsKept w =
      let state = lifecycle_of g w in
      let next : VaultLifecycle = record state {
        quiescing = true;
        active = cancel_active state.active;
      } in
      record {
        jobs = ground arith;
        worker = ground arith;
        pending =
            ground (
              arith,
              pending_of-set_lifecycle v g w next,
              lifecycle_of-pending w g,
              str_eq_iff w v,
            );
        ids = ground (
          arith,
          ids_of-set_lifecycle v g w next,
          lifecycle_of-ids w g,
          run_ids-cancel_active state.active,
          str_eq_iff w v,
        );
      }

  pub resume_thumbs-IsKept : (w : String) → IsKept v g (resume_thumbs g w)
  unfolding resume_thumbs set_lifecycle pending_of ids_of
  resume_thumbs-IsKept w = elim (Option-cases (lookup w g.vaults)) [
    | inl none_there ↦ rw (none_there, resume_thumbs) IsKept-refl
    | inr (state, found) ↦
        let next : VaultLifecycle = record state { quiescing = false } in
        record {
          jobs = ground arith;
          worker = ground arith;
          pending = ground (arith, lookup-insert w v next g.vaults, str_eq_iff w v, found);
          ids = ground (arith, lookup-insert w v next g.vaults, str_eq_iff w v, found);
        }
  ]

module _ (v : String) (g : Generator) where
  pub forget_thumbs-IsKept : (w : String) → IsKept v g (forget_thumbs g w)
  unfolding forget_thumbs set_lifecycle pending_of ids_of
  forget_thumbs-IsKept w = elim (Option-cases (lookup w g.vaults)) [
    | inl none_there ↦ rw (none_there, forget_thumbs) (IsKept-refl v g)
    | inr (state, found) ↦
        let next : VaultLifecycle = record state { retiring = true; quiescing = true } in
        let kept = maybe_retire-IsKept v (set_lifecycle g w next) w in
        record {
          jobs = ground (arith, kept.jobs);
          worker = ground (arith, kept.worker);
          pending =
              ground (arith, kept.pending, lookup-insert w v next g.vaults, str_eq_iff w v, found);
          ids = ground (arith, kept.ids, lookup-insert w v next g.vaults, str_eq_iff w v, found);
        }
  ]

  pub delete_thumbnail-IsKept : (w p : String) → IsKept v g (delete_thumbnail g w p)
  unfolding delete_thumbnail maybe_purge_generation pending_of ids_of
  delete_thumbnail-IsKept w p = record {
    jobs = ground arith;
    worker = ground arith;
    pending = ground arith;
    ids = ground arith;
  }

  pub release_generation-IsKept : (key : String) → IsKept v g (release_generation g key)
  unfolding release_generation maybe_purge_generation pending_of ids_of
  release_generation-IsKept key = record {
    jobs = ground arith;
    worker = ground arith;
    pending = ground arith;
    ids = ground arith;
  }

module _ (v : String) (g : Generator) (job : ThumbJob) where
  pub discard_job-IsKept : IsKept v g (discard_job g job)
  unfolding discard_job release_generation maybe_purge_generation pending_of ids_of
  discard_job-IsKept =
      let key = thumb_job_key job.vault_id job.file_path in
      let cleared =
        if count_of key g.generations == job.generation
        then record g { queued = remove key g.queued }
        else g in
      let released = release_generation cleared key in
      let kept = maybe_retire-IsKept v released job.vault_id in
      record {
        jobs = ground (arith, kept.jobs);
        worker = ground (arith, kept.worker);
        pending = ground (arith, kept.pending);
        ids = ground (arith, kept.ids);
      }

  pub finish_job-IsKept : (outcome : Outcome) (now : ℕ) → IsKept v g (finish_job g job outcome now)
  unfolding finish_job release_generation maybe_purge_generation pending_of ids_of
  finish_job-IsKept outcome now = record {
    jobs = ground arith;
    worker = ground arith;
    pending = ground arith;
    ids = ground arith;
  }
