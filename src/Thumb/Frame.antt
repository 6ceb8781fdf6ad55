-- ===== src/Thumb/Frame.antt =====
-- The calls of the thumbnail generator on one vault and the lifecycle of another.
use Prim.Native.String.{String}
use cryp.Prelude.{
  by_if, ◌≡◌, refl, ◌∙◌, ℕ, ◌==◌, ltb, length, Bool, true, false, ◌||◌, Option-cases, inl, inr,
  Option, none, some, arith,
}
use cryp.GoMap.{str_eq, lookup, remove, lookup-insert, lookup-remove}
use cryp.Crypto.Keys.{VaultKeys}
use cryp.Task.{has_key}
use cryp.Thumb.{
  is_blank, ThumbJob, VaultLifecycle, Generator, thumb_job_key, lifecycle_of, set_lifecycle,
  maybe_retire, purge_vault_caches, retain_generation, quiesce_thumbs, resume_thumbs, forget_thumbs,
}
use cryp.Thumb.Queue.{
  ThumbError, queue_size, prune_failed, push_job, retry_job, admit_thumb, try_enqueue,
}
use cryp.Thumb.Worker.{leave_run, begin_job, end_job}

-- A vault's lifecycle is the same in both states.
abbrev pub IsSameFor : String → Generator → Generator → Type 0
IsSameFor v g h = lookup v h.vaults ≡ lookup v g.vaults

module _ (v w : String) (other : str_eq w v ≡ false) where
  abbrev SameResult : Generator → Generator × Option ThumbError → Type 0
  SameResult g r = IsSameFor v g r.0

  module _ (g : Generator) where
    set_lifecycle-IsSameFor : (state : VaultLifecycle) → IsSameFor v g (set_lifecycle g w state)
    unfolding set_lifecycle
    set_lifecycle-IsSameFor state = ground (arith, lookup-insert w v state g.vaults)

    pub maybe_retire-IsSameFor : IsSameFor v g (maybe_retire g w)
    unfolding maybe_retire purge_vault_caches
    maybe_retire-IsSameFor = ground (arith, lookup-remove w v g.vaults)

    pub quiesce_thumbs-IsSameFor : IsSameFor v g (quiesce_thumbs g w)
    unfolding quiesce_thumbs
    quiesce_thumbs-IsSameFor = by_if (IsSameFor v g) g.stopped refl (set_lifecycle-IsSameFor _)

    pub resume_thumbs-IsSameFor : IsSameFor v g (resume_thumbs g w)
    unfolding resume_thumbs set_lifecycle
    resume_thumbs-IsSameFor = elim (Option-cases (lookup w g.vaults)) [
      | inl none_there ↦ ground (arith, none_there)
      | inr (state, found) ↦
          ground (arith, found, lookup-insert w v (record state { quiescing = false }) g.vaults)
    ]

  module _ (g : Generator) where
    pub forget_thumbs-IsSameFor : IsSameFor v g (forget_thumbs g w)
    unfolding forget_thumbs
    forget_thumbs-IsSameFor = elim (Option-cases (lookup w g.vaults)) [
      | inl none_there ↦ ground (arith, none_there)
      | inr (state, found) ↦
          let next : VaultLifecycle = record state { retiring = true; quiescing = true } in
          ground (
            arith,
            found,
            maybe_retire-IsSameFor (set_lifecycle g w next),
            set_lifecycle-IsSameFor g next,
          )
    ]

    push_job-IsSameFor :
        (vault_path p : String) (keys : VaultKeys)
        → IsSameFor v g (push_job g w vault_path p keys).0
    unfolding push_job retain_generation
    push_job-IsSameFor vault_path p keys =
        by_if (SameResult g) (ltb (length g.jobs) queue_size) (set_lifecycle-IsSameFor g _)
          (maybe_retire-IsSameFor _ ∙ set_lifecycle-IsSameFor g _)

  retry_job-IsSameFor :
      (g : Generator) (vault_path p : String) (keys : VaultKeys) (now : ℕ)
      → IsSameFor v g (retry_job g w vault_path p keys now).0
  unfolding retry_job
  retry_job-IsSameFor g vault_path p keys now =
      let key = thumb_job_key w p in
      elim (Option-cases (lookup key g.failed)) [
        | inl clean ↦ rw (clean, retry_job) (push_job-IsSameFor g vault_path p keys)
        | inr (until, found) ↦
            rw (found, retry_job)
              (by_if (SameResult g) (ltb now until) refl
                (push_job-IsSameFor (record g { failed = remove key g.failed }) vault_path p keys))
      ]

  pub try_enqueue-IsSameFor :
      (g : Generator) (vault_path p : String) (keys : Option VaultKeys) (now : ℕ) (cached : Bool)
      → IsSameFor v g (try_enqueue g w vault_path keys p now cached).0
  unfolding try_enqueue admit_thumb
  try_enqueue-IsSameFor g vault_path p none now cached = refl
  try_enqueue-IsSameFor g vault_path p (some keys) now cached =
      let state = lifecycle_of g w in
      let known = set_lifecycle g w state in
      let pruned = record known { failed = prune_failed now g.failed } in
      let known_same = set_lifecycle-IsSameFor g state in
      by_if (SameResult g) (is_blank g.vault_dir || is_blank w) refl (
        by_if (SameResult g) cached refl (
          by_if (SameResult g) g.stopped refl (
            by_if (SameResult g) (state.quiescing || state.retiring) known_same (
              by_if (SameResult g) (has_key (thumb_job_key w p) g.queued) known_same
                (retry_job-IsSameFor pruned vault_path p keys now ∙ known_same)))))

module _ (v : String) (g : Generator) (job : ThumbJob) (other : str_eq job.vault_id v ≡ false) where
  pub begin_job-IsSameFor : IsSameFor v g (begin_job g job).0
  unfolding begin_job
  begin_job-IsSameFor =
      let w = job.vault_id in
      let state = lifecycle_of g w in
      by_if (λ (r : Generator × Option ThumbJob). IsSameFor v g r.0)
        (g.stopped || state.quiescing || state.retiring)
        (maybe_retire-IsSameFor v w other _ ∙ set_lifecycle-IsSameFor v w other g _)
        (set_lifecycle-IsSameFor v w other g _)

  leave_run-IsSameFor : (state : VaultLifecycle) → IsSameFor v g (leave_run g job state)
  unfolding leave_run
  leave_run-IsSameFor state =
      by_if (IsSameFor v g) _ (set_lifecycle-IsSameFor v job.vault_id other g _)
        (set_lifecycle-IsSameFor v job.vault_id other g _)

  pub end_job-IsSameFor : IsSameFor v g (end_job g job)
  unfolding end_job
  end_job-IsSameFor =
      by_if (IsSameFor v g) (job.run_id == 0) refl
        (elim (Option-cases (lookup job.vault_id g.vaults)) [
          | inl none_there ↦ rw (none_there, end_job) refl
          | inr (state, found) ↦
              rw (found, end_job)
                (maybe_retire-IsSameFor v job.vault_id other _ ∙ leave_run-IsSameFor state)
        ])
