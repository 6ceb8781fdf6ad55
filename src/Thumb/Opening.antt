-- ===== src/Thumb/Opening.antt =====
-- The calls of the thumbnail generator on vaults that are not open.
use Prim.Native.String.{String}
use cryp.Prelude.{◌≡◌, ◌∙◌, ℕ, ◌==◌, true, false, Option-cases, inl, inr, if◌then◌else◌, arith}
use cryp.GoMap.{str_eq_iff, lookup, remove, lookup-insert}
use cryp.Thumb.{
  ThumbJob, count_of, thumb_job_key, VaultLifecycle, Generator, lifecycle_of, set_lifecycle,
  maybe_purge_generation, release_generation, cancel_active, quiesce_thumbs, forget_thumbs,
}
use cryp.Thumb.Worker.{Outcome, discard_job, finish_job}
use cryp.Thumb.Observe.{
  is_open, is_barred, is_open-maybe_retire, is_barred-maybe_retire, is_open-set_lifecycle,
}

module _ (v : String) (g : Generator) where
  pub is_open-quiesce_thumbs :
      (w : String) → is_open v g ≡ false → is_open v (quiesce_thumbs g w) ≡ false
  unfolding quiesce_thumbs
  is_open-quiesce_thumbs w h = ground (
    arith,
    is_open-set_lifecycle v g w (record (lifecycle_of g w) {
      quiescing = true;
      active = cancel_active (lifecycle_of g w).active;
    }),
  )

  pub is_barred-quiesce_thumbs :
      (w : String) → is_barred v g ≡ true → is_barred v (quiesce_thumbs g w) ≡ true
  unfolding quiesce_thumbs lifecycle_of is_barred set_lifecycle
  is_barred-quiesce_thumbs w h = ground (
    arith,
    lookup-insert w v
        (record (lifecycle_of g w) {
          quiescing = true;
          active = cancel_active (lifecycle_of g w).active;
        })
        g.vaults,
    str_eq_iff w v,
  )

  pub is_open-forget_thumbs :
      (w : String) → is_open v g ≡ false → is_open v (forget_thumbs g w) ≡ false
  unfolding forget_thumbs is_open
  is_open-forget_thumbs w h = elim (Option-cases (lookup w g.vaults)) [
    | inl none_there ↦ ground (arith, none_there)
    | inr (state, found) ↦
        let next : VaultLifecycle = record state { retiring = true; quiescing = true } in
        let set = is_open-set_lifecycle v g w next in
        ground (arith, found, set, is_open-maybe_retire v (set_lifecycle g w next) w)
  ]

module _ (v : String) (g : Generator) (job : ThumbJob) where
  unfoldable released : Generator
  released =
      let key = thumb_job_key job.vault_id job.file_path in
      release_generation
        (if count_of key g.generations == job.generation
          then record g { queued = remove key g.queued }
          else g)
        key

  vaults-released : released.vaults ≡ g.vaults
  unfolding released release_generation maybe_purge_generation
  vaults-released = ground arith

  pub is_open-discard_job : is_open v g ≡ false → is_open v (discard_job g job) ≡ false
  unfolding discard_job released is_open
  is_open-discard_job h =
      is_open-maybe_retire v released job.vault_id (ground (arith, vaults-released))

  pub is_barred-discard_job : is_barred v (discard_job g job) ≡ is_barred v g
  unfolding discard_job released is_barred
  is_barred-discard_job =
      is_barred-maybe_retire v released job.vault_id ∙ ground (arith, vaults-released)

  pub vaults-finish_job :
      (outcome : Outcome) (now : ℕ) → (finish_job g job outcome now).vaults ≡ g.vaults
  unfolding finish_job release_generation maybe_purge_generation
  vaults-finish_job outcome now = ground arith
