-- ===== src/Thumb/Admit.antt =====
-- Admission to the thumbnail queue and what the generator counts.
use Prim.Native.String.{String}
use cryp.Prelude.{
  by_if, ◌≡◌, refl, ℕ, ◌+◌, ◌%◌, ◌^◌, ltb, length, Bool, ◌||◌, Bool-cases, Option-cases, inl, inr,
  Option, none, some, List, [], ◌∷◌, ◌++◌ as ◌+++◌, if◌then◌else◌, arith,
}
use cryp.GoMap.{str_eq, str_eq_iff, lookup, remove, lookup-insert}
use cryp.Crypto.Keys.{VaultKeys}
use cryp.Task.{has_key}
use cryp.Thumb.{
  is_blank, ThumbJob, VaultLifecycle, Generator, count_of, thumb_job_key, lifecycle_of,
  set_lifecycle, retain_generation,
}
use cryp.Thumb.Queue.{
  ThumbError, queue_size, prune_failed, push_job, retry_job, admit_thumb, try_enqueue,
}
use cryp.Thumb.Observe.{
  pending_of, ids_of, lifecycle_of-pending, lifecycle_of-ids, pending_of-set_lifecycle,
  ids_of-set_lifecycle,
}
use cryp.Thumb.Kept.{IsKept, maybe_retire-IsKept}
use cryp.Thumb.Counts.{jobs_of, IsSoundFor, kept}

jobs_of-append :
    (v : String) (xs : List ThumbJob) (job : ThumbJob)
    → jobs_of v (xs +++ (job ∷ [])) ≡ jobs_of v xs + (if str_eq job.vault_id v then 1 else 0)
unfolding jobs_of
jobs_of-append v [] job = ground arith
jobs_of-append v (x ∷ xs) job = ground (arith, jobs_of-append v xs job)

module _ (v : String) where
  abbrev SoundResult : Generator × Option ThumbError → Type 0
  SoundResult r = IsSoundFor v r.0

  module _ (g : Generator) (h : IsSoundFor v g) where
    push_job-IsSoundFor :
        (w vault_path p : String) (keys : VaultKeys)
        → IsSoundFor v (push_job g w vault_path p keys).0
    unfolding push_job retain_generation set_lifecycle pending_of ids_of
    push_job-IsSoundFor w vault_path p keys =
        let key = thumb_job_key w p in
        let state = lifecycle_of g w in
        let next = (state.next_id + 1) % 2 ^ 64 in
        let job : ThumbJob = record {
          vault_id = w;
          vault_path = vault_path;
          keys = keys;
          file_path = p;
          generation = count_of key g.generations;
          queue_id = next;
          run_id = 0;
        } in
        let sent : VaultLifecycle = record state { next_id = next; pending = state.pending + 1 } in
        let unsent : VaultLifecycle = record state { next_id = next } in
        let left = record (set_lifecycle g w unsent) { queued = remove key g.queued } in
        let retired = maybe_retire-IsKept v left w in
        elim (Bool-cases (ltb (length g.jobs) queue_size)) [
          | inl room ↦
              rw (room, push_job)
                (record {
                  counted = ground (
                    arith,
                    h.counted,
                    jobs_of-append v g.jobs job,
                    pending_of-set_lifecycle v g w sent,
                    lifecycle_of-pending w g,
                    str_eq_iff w v,
                  );
                  owned = ground (
                    arith,
                    h.owned,
                    ids_of-set_lifecycle v g w sent,
                    lifecycle_of-ids w g,
                    str_eq_iff w v,
                  );
                })
          | inr full ↦
              rw (full, push_job)
                (record {
                  counted = ground (
                    arith,
                    h.counted,
                    retired.jobs,
                    retired.pending,
                    pending_of-set_lifecycle v g w unsent,
                    lifecycle_of-pending w g,
                    str_eq_iff w v,
                  );
                  owned = ground (
                    arith,
                    h.owned,
                    retired.ids,
                    retired.worker,
                    ids_of-set_lifecycle v g w unsent,
                    lifecycle_of-ids w g,
                    str_eq_iff w v,
                  );
                })
        ]

    known-IsKept : (w : String) → IsKept v g (set_lifecycle g w (lifecycle_of g w))
    unfolding set_lifecycle pending_of ids_of
    known-IsKept w =
        let state = lifecycle_of g w in
        record {
          jobs = refl;
          worker = refl;
          pending =
              ground
                (arith, lookup-insert w v state g.vaults, lifecycle_of-pending w g, str_eq_iff w v);
          ids =
              ground
                (arith, lookup-insert w v state g.vaults, lifecycle_of-ids w g, str_eq_iff w v);
        }

  module _ (g : Generator) (h : IsSoundFor v g) where
    retry_job-IsSoundFor :
        (w vault_path p : String) (keys : VaultKeys) (now : ℕ)
        → IsSoundFor v (retry_job g w vault_path p keys now).0
    unfolding retry_job pending_of ids_of
    retry_job-IsSoundFor w vault_path p keys now =
        let key = thumb_job_key w p in
        let dropped = record g { failed = remove key g.failed } in
        let dropped_sound : IsSoundFor v dropped = record {
          counted = h.counted;
          owned = h.owned;
        } in
        elim (Option-cases (lookup key g.failed)) [
          | inl clean ↦ rw (clean, retry_job) (push_job-IsSoundFor g h w vault_path p keys)
          | inr (until, found) ↦
              rw (found, retry_job)
                (by_if SoundResult (ltb now until) h
                  (push_job-IsSoundFor dropped dropped_sound w vault_path p keys))
        ]

  module _ (g : Generator) (h : IsSoundFor v g) where
    admit_thumb-IsSoundFor :
        (w vault_path p : String) (keys : VaultKeys) (now : ℕ)
        → IsSoundFor v (admit_thumb g w vault_path p keys now).0
    unfolding admit_thumb pending_of ids_of
    admit_thumb-IsSoundFor w vault_path p keys now =
        let state = lifecycle_of g w in
        let known = set_lifecycle g w state in
        let known_sound = kept v g h known (known-IsKept g h w) in
        let pruned = record known { failed = prune_failed now g.failed } in
        let pruned_sound : IsSoundFor v pruned = record {
          counted = known_sound.counted;
          owned = known_sound.owned;
        } in
        by_if SoundResult g.stopped h (
          by_if SoundResult (state.quiescing || state.retiring) known_sound (
            by_if SoundResult (has_key (thumb_job_key w p) g.queued) pruned_sound
              (retry_job-IsSoundFor pruned pruned_sound w vault_path p keys now)))

    pub try_enqueue-IsSoundFor :
        (w vault_path p : String) (keys : Option VaultKeys) (now : ℕ) (cached : Bool)
        → IsSoundFor v (try_enqueue g w vault_path keys p now cached).0
    unfolding try_enqueue
    try_enqueue-IsSoundFor w vault_path p none now cached = h
    try_enqueue-IsSoundFor w vault_path p (some keys) now cached =
        by_if SoundResult (is_blank g.vault_dir || is_blank w) h
          (by_if SoundResult cached h (admit_thumb-IsSoundFor w vault_path p keys now))
