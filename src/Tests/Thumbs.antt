-- ===== src/Tests/Thumbs.antt =====
-- The thumbnail generator on concrete calls.
use cryp.Prelude.{◌≡◌, refl, some, none, true, false, List, [], ◌∷◌, length}
use cryp.GoMap.{lookup, insert, remove}
use cryp.Crypto.Keys.{VaultKeys}
use cryp.Task.{has_key}
use cryp.GoText.{is_space}
use cryp.Thumb.{
  Generator, finish_prepare, purge_vault_caches, without_prefix, has_prefix, is_blank, count_of,
  thumb_job_key, lifecycle_of, set_lifecycle, is_idle, maybe_retire, retain_generation,
  maybe_purge_generation, release_generation, cancel_active, quiesce_thumbs, resume_thumbs,
}
use cryp.Thumb.Queue.{
  wait_vault_idle, any_prefix, ThumbError, unexpired, prune_failed, push_job, retry_job,
  admit_thumb, try_enqueue,
}
use cryp.Thumb.Worker.{generated, taken_pending, begin_job, discard_job, turn_to, receive_job, work}
use cryp.Thumb.Calls.{
  ThumbCall, enqueues, receives, works, quiesces_thumbs, resumes_thumbs, forgets_thumbs,
  new_generator, step, run_calls,
}
use cryp.Thumb.Observe.{pending_of, runs_of, is_open, is_barred}
use cryp.Thumb.Counts.{run_held, IsSoundFor}
use cryp.Thumb.Sound.{reachable-IsSoundFor}
use cryp.Thumb.Shut.{IsShut, IsBarred}
use cryp.Thumb.Barrier.{run_calls-IsShut, run_calls-IsBarred}

abbrev keys : VaultKeys
keys = record { master_key = []; mac_key = [] }

-- A picture is queued, the vault is quiesced, and the deletion is given up while the job still waits.
abbrev before : List ThumbCall
before =
    enqueues "v" "/v" (some keys) "/a.mp4" 100 false ∷ quiesces_thumbs "v" ∷ resumes_thumbs "v" ∷ []

-- The worker takes the job and drops it.
abbrev after : List ThumbCall
after = receives ∷ works generated 100 ∷ []

barred : IsBarred "v" (run_calls (new_generator "/data") before)
unfolding run_calls step try_enqueue admit_thumb retry_job push_job quiesce_thumbs resume_thumbs
    lifecycle_of set_lifecycle is_barred runs_of lookup insert has_key unexpired prune_failed
    cancel_active is_idle thumb_job_key count_of retain_generation is_blank is_space
barred = record { barred = refl; idle = refl }

run_calls-IsBarred_example :
    IsBarred "v" (run_calls (run_calls (new_generator "/data") before) after)
    × ((e : ThumbError) × ((try_enqueue
            (run_calls (run_calls (new_generator "/data") before) after)
            "v"
            "/v"
            (some keys)
            "/b.mp4"
            200
            false).1
          ≡ some e))
run_calls-IsBarred_example =
    run_calls-IsBarred "/data" "v" "/v" "/b.mp4" keys 200 before after barred (tt, (tt, tt))

-- Nothing of the vault is queued any more, and its resumption is still noted.
resumption_lost :
    let g = run_calls (run_calls (new_generator "/data") before) after in
    (length g.jobs ≡ 0) × (pending_of "v" g ≡ 0) × (has_key "v" g.resume_pending ≡ true)
unfolding run_calls step try_enqueue admit_thumb retry_job push_job quiesce_thumbs resume_thumbs
    lifecycle_of set_lifecycle pending_of lookup insert has_key unexpired prune_failed cancel_active
    is_idle thumb_job_key count_of retain_generation receive_job turn_to begin_job taken_pending
    maybe_retire work discard_job release_generation maybe_purge_generation remove is_blank is_space
resumption_lost = (refl, refl, refl)

-- `PrepareVaultRebuild` while a job is queued: the vault becomes idle without an error, and refuses the
-- pictures of the rebuild.
abbrev rebuilt : Generator
rebuilt =
    let queued =
      run_calls (new_generator "/data") (enqueues "v" "/v" (some keys) "/a.mp4" 100 false ∷ []) in
    run_calls (finish_prepare (quiesce_thumbs queued "v") "v" true) after

rebuild_refused :
    (wait_vault_idle rebuilt "v" ≡ some none)
    × ((try_enqueue rebuilt "v" "/v" (some keys) "/a.mp4" 200 false).1
        ≡ some ThumbError.vault_unavailable)
unfolding run_calls step try_enqueue admit_thumb retry_job push_job quiesce_thumbs resume_thumbs
    lifecycle_of set_lifecycle pending_of lookup insert has_key unexpired prune_failed cancel_active
    is_idle thumb_job_key count_of retain_generation receive_job turn_to begin_job taken_pending
    maybe_retire work discard_job release_generation maybe_purge_generation remove is_blank is_space
    finish_prepare purge_vault_caches without_prefix has_prefix wait_vault_idle any_prefix
rebuild_refused = (refl, refl)

-- The vault is deleted while its job is queued.
abbrev deletion : List ThumbCall
deletion = enqueues "v" "/v" (some keys) "/a.mp4" 100 false ∷ quiesces_thumbs "v" ∷ []

abbrev forgotten : List ThumbCall
forgotten = forgets_thumbs "v" ∷ receives ∷ works generated 100 ∷ receives ∷ []

shut : IsShut "v" (run_calls (new_generator "/data") deletion)
unfolding run_calls step try_enqueue admit_thumb retry_job push_job quiesce_thumbs lifecycle_of
    set_lifecycle is_open runs_of lookup insert has_key unexpired prune_failed cancel_active
    thumb_job_key count_of retain_generation is_blank is_space
shut = record { closed = refl; idle = refl }

run_calls-IsShut_example :
    IsShut "v" (run_calls (run_calls (new_generator "/data") deletion) forgotten)
    × (run_held "v" (run_calls (run_calls (new_generator "/data") deletion) forgotten).worker ≡ 0)
run_calls-IsShut_example =
    run_calls-IsShut "/data" "v" deletion forgotten shut (tt, (tt, (tt, (tt, tt))))

reachable-IsSoundFor_example : IsSoundFor "v" (run_calls (new_generator "/data") before)
reachable-IsSoundFor_example = reachable-IsSoundFor "/data" before "v"
