-- ===== src/Thumb/Sound.antt =====
-- The bookkeeping of the thumbnail generator in every interleaving of its calls: the queue and the
-- worker against the vaults' lifecycles.
use Prim.Native.String.{String}
use cryp.Prelude.{refl, List, [], ◌∷◌, arith}
use cryp.Thumb.{Generator, purge_vault_caches, stop_thumbs}
use cryp.Thumb.Calls.{
  ThumbCall, enqueues, receives, works, quiesces_thumbs, resumes_thumbs, forgets_thumbs,
  purges_caches, deletes_thumbnail, stops, new_generator, step, run_calls,
}
use cryp.Thumb.Observe.{pending_of, ids_of}
use cryp.Thumb.Kept.{
  quiesce_thumbs-IsKept, resume_thumbs-IsKept, forget_thumbs-IsKept, delete_thumbnail-IsKept,
}
use cryp.Thumb.Counts.{jobs_of, run_among, IsSoundFor, kept}
use cryp.Thumb.Admit.{try_enqueue-IsSoundFor}
use cryp.Thumb.Rounds.{received, worked}

module _ (v : String) where
  module _ (g : Generator) (h : IsSoundFor v g) where
    pub step-IsSoundFor : (c : ThumbCall) → IsSoundFor v (step g c)
    unfolding step purge_vault_caches stop_thumbs pending_of ids_of
    step-IsSoundFor (enqueues w vault_path keys p now cached) =
        try_enqueue-IsSoundFor v g h w vault_path p keys now cached
    step-IsSoundFor receives = received v g h g.worker g.jobs refl refl
    step-IsSoundFor (works outcome now) = worked v g h g.worker outcome now refl
    step-IsSoundFor (quiesces_thumbs w) = kept v g h _ (quiesce_thumbs-IsKept v g w)
    step-IsSoundFor (resumes_thumbs w) = kept v g h _ (resume_thumbs-IsKept v g w)
    step-IsSoundFor (forgets_thumbs w) = kept v g h _ (forget_thumbs-IsKept v g w)
    step-IsSoundFor (purges_caches w) = record { counted = h.counted; owned = h.owned }
    step-IsSoundFor (deletes_thumbnail w p) = kept v g h _ (delete_thumbnail-IsKept v g w p)
    step-IsSoundFor stops = record { counted = h.counted; owned = h.owned }

  pub run_calls-IsSoundFor :
      (g : Generator) (cs : List ThumbCall) → IsSoundFor v g → IsSoundFor v (run_calls g cs)
  unfolding run_calls
  run_calls-IsSoundFor g [] h = h
  run_calls-IsSoundFor g (c ∷ cs) h = run_calls-IsSoundFor (step g c) cs (step-IsSoundFor g h c)

-- After any calls of a new generator, every vault counts at least the jobs of it that are queued,
-- and the run that the worker is in is, by its id, one of its vault's active runs.
pub reachable-IsSoundFor :
    (dir : String) (cs : List ThumbCall) (v : String)
    → IsSoundFor v (run_calls (new_generator dir) cs)
unfolding jobs_of run_among pending_of ids_of
reachable-IsSoundFor dir cs v =
    run_calls-IsSoundFor v (new_generator dir) cs
      (record { counted = ground arith; owned = ground arith })
