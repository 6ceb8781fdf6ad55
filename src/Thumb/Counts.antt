-- ===== src/Thumb/Counts.antt =====
-- What the thumbnail generator counts: the queue and the worker against the vaults' lifecycles.
use Prim.Native.String.{String}
use cryp.Prelude.{
  ◌≡◌, sym, subst, ℕ, ◌+◌, ◌≤◌, ◌==◌, ◌||◌, not, length, Bool, true, false, List, [], ◌∷◌,
  if◌then◌else◌, arith,
}
use cryp.GoMap.{str_eq}
use cryp.Thumb.{ThumbJob, WorkerPhase, waiting, discarding, generating, ending, Generator}
use cryp.Thumb.Observe.{pending_of, runs_of, ids_of, length-ids_of}
use cryp.Thumb.Kept.{IsKept}

-- The jobs of a vault in the queue.
unfoldable pub jobs_of : String → List ThumbJob → ℕ
jobs_of v [] = 0
jobs_of v (job ∷ others) =
    let rest = jobs_of v others in if str_eq job.vault_id v then rest + 1 else rest

-- Whether the worker is in a run of the vault, as a number.
unfoldable pub run_held : String → WorkerPhase → ℕ
run_held v waiting = 0
run_held v (discarding job) = 0
run_held v (generating job) = if str_eq job.vault_id v then 1 else 0
run_held v (ending job) = if str_eq job.vault_id v then 1 else 0

unfoldable pub is_among : ℕ → List ℕ → Bool
is_among id [] = false
is_among id (j ∷ ids) = let rest = is_among id ids in j == id || rest

-- The run that the worker is in, if it is one of the vault, is among these.
unfoldable pub run_among : String → WorkerPhase → List ℕ → Bool
run_among v waiting ids = true
run_among v (discarding job) ids = true
run_among v (generating job) ids = not (str_eq job.vault_id v) || is_among job.run_id ids
run_among v (ending job) ids = not (str_eq job.vault_id v) || is_among job.run_id ids

-- Every queued job is counted by its vault, and the worker's run is by its id one of its vault's.
pub record IsSoundFor (v : String) (g : Generator) : Type 0 where
  pub counted : jobs_of v g.jobs ≤ pending_of v g
  pub owned : run_among v g.worker (ids_of v g) ≡ true

among_some : (id : ℕ) (ids : List ℕ) → is_among id ids ≡ true → 1 ≤ length ids
unfolding is_among
among_some id [] h = absurd (ground arith)
among_some id (j ∷ ids) h = omega arith

run_held-run_among :
    (v : String) (phase : WorkerPhase) (ids : List ℕ)
    → run_among v phase ids ≡ true
    → run_held v phase ≤ length ids
unfolding run_held run_among
run_held-run_among v waiting ids h = ground arith
run_held-run_among v (discarding job) ids h = ground arith
run_held-run_among v (generating job) ids h = ground (arith, h, among_some job.run_id ids)
run_held-run_among v (ending job) ids h = ground (arith, h, among_some job.run_id ids)

module _ (v : String) (g : Generator) (h : IsSoundFor v g) where
  -- A vault whose run the worker is in has a run.
  pub held : run_held v g.worker ≤ runs_of v g
  held =
      subst (λ (n : ℕ). run_held v g.worker ≤ n) (length-ids_of v g)
        (run_held-run_among v g.worker (ids_of v g) h.owned)

  pub kept : (g2 : Generator) → IsKept v g g2 → IsSoundFor v g2
  kept g2 k = record {
    counted = ground (arith, k.jobs, k.pending, h.counted);
    owned = ground (arith, k.ids, k.worker, h.owned);
  }

  pub unchanged : (g2 : Generator) → g2 ≡ g → IsSoundFor v g2
  unchanged g2 same = subst (IsSoundFor v) (sym same) h
