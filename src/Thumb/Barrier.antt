-- ===== src/Thumb/Barrier.antt =====
-- The barrier of `QuiesceVault` and `ForgetVault` in every interleaving of the generator's calls.
use Prim.Native.String.{String}
use cryp.Prelude.{
  ◌≡◌, refl, sym, subst, ◌∙◌, ap, ℕ, ◌≤◌, ◌<◌, true, false, Bool-cases, inl, inr, Option, none,
  some, List, [], ◌∷◌, arith,
}
use cryp.GoMap.{str_eq, str_eq_iff, lookup}
use cryp.Crypto.Keys.{VaultKeys}
use cryp.Thumb.{ThumbJob, WorkerPhase, waiting, discarding, generating, ending, Generator}
use cryp.Thumb.Queue.{ThumbError, try_enqueue}
use cryp.Thumb.Worker.{Outcome, begin_job, discard_job, turn_to, receive_job, work}
use cryp.Thumb.Calls.{
  ThumbCall, enqueues, receives, works, quiesces_thumbs, resumes_thumbs, forgets_thumbs,
  purges_caches, deletes_thumbnail, stops, new_generator, step, run_calls,
}
use cryp.Thumb.Observe.{pending_of, runs_of}
use cryp.Thumb.Kept.{runs_of-IsKept, quiesce_thumbs-IsKept, forget_thumbs-IsKept}
use cryp.Thumb.Opening.{
  is_open-quiesce_thumbs, is_barred-quiesce_thumbs, is_open-forget_thumbs, vaults-finish_job,
}
use cryp.Thumb.Frame.{
  IsSameFor, resume_thumbs-IsSameFor, forget_thumbs-IsSameFor, try_enqueue-IsSameFor,
  begin_job-IsSameFor, end_job-IsSameFor,
}
use cryp.Thumb.Counts.{jobs_of, run_held, IsSoundFor, held}
use cryp.Thumb.Sound.{step-IsSoundFor, run_calls-IsSoundFor, reachable-IsSoundFor}
use cryp.Thumb.Shut.{
  IsShut, IsBarred, NeverOpens, NeverResumes, AllOf, same_purge, same_delete, same_stop,
  discard_job-IsShut, discard_job-IsBarred, same-IsShut, same-IsBarred, begin_job-IsShut,
  begin_job-IsBarred, try_enqueue-IsBarred, try_enqueue_refused,
}

-- What the worker does to the state of a vault that it may not touch.
module _ (v : String) (P : Generator → Type 0)
    (same : (g h : Generator) → IsSameFor v g h → P g → P h)
    (begin : (g : Generator) (job : ThumbJob)
      → job.vault_id ≡ v
      → 0 < pending_of v g
      → P g
      → P (begin_job g job).0)
    (discard : (g : Generator) (job : ThumbJob) → P g → P (discard_job g job))
    (idle : (g : Generator) → P g → runs_of v g ≡ 0) where
  turned :
      (g : Generator) (job : ThumbJob) (r : Generator × Option ThumbJob) → P r.0 → P (turn_to job r)
  unfolding turn_to
  turned g job (h, none) p = same h _ refl p
  turned g job (h, some running) p = same h _ refl p

  received :
      (g : Generator) (phase : WorkerPhase) (jobs : List ThumbJob)
      → g.worker ≡ phase
      → g.jobs ≡ jobs
      → IsSoundFor v g
      → P g
      → P (receive_job g)
  unfolding receive_job jobs_of pending_of
  received g (discarding job) jobs e1 e2 h p = same g _ (rw (e1, receive_job) refl) p
  received g (generating job) jobs e1 e2 h p = same g _ (rw (e1, receive_job) refl) p
  received g (ending job) jobs e1 e2 h p = same g _ (rw (e1, receive_job) refl) p
  received g waiting [] e1 e2 h p = same g _ (rw (e1, e2, receive_job) refl) p
  received g waiting (job ∷ others) e1 e2 h p =
      let rest = record g { jobs = others } in
      let counted : jobs_of v (job ∷ others) ≤ pending_of v g =
        subst (λ js. jobs_of v js ≤ pending_of v g) e2 h.counted in
      let more : str_eq job.vault_id v ≡ true → 0 < pending_of v g =
        λ at. ground (arith, counted, at) in
      let p_rest : P rest = same g rest refl p in
      elim (Bool-cases (str_eq job.vault_id v)) [
        | inl at ↦
            rw (e1, e2, receive_job)
              (turned g job _ (begin rest job ((str_eq_iff job.vault_id v).0 at) (more at) p_rest))
        | inr other ↦
            rw (e1, e2, receive_job)
              (turned g job _ (same rest _ (begin_job-IsSameFor v rest job other) p_rest))
      ]

  worked :
      (g : Generator) (phase : WorkerPhase) (outcome : Outcome) (now : ℕ)
      → g.worker ≡ phase
      → IsSoundFor v g
      → P g
      → P (work g outcome now)
  unfolding work run_held
  worked g waiting outcome now e h p = same g _ (rw (e, work) refl) p
  worked g (discarding job) outcome now e h p = rw (e, work) (same _ _ refl (discard g job p))
  worked g (generating job) outcome now e h p =
      rw (e, work) (same g _ (ap (lookup v) (vaults-finish_job v g job outcome now)) p)
  worked g (ending job) outcome now e h p =
      let owned : run_held v (ending job) ≤ runs_of v g =
        subst (λ phase. run_held v phase ≤ runs_of v g) e (held v g h) in
      let other : str_eq job.vault_id v ≡ false = ground (arith, owned, idle g p) in
      rw (e, work) (same g _ (end_job-IsSameFor v g job other) p)

module _ (v : String) where
  step-IsShut :
      (g : Generator) (c : ThumbCall)
      → NeverOpens v c
      → IsSoundFor v g
      → IsShut v g
      → IsShut v (step g c)
  unfolding step
  step-IsShut g (enqueues w vault_path keys p now cached) other h s =
      same-IsShut v g _ (try_enqueue-IsSameFor v w other g vault_path p keys now cached) s
  step-IsShut g receives a h s =
      received v (IsShut v) (same-IsShut v) (begin_job-IsShut v) (discard_job-IsShut v)
        (λ g s. s.idle) g g.worker g.jobs refl refl h s
  step-IsShut g (works outcome now) a h s =
      worked v (IsShut v) (same-IsShut v) (begin_job-IsShut v) (discard_job-IsShut v)
        (λ g s. s.idle) g g.worker outcome now refl h s
  step-IsShut g (quiesces_thumbs w) a h s = record {
    closed = is_open-quiesce_thumbs v g w s.closed;
    idle = runs_of-IsKept (quiesce_thumbs-IsKept v g w) ∙ s.idle;
  }
  step-IsShut g (resumes_thumbs w) other h s =
      same-IsShut v g _ (resume_thumbs-IsSameFor v w other g) s
  step-IsShut g (forgets_thumbs w) a h s = record {
    closed = is_open-forget_thumbs v g w s.closed;
    idle = runs_of-IsKept (forget_thumbs-IsKept v g w) ∙ s.idle;
  }
  step-IsShut g (purges_caches w) a h s = same-IsShut v g _ (same_purge v g w) s
  step-IsShut g (deletes_thumbnail w p) a h s = same-IsShut v g _ (same_delete v g w p) s
  step-IsShut g stops a h s = same-IsShut v g _ (same_stop v g) s

  step-IsBarred :
      (g : Generator) (c : ThumbCall)
      → NeverResumes v c
      → IsSoundFor v g
      → IsBarred v g
      → IsBarred v (step g c)
  unfolding step
  step-IsBarred g (enqueues w vault_path keys p now cached) a h s = elim (Bool-cases (str_eq w v)) [
    | inl at ↦
        subst (λ (w : String). IsBarred v (try_enqueue g w vault_path keys p now cached).0)
          (sym ((str_eq_iff w v).0 at)) (try_enqueue-IsBarred v g vault_path p keys now cached s)
    | inr other ↦
        same-IsBarred v g _ (try_enqueue-IsSameFor v w other g vault_path p keys now cached) s
  ]
  step-IsBarred g receives a h s =
      received v (IsBarred v) (same-IsBarred v) (λ g job at counted. begin_job-IsBarred v g job at)
        (discard_job-IsBarred v) (λ g s. s.idle) g g.worker g.jobs refl refl h s
  step-IsBarred g (works outcome now) a h s =
      worked v (IsBarred v) (same-IsBarred v) (λ g job at counted. begin_job-IsBarred v g job at)
        (discard_job-IsBarred v) (λ g s. s.idle) g g.worker outcome now refl h s
  step-IsBarred g (quiesces_thumbs w) a h s = record {
    barred = is_barred-quiesce_thumbs v g w s.barred;
    idle = runs_of-IsKept (quiesce_thumbs-IsKept v g w) ∙ s.idle;
  }
  step-IsBarred g (resumes_thumbs w) other h s =
      same-IsBarred v g _ (resume_thumbs-IsSameFor v w other g) s
  step-IsBarred g (forgets_thumbs w) other h s =
      same-IsBarred v g _ (forget_thumbs-IsSameFor v w other g) s
  step-IsBarred g (purges_caches w) a h s = same-IsBarred v g _ (same_purge v g w) s
  step-IsBarred g (deletes_thumbnail w p) a h s = same-IsBarred v g _ (same_delete v g w p) s
  step-IsBarred g stops a h s = same-IsBarred v g _ (same_stop v g) s

  calls-IsShut :
      (g : Generator) (cs : List ThumbCall)
      → AllOf (NeverOpens v) cs
      → IsSoundFor v g
      → IsShut v g
      → IsShut v (run_calls g cs)
  unfolding run_calls
  calls-IsShut g [] a h s = s
  calls-IsShut g (c ∷ cs) a h s =
      calls-IsShut (step g c) cs a.1 (step-IsSoundFor v g h c) (step-IsShut g c a.0 h s)

  calls-IsBarred :
      (g : Generator) (cs : List ThumbCall)
      → AllOf (NeverResumes v) cs
      → IsSoundFor v g
      → IsBarred v g
      → IsBarred v (run_calls g cs)
  unfolding run_calls
  calls-IsBarred g [] a h s = s
  calls-IsBarred g (c ∷ cs) a h s =
      calls-IsBarred (step g c) cs a.1 (step-IsSoundFor v g h c) (step-IsBarred g c a.0 h s)

-- In every reachable state of the thumbnail generator in which a vault takes no jobs and has no
-- active run, no sequence of calls that neither enqueues for the vault nor resumes it makes the
-- worker run one of its jobs or opens it, also if it is forgotten while jobs of it are queued.
pub run_calls-IsShut :
    (dir v : String) (before after : List ThumbCall)
    → IsShut v (run_calls (new_generator dir) before)
    → AllOf (NeverOpens v) after
    → IsShut v (run_calls (run_calls (new_generator dir) before) after)
      × (run_held v (run_calls (run_calls (new_generator dir) before) after).worker ≡ 0)
run_calls-IsShut dir v before after s a =
    let g = run_calls (new_generator dir) before in
    let sound = reachable-IsSoundFor dir before v in
    let still = calls-IsShut v g after a sound s in
    let owned = held v (run_calls g after) (run_calls-IsSoundFor v g after sound) in
    (still, ground (arith, owned, still.idle))

-- In every reachable state in which a quiesced vault that is not being forgotten has no active
-- run, whether or not its resumption is pending, it stays quiesced through all calls that neither
-- resume nor forget it, and a picture of it that is not cached is refused: the end of its queued
-- jobs does not carry out a pending resumption.
pub run_calls-IsBarred :
    (dir v vault_path p : String) (keys : VaultKeys) (now : ℕ) (before after : List ThumbCall)
    → IsBarred v (run_calls (new_generator dir) before)
    → AllOf (NeverResumes v) after
    → IsBarred v (run_calls (run_calls (new_generator dir) before) after)
      × ((e : ThumbError) × ((try_enqueue
              (run_calls (run_calls (new_generator dir) before) after)
              v
              vault_path
              (some keys)
              p
              now
              false).1
            ≡ some e))
run_calls-IsBarred dir v vault_path p keys now before after s a =
    let g = run_calls (new_generator dir) before in
    let still = calls-IsBarred v g after a (reachable-IsSoundFor dir before v) s in
    (still, try_enqueue_refused v (run_calls g after) vault_path p keys now still)
