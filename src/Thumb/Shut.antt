-- ===== src/Thumb/Shut.antt =====
-- The states in which the thumbnail generator may not touch a vault, and the calls that keep them.
use Prim.Native.String.{String}
use cryp.Prelude.{
  by_if, ◌≡◌, refl, ◌∙◌, ℕ, ◌<◌, Bool, true, false, ◌&&◌, ◌||◌, not, Option, none, some, List, [],
  ◌∷◌, arith,
}
use cryp.GoMap.{str_eq, str_eq_iff}
use cryp.Crypto.Keys.{VaultKeys}
use cryp.Thumb.{
  is_blank, ThumbJob, VaultLifecycle, Generator, lifecycle_of, set_lifecycle, purge_vault_caches,
  maybe_purge_generation, stop_thumbs, delete_thumbnail,
}
use cryp.Thumb.Queue.{ThumbError, admit_thumb, try_enqueue}
use cryp.Thumb.Worker.{taken_pending, begin_job, discard_job}
use cryp.Thumb.Calls.{ThumbCall, enqueues, resumes_thumbs, forgets_thumbs}
use cryp.Thumb.Observe.{
  pending_of, runs_of, is_open, is_barred, lifecycle_of-active, runs_of-set_lifecycle,
  is_open-set_lifecycle, is_barred-set_lifecycle, is_open-maybe_retire, is_barred-maybe_retire,
}
use cryp.Thumb.Kept.{runs_of-IsKept, maybe_retire-IsKept, discard_job-IsKept}
use cryp.Thumb.Opening.{is_open-discard_job, is_barred-discard_job}
use cryp.Thumb.Frame.{IsSameFor}

-- The vault takes no jobs, and no run of it is active.
pub record IsShut (v : String) (g : Generator) : Type 0 where
  pub closed : is_open v g ≡ false
  pub idle : runs_of v g ≡ 0

-- The vault waits to be resumed, and no run of it is active.
pub record IsBarred (v : String) (g : Generator) : Type 0 where
  pub barred : is_barred v g ≡ true
  pub idle : runs_of v g ≡ 0

-- Calls that do not give work to the vault nor open it again.
abbrev pub NeverOpens : String → ThumbCall → Type 0
NeverOpens v (enqueues w vault_path keys p now cached) = str_eq w v ≡ false
NeverOpens v (resumes_thumbs w) = str_eq w v ≡ false
NeverOpens v _ = Unit {0}

-- Calls that neither resume nor forget the vault.
abbrev pub NeverResumes : String → ThumbCall → Type 0
NeverResumes v (resumes_thumbs w) = str_eq w v ≡ false
NeverResumes v (forgets_thumbs w) = str_eq w v ≡ false
NeverResumes v _ = Unit {0}

abbrev pub AllOf : (ThumbCall → Type 0) → List ThumbCall → Type 0
AllOf P [] = Unit {0}
AllOf P (c ∷ cs) = P c × AllOf P cs

module _ (v : String) (g : Generator) where
  pub same_purge : (w : String) → IsSameFor v g (purge_vault_caches g w)
  unfolding purge_vault_caches
  same_purge w = refl

  pub same_delete : (w p : String) → IsSameFor v g (delete_thumbnail g w p)
  unfolding delete_thumbnail maybe_purge_generation
  same_delete w p = ground arith

  pub same_stop : IsSameFor v g (stop_thumbs g)
  unfolding stop_thumbs
  same_stop = refl

  pub discard_job-IsShut : (job : ThumbJob) → IsShut v g → IsShut v (discard_job g job)
  discard_job-IsShut job s = record {
    closed = is_open-discard_job v g job s.closed;
    idle = runs_of-IsKept (discard_job-IsKept v g job) ∙ s.idle;
  }

  pub discard_job-IsBarred : (job : ThumbJob) → IsBarred v g → IsBarred v (discard_job g job)
  discard_job-IsBarred job s = record {
    barred = is_barred-discard_job v g job ∙ s.barred;
    idle = runs_of-IsKept (discard_job-IsKept v g job) ∙ s.idle;
  }

  pub same-IsShut : (h : Generator) → IsSameFor v g h → IsShut v g → IsShut v h
  unfolding is_open runs_of
  same-IsShut h same s = record {
    closed = ground (arith, same, s.closed);
    idle = ground (arith, same, s.idle);
  }

  pub same-IsBarred : (h : Generator) → IsSameFor v g h → IsBarred v g → IsBarred v h
  unfolding is_barred runs_of
  same-IsBarred h same s = record {
    barred = ground (arith, same, s.barred);
    idle = ground (arith, same, s.idle);
  }

  shut_state :
      0 < pending_of v g
      → is_open v g ≡ false
      → (lifecycle_of g v).quiescing || (lifecycle_of g v).retiring ≡ true
  unfolding is_open lifecycle_of pending_of
  shut_state counted closed = ground (arith, counted, closed)

  pub begin_job-IsShut :
      (job : ThumbJob)
      → job.vault_id ≡ v
      → 0 < pending_of v g
      → IsShut v g
      → IsShut v (begin_job g job).0
  unfolding begin_job
  begin_job-IsShut job at counted s =
      let w = job.vault_id in
      let state = lifecycle_of g w in
      let taken : VaultLifecycle = record state { pending = taken_pending job state } in
      let refused : g.stopped || state.quiescing || state.retiring ≡ true =
        ground (arith, at, shut_state counted s.closed) in
      let retired = maybe_retire-IsKept v (set_lifecycle g w taken) w in
      rw (refused, begin_job)
        (record {
          closed = is_open-maybe_retire v (set_lifecycle g w taken) w (
              ground (
                arith,
                is_open-set_lifecycle v g w taken,
                shut_state counted s.closed,
                at,
                str_eq_iff w v,
              ));
          idle = ground (
            arith,
            runs_of-IsKept retired,
            runs_of-set_lifecycle v g w taken,
            lifecycle_of-active w g,
            s.idle,
            at,
          );
        })

  barred_state :
      is_barred v g ≡ true → (lifecycle_of g v).quiescing && not (lifecycle_of g v).retiring ≡ true
  unfolding is_barred lifecycle_of
  barred_state barred = ground (arith, barred)

  pub begin_job-IsBarred :
      (job : ThumbJob) → job.vault_id ≡ v → IsBarred v g → IsBarred v (begin_job g job).0
  unfolding begin_job
  begin_job-IsBarred job at s =
      let w = job.vault_id in
      let state = lifecycle_of g w in
      let taken : VaultLifecycle = record state { pending = taken_pending job state } in
      let refused : g.stopped || state.quiescing || state.retiring ≡ true =
        ground (arith, at, barred_state s.barred) in
      let retired = maybe_retire-IsKept v (set_lifecycle g w taken) w in
      rw (refused, begin_job)
        (record {
          barred =
              is_barred-maybe_retire v (set_lifecycle g w taken) w
              ∙ ground (
                arith,
                is_barred-set_lifecycle v g w taken,
                barred_state s.barred,
                at,
                str_eq_iff w v,
              );
          idle = ground (
            arith,
            runs_of-IsKept retired,
            runs_of-set_lifecycle v g w taken,
            lifecycle_of-active w g,
            s.idle,
            at,
          );
        })

  pub try_enqueue-IsBarred :
      (vault_path p : String) (keys : Option VaultKeys) (now : ℕ) (cached : Bool)
      → IsBarred v g
      → IsBarred v (try_enqueue g v vault_path keys p now cached).0
  unfolding try_enqueue admit_thumb
  try_enqueue-IsBarred vault_path p none now cached s = s
  try_enqueue-IsBarred vault_path p (some keys) now cached s =
      let state = lifecycle_of g v in
      let known_barred : IsBarred v (set_lifecycle g v state) = record {
        barred = ground (arith, is_barred-set_lifecycle v g v state, barred_state s.barred);
        idle = ground (arith, runs_of-set_lifecycle v g v state, lifecycle_of-active v g, s.idle);
      } in
      let refused : state.quiescing || state.retiring ≡ true =
        ground (arith, barred_state s.barred) in
      let BarredResult : Generator × Option ThumbError → Type 0 = λ r. IsBarred v r.0 in
      by_if BarredResult (is_blank g.vault_dir || is_blank v) s
        (by_if BarredResult cached s (by_if BarredResult g.stopped s (rw refused known_barred)))

  pub try_enqueue_refused :
      (vault_path p : String) (keys : VaultKeys) (now : ℕ)
      → IsBarred v g
      → (e : ThumbError) × ((try_enqueue g v vault_path (some keys) p now false).1 ≡ some e)
  unfolding try_enqueue admit_thumb
  try_enqueue_refused vault_path p keys now s =
      let state = lifecycle_of g v in
      let refused : state.quiescing || state.retiring ≡ true =
        ground (arith, barred_state s.barred) in
      let Refused : Generator × Option ThumbError → Type 0 =
        λ r. (e : ThumbError) × (r.1 ≡ some e) in
      by_if Refused (is_blank g.vault_dir || is_blank v) (ThumbError.unavailable, refl)
        (by_if Refused g.stopped (ThumbError.stopped_generator, refl)
          (rw refused (ThumbError.vault_unavailable, refl)))
