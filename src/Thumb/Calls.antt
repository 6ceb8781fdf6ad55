-- ===== src/Thumb/Calls.antt =====
-- The critical sections of the thumbnail generator, in any order.
use Prim.Native.String.{String}
use cryp.Prelude.{ℕ, Bool, false, Option, List, [], ◌∷◌}
use cryp.Crypto.Keys.{VaultKeys}
use cryp.Thumb.{
  waiting, Generator, quiesce_thumbs, resume_thumbs, forget_thumbs, purge_vault_caches, stop_thumbs,
  delete_thumbnail,
}
use cryp.Thumb.Queue.{try_enqueue}
use cryp.Thumb.Worker.{Outcome, receive_job, work}

-- `NewGenerator` and `Start`.
abbrev pub new_generator : String → Generator
new_generator dir = record {
  vault_dir = dir;
  jobs = [];
  worker = waiting;
  queued = [];
  failed = [];
  generations = [];
  generation_refs = [];
  vaults = [];
  resume_pending = [];
  stopped = false;
}

pub data ThumbCall : Type 0 where
  enqueues : String → String → Option VaultKeys → String → ℕ → Bool → ThumbCall
  receives : ThumbCall
  works : Outcome → ℕ → ThumbCall
  quiesces_thumbs : String → ThumbCall
  resumes_thumbs : String → ThumbCall
  forgets_thumbs : String → ThumbCall
  purges_caches : String → ThumbCall
  deletes_thumbnail : String → String → ThumbCall
  stops : ThumbCall

unfoldable pub step : Generator → ThumbCall → Generator
step g (enqueues v vault_path keys p now cached) = (try_enqueue g v vault_path keys p now cached).0
step g receives = receive_job g
step g (works outcome now) = work g outcome now
step g (quiesces_thumbs v) = quiesce_thumbs g v
step g (resumes_thumbs v) = resume_thumbs g v
step g (forgets_thumbs v) = forget_thumbs g v
step g (purges_caches v) = purge_vault_caches g v
step g (deletes_thumbnail v p) = delete_thumbnail g v p
step g stops = stop_thumbs g

unfoldable pub run_calls : Generator → List ThumbCall → Generator
run_calls g [] = g
run_calls g (c ∷ cs) = run_calls (step g c) cs
