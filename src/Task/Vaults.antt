-- ===== src/Task/Vaults.antt =====
-- The tests on the maps of the task manager after an insertion, a removal and a cancellation.
use Prim.Native.String.{String}
use cryp.Prelude.{◌≡◌, refl, Bool, false, ◌||◌, ◌&&◌, not, some, List, [], ◌∷◌, arith}
use cryp.GoMap.{str_eq, lookup, insert, remove, lookup-insert, lookup-remove}
use cryp.Task.{RunningTask, has_key, has_run, cancel_runs}

pub has_key-insert :
    {V : Type 0} (k j : String) (x : V) (m : List (String × V))
    → has_key k (insert j x m) ≡ (str_eq j k || has_key k m)
unfolding has_key
has_key-insert k j x m = ground (arith, lookup-insert j k x m)

pub has_key-remove :
    {V : Type 0} (k j : String) (m : List (String × V))
    → has_key k (remove j m) ≡ (not (str_eq j k) && has_key k m)
unfolding has_key
has_key-remove k j m = ground (arith, lookup-remove j k m)

module _ (v : String) where
  pub has_run-insert :
      (id : String) (run : RunningTask) (m : List (String × RunningTask))
      → str_eq run.vault_id v ≡ false
      → has_run v m ≡ false
      → has_run v (insert id run m) ≡ false
  unfolding has_run insert
  has_run-insert id run [] other none_there = ground arith
  has_run-insert id run ((j, r) ∷ m) other none_there =
      ground (arith, has_run-insert id run m other)

  pub has_run-remove :
      (id : String) (m : List (String × RunningTask))
      → has_run v m ≡ false
      → has_run v (remove id m) ≡ false
  unfolding has_run remove
  has_run-remove id [] none_there = refl
  has_run-remove id ((j, r) ∷ m) none_there = ground (arith, has_run-remove id m)

  pub has_run-cancel_runs :
      (hit : RunningTask → Bool) (m : List (String × RunningTask))
      → has_run v (cancel_runs hit m) ≡ has_run v m
  unfolding has_run cancel_runs
  has_run-cancel_runs hit [] = refl
  has_run-cancel_runs hit ((j, r) ∷ m) = ground (arith, has_run-cancel_runs hit m)

  pub has_run-lookup :
      (id : String) (run : RunningTask) (m : List (String × RunningTask))
      → has_run v m ≡ false
      → lookup id m ≡ some run
      → str_eq run.vault_id v ≡ false
  unfolding has_run lookup
  has_run-lookup id run [] none_there found = absurd (ground arith)
  has_run-lookup id run ((j, r) ∷ m) none_there found = ground (arith, has_run-lookup id run m)
