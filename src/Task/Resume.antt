-- ===== src/Task/Resume.antt =====
-- When a vault that was being removed is opened again.
use Prim.Native.String.{String}
use cryp.Prelude.{◌≡◌, refl, Bool, false, ◌||◌, ◌&&◌, not, none, Bool-cases, inl, inr, List, arith}
use cryp.GoMap.{str_eq, str_eq_iff, lookup, remove, lookup-remove}
use cryp.Task.{
  Database, RunningTask, Manager, has_key, has_run, has_start, maybe_resume_vault,
  release_exclusive_task, vault_of_run, finish_run,
}
use cryp.Task.Vaults.{has_key-remove}

module _ (database : Database) where
  abbrev State : Type 0
  State = Manager database.D

  -- Whether a vault stays closed once nobody holds it back but these.
  abbrev held_back : State → String → List (String × RunningTask) → Bool
  held_back m v running =
      not (has_key v m.resume_vaults)
      || m.closed
      || has_run v running
      || has_start v m.pending_starts

  maybe_lem :
      (m : State) (v : String)
      → has_key v (maybe_resume_vault m v).quiescing_vaults
        ≡ (has_key v m.quiescing_vaults && held_back m v m.running)
  unfolding maybe_resume_vault
  maybe_lem m v = ground (arith, has_key-remove v v m.quiescing_vaults, (str_eq_iff v v).1 refl)

  release_keeps :
      (m : State) (id v : String)
      → (has_key v (release_exclusive_task m id).quiescing_vaults ≡ has_key v m.quiescing_vaults)
        × (held_back (release_exclusive_task m id) v (release_exclusive_task m id).running
            ≡ held_back m v m.running)
  unfolding release_exclusive_task
  release_keeps m id v = (ground arith, ground arith)

  -- A task leaves the running ones with its slot, whatever its vault.
  unfoldable gone_from : (m : State) (id : String) → State
  gone_from m id = release_exclusive_task (record m { running = remove id m.running }) id

  maybe_keeps :
      (m : State) (v : String)
      → ((maybe_resume_vault m v).running ≡ m.running)
        × ((maybe_resume_vault m v).task_run_keys ≡ m.task_run_keys)
  unfolding maybe_resume_vault
  maybe_keeps m v = (ground arith, ground arith)

  maybe_other :
      (m : State) (v w : String)
      → str_eq w v ≡ false
      → has_key v (maybe_resume_vault m w).quiescing_vaults ≡ has_key v m.quiescing_vaults
  unfolding maybe_resume_vault
  maybe_other m v w other = ground (arith, other, has_key-remove v w m.quiescing_vaults)

  gone_shape :
      (m : State) (id : String)
      → ((gone_from m id).running ≡ remove id m.running)
        × (has_key id (gone_from m id).task_run_keys ≡ false)
  unfolding gone_from release_exclusive_task has_key
  gone_shape m id =
      (ground arith, ground (arith, lookup-remove id id m.task_run_keys, (str_eq_iff id id).1 refl))

  -- After finishRun for any task id, that task neither runs nor holds a slot. A vault counts as
  -- being removed exactly if it did before and one of these holds: its id is empty, it is not
  -- the vault that the task ran for, nobody asked to resume it, the manager is shut down, or
  -- another task or a starter of it is left.
  pub finish_run_lem :
      (m : State) (id v : String)
      → (lookup id (finish_run m id).running ≡ none)
        × (has_key id (finish_run m id).task_run_keys ≡ false)
        × (has_key v (finish_run m id).quiescing_vaults ≡ (
            has_key v m.quiescing_vaults
            && (str_eq v ""
                || not (str_eq (vault_of_run m id) v)
                || not (has_key v m.resume_vaults)
                || m.closed
                || has_run v (remove id m.running)
                || has_start v m.pending_starts)))
  unfolding finish_run gone_from
  finish_run_lem m id v =
      let gone : State = record m { running = remove id m.running } in
      let w = vault_of_run m id in
      let after = release_exclusive_task gone id in
      let shape = gone_shape m id in
      let kept = maybe_keeps after w in
      let keeps = release_keeps gone id v in
      let itself = (str_eq_iff id id).1 refl in
      (
        ground (arith, shape.0, kept.0, lookup-remove id id m.running, itself),
        ground (arith, shape.1, kept.1),
        elim (Bool-cases (str_eq w v)) [
          | inl same ↦
              let equal : w ≡ v = (str_eq_iff w v).0 same in
              ground (arith, equal, maybe_lem after v, keeps.0, keeps.1)
          | inr other ↦ ground (arith, other, maybe_other after v w other, keeps.0)
        ],
      )
