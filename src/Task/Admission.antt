-- ===== src/Task/Admission.antt =====
-- Both outcomes of the admission of a background task.
use Prim.Native.String.{String}
use cryp.Prelude.{◌+◌, ◌≡◌, refl, true, false, some, arith, ok, err}
use cryp.GoMap.{str_eq, str_eq_iff, lookup, lookup-insert}
use cryp.Crypto.Keys.{VaultKeys, zero_keys}
use cryp.Task.{
  TaskError, TaskRecord, Database, RunningTask, Manager, has_key, admit_background_task,
}

module _ (database : Database) where
  -- An admission that fails wipes the keys of the worker and leaves the running tasks, the
  -- slots and the count of workers as they were.
  pub admit_fails :
      (m m' : Manager database.D) (id v : String) (t : TaskRecord) (keys owned : VaultKeys)
      (e : TaskError)
      → admit_background_task database m id v t keys ≡ (m', owned, err e)
      → (owned ≡ zero_keys keys)
        × (m'.running ≡ m.running)
        × (m'.running_by_vault_type ≡ m.running_by_vault_type)
        × (m'.wg ≡ m.wg)
  unfolding admit_background_task
  admit_fails m m' id v t keys owned e h = (ground arith, ground arith, ground arith, ground arith)

  -- An admission that succeeds happens only in a manager that is not shut down, for a vault
  -- that is not being removed; the worker gets the keys and is counted, and its task runs in
  -- that vault.
  pub admit_succeeds :
      (m m' : Manager database.D) (id v : String) (t : TaskRecord) (keys owned : VaultKeys)
      → admit_background_task database m id v t keys ≡ (m', owned, ok tt)
      → (m.closed ≡ false)
        × (has_key v m.quiescing_vaults ≡ false)
        × (owned ≡ keys)
        × (m'.wg ≡ m.wg + 1)
        × (lookup id m'.running ≡ some (record { vault_id = v; cancelled = false }))
  unfolding admit_background_task
  admit_succeeds m m' id v t keys owned h =
      let r : RunningTask = record { vault_id = v; cancelled = false } in
      let here = lookup-insert id id r m.running in
      let self : str_eq id id ≡ true = (str_eq_iff id id).1 refl in
      (ground arith, ground arith, ground arith, ground arith, ground (arith, here, self))
