-- ===== src/Task/Exclusive.antt =====
-- The exclusive slots of the task manager: one task of each kind in each vault.
use Prim.Native.String.{String, ◌++◌}
use cryp.Prelude.{
  ◌≡◌, refl, sym, ap, ◌∙◌, true, Bool-cases, Option-cases, inl, inr, none, some, List, [], ◌∷◌,
  arith,
}
use cryp.GoMap.{
  str_eq, str_eq_iff, lookup, insert, remove, lookup-insert, lookup-remove, Every, Every-insert,
  Every-lookup,
}
use cryp.Task.{
  Database, Manager, has_key, begin_task_start, maybe_resume_vault, finish_task_start,
  reserve_exclusive_task, release_exclusive_task, finish_run, vault_of_run, worker_exits,
  cancel_task, quiesce_vault, resume_vault, forget_vault, shutdown, admit_background_task,
}
use cryp.Task.Calls.{
  Call, begins, finishes_start, reserves, releases, admits, finishes_run, exits, cancels, quiesces,
  resumes, forgets, shuts_down, step, run_calls,
}

-- Every task that holds a key is the one that the key leads to.
abbrev Held : List (String × String) → List (String × String) → Type 0
Held by_type = Every (λ id key. lookup key by_type ≡ some id)

Held-insert :
    (id key : String) (by_type keys : List (String × String))
    → lookup key by_type ≡ none
    → Held by_type keys
    → Held (insert key id by_type) keys
Held-insert id key by_type [] unused h = tt
Held-insert id key by_type ((j, k) ∷ keys) unused h =
    let kept : lookup k (insert key id by_type) ≡ some j = elim (Bool-cases (str_eq key k)) [
      | inl same ↦
          let equal : key ≡ k = (str_eq_iff key k).0 same in
          absurd (ground (arith, ap (λ (t : String). lookup t by_type) equal, unused, h.0))
      | inr other ↦ ground (arith, lookup-insert key k id by_type, other, h.0)
    ] in
    (kept, Held-insert id key by_type keys unused h.1)

Held-remove :
    (id key : String) (by_type keys : List (String × String))
    → lookup key by_type ≡ some id
    → Held by_type keys
    → Held (remove key by_type) (remove id keys)
unfolding remove
Held-remove id key by_type [] taken h = tt
Held-remove id key by_type ((j, k) ∷ keys) taken h = elim (Bool-cases (str_eq j id)) [
  | inl same ↦ rw same (Held-remove id key by_type keys taken h.1)
  | inr different ↦
      let kept : lookup k (remove key by_type) ≡ some j = elim (Bool-cases (str_eq key k)) [
        | inl same ↦
            let equal : key ≡ k = (str_eq_iff key k).0 same in
            let owner : j ≡ id =
              ground (arith, ap (λ (t : String). lookup t by_type) equal, taken, h.0) in
            absurd (ground (arith, (str_eq_iff j id).1 owner, different))
        | inr other ↦ ground (arith, lookup-remove key k by_type, other, h.0)
      ] in
      rw different (kept, Held-remove id key by_type keys taken h.1)
]

module _ (database : Database) where
  abbrev State : Type 0
  State = Manager database.D

  abbrev IsExclusive : State → Type 0
  IsExclusive m = Held m.running_by_vault_type m.task_run_keys

  -- The slots of two states are the same.
  abbrev SameSlots : State → State → Type 0
  SameSlots m n =
      (m.running_by_vault_type ≡ n.running_by_vault_type) × (m.task_run_keys ≡ n.task_run_keys)

  moved : (m n : State) → SameSlots m n → IsExclusive m → IsExclusive n
  moved m n same h = rw (← same.0, ← same.1) h

  maybe_same : (m : State) (w : String) → SameSlots m (maybe_resume_vault m w)
  unfolding maybe_resume_vault
  maybe_same m w = (ground arith, ground arith)

  finish_start_same : (m : State) (id : String) → SameSlots m (finish_task_start m id)
  unfolding finish_task_start
  finish_start_same m id = elim (Option-cases (lookup id m.pending_starts)) [
    | inl none_there ↦ rw (none_there, finish_task_start) (refl, refl)
    | inr (w, found) ↦ rw (found, finish_task_start) (maybe_same _ w)
  ]

  reserve-IsExclusive :
      (m : State) (id w kind : String)
      → IsExclusive m
      → IsExclusive (reserve_exclusive_task m id w kind).0
  unfolding reserve_exclusive_task
  reserve-IsExclusive m id w kind h =
      let key = w ++ (":" ++ kind) in
      elim (Option-cases (lookup key m.running_by_vault_type)) [
        | inr (other, taken) ↦
            moved m (reserve_exclusive_task m id w kind).0
              (ground (arith, taken), ground (arith, taken)) h
        | inl unused ↦
            let same : str_eq key key ≡ true = (str_eq_iff key key).1 refl in
            let own : lookup key (insert key id m.running_by_vault_type) ≡ some id =
              ground (arith, lookup-insert key key id m.running_by_vault_type, same) in
            let later : Held (insert key id m.running_by_vault_type)
                (insert id key m.task_run_keys) =
              Every-insert (λ i k. lookup k (insert key id m.running_by_vault_type) ≡ some i) id key
                m.task_run_keys own (Held-insert id key _ _ unused h) in
            elim (Bool-cases m.closed) [
              | inl shut ↦ rw (shut, reserve_exclusive_task) h
              | inr opened ↦ elim (Bool-cases (has_key w m.quiescing_vaults)) [
                | inl blocked ↦ rw (opened, blocked, reserve_exclusive_task) h
                | inr free ↦ rw (opened, free, unused, reserve_exclusive_task) later
              ]
            ]
      ]

  release-IsExclusive :
      (m : State) (id : String) → IsExclusive m → IsExclusive (release_exclusive_task m id)
  unfolding release_exclusive_task
  release-IsExclusive m id h = elim (Option-cases (lookup id m.task_run_keys)) [
    | inl nothing ↦ rw (nothing, release_exclusive_task) h
    | inr (key, found) ↦
        rw (found, release_exclusive_task)
          (Held-remove id key m.running_by_vault_type m.task_run_keys
            (Every-lookup (λ i k. lookup k m.running_by_vault_type ≡ some i) id m.task_run_keys key
              h found)
            h)
  ]

  finish_run-IsExclusive : (m : State) (id : String) → IsExclusive m → IsExclusive (finish_run m id)
  unfolding finish_run
  finish_run-IsExclusive m id h =
      let after = release_exclusive_task (record m { running = remove id m.running }) id in
      let released = release-IsExclusive (record m { running = remove id m.running }) id h in
      elim (Bool-cases (str_eq (vault_of_run m id) "")) [
        | inl nobody ↦ rw (nobody, finish_run) released
        | inr somebody ↦
            rw (somebody, finish_run)
              (moved after (maybe_resume_vault after (vault_of_run m id))
                (maybe_same after (vault_of_run m id)) released)
      ]

  step-IsExclusive : (m : State) (c : Call) → IsExclusive m → IsExclusive (step database m c)
  unfolding step worker_exits begin_task_start admit_background_task cancel_task quiesce_vault
      resume_vault forget_vault shutdown
  step-IsExclusive m (begins id w) h =
      moved m (begin_task_start m id w).0 (ground arith, ground arith) h
  step-IsExclusive m (finishes_start id) h =
      moved m (finish_task_start m id) (finish_start_same m id) h
  step-IsExclusive m (reserves id w kind) h = reserve-IsExclusive m id w kind h
  step-IsExclusive m (releases id) h = release-IsExclusive m id h
  step-IsExclusive m (admits id w t keys) h =
      moved m (admit_background_task database m id w t keys).0 (ground arith, ground arith) h
  step-IsExclusive m (finishes_run id) h = finish_run-IsExclusive m id h
  step-IsExclusive m exits h = h
  step-IsExclusive m (cancels id) h = moved m (cancel_task m id).0 (ground arith, ground arith) h
  step-IsExclusive m (quiesces w) h = moved m (quiesce_vault m w).0 (ground arith, ground arith) h
  step-IsExclusive m (resumes w) h = moved m (resume_vault m w) (ground arith, ground arith) h
  step-IsExclusive m (forgets w) h = moved m (forget_vault m w) (ground arith, ground arith) h
  step-IsExclusive m shuts_down h = moved m (shutdown m) (ground arith, ground arith) h

  run_calls-IsExclusive :
      (m : State) (cs : List Call) → IsExclusive m → IsExclusive (run_calls database m cs)
  unfolding run_calls
  run_calls-IsExclusive m [] h = h
  run_calls-IsExclusive m (c ∷ cs) h =
      run_calls-IsExclusive (step database m c) cs (step-IsExclusive m c h)

  -- From a manager without reservations, after any sequence of calls, two tasks that hold the
  -- slot of one vault and kind are the same task, and the slot names it.
  pub slot_exclusive :
      (m : State) (cs : List Call) (i j key : String)
      → m.task_run_keys ≡ []
      → lookup i (run_calls database m cs).task_run_keys ≡ some key
      → lookup j (run_calls database m cs).task_run_keys ≡ some key
      → (i ≡ j) × (lookup key (run_calls database m cs).running_by_vault_type ≡ some i)
  slot_exclusive m cs i j key fresh hi hj =
      let start : IsExclusive m = rw fresh tt in
      let h = run_calls-IsExclusive m cs start in
      let by_type = (run_calls database m cs).running_by_vault_type in
      let ei = Every-lookup (λ a k. lookup k by_type ≡ some a) i _ key h hi in
      let ej = Every-lookup (λ a k. lookup k by_type ≡ some a) j _ key h hj in
      (ground (arith, sym ei ∙ ej), ei)
