-- ===== src/Task/Entries.antt =====
-- The tasks and starters of a vault after an insertion, a removal and a cancellation.
use Prim.Native.String.{String}
use cryp.Prelude.{
  ◌≡◌, refl, subst, Bool, false, ◌||◌, none, some, Bool-cases, inl, inr, List, [], ◌∷◌, arith,
}
use cryp.GoMap.{str_eq, str_eq_iff, lookup, insert, remove, IsMap, Every, lookup_missing}
use cryp.Task.{RunningTask, has_run, has_start, cancel_runs}

-- A new entry, and the removal of an entry of another vault or of a missing one.
module _ (v : String) where
  pub has_start-new :
      (id w : String) (m : List (String × String))
      → lookup id m ≡ none
      → has_start v (insert id w m) ≡ (str_eq w v || has_start v m)
  unfolding has_start insert lookup
  has_start-new id w [] absent = ground arith
  has_start-new id w ((j, u) ∷ m) absent = ground (arith, has_start-new id w m)

  pub has_run-new :
      (id : String) (run : RunningTask) (m : List (String × RunningTask))
      → lookup id m ≡ none
      → has_run v (insert id run m) ≡ (str_eq run.vault_id v || has_run v m)
  unfolding has_run insert lookup
  has_run-new id run [] absent = ground arith
  has_run-new id run ((j, r) ∷ m) absent = ground (arith, has_run-new id run m)

  pub has_run-same :
      (id : String) (run new : RunningTask) (m : List (String × RunningTask))
      → lookup id m ≡ some run
      → new.vault_id ≡ run.vault_id
      → has_run v (insert id new m) ≡ has_run v m
  unfolding has_run insert lookup
  has_run-same id run new [] found e = absurd (ground arith)
  has_run-same id run new ((j, r) ∷ m) found e = ground (arith, has_run-same id run new m)

  pub has_start-absent :
      (id : String) (m : List (String × String))
      → lookup id m ≡ none
      → has_start v (remove id m) ≡ has_start v m
  unfolding has_start remove lookup
  has_start-absent id [] absent = refl
  has_start-absent id ((j, u) ∷ m) absent = ground (arith, has_start-absent id m)

  pub has_run-absent :
      (id : String) (m : List (String × RunningTask))
      → lookup id m ≡ none
      → has_run v (remove id m) ≡ has_run v m
  unfolding has_run remove lookup
  has_run-absent id [] absent = refl
  has_run-absent id ((j, r) ∷ m) absent = ground (arith, has_run-absent id m)

  pub has_start-other :
      (id w : String) (m : List (String × String))
      → IsMap m
      → lookup id m ≡ some w
      → str_eq w v ≡ false
      → has_start v (remove id m) ≡ has_start v m
  unfolding has_start remove lookup
  has_start-other id w [] h found other = absurd (ground arith)
  has_start-other id w ((j, u) ∷ m) h found other = elim (Bool-cases (str_eq j id)) [
    | inl same ↦
        let key : j ≡ id = (str_eq_iff j id).0 same in
        let absent : lookup id m ≡ none =
          subst (λ (k : String). lookup k m ≡ none) key (lookup_missing j m h.0) in
        ground (arith, same, has_start-absent id m absent)
    | inr different ↦
        ground (arith, different, has_start-other id w m h.1 (ground (arith, different)) other)
  ]

  pub has_run-other :
      (id : String) (run : RunningTask) (m : List (String × RunningTask))
      → IsMap m
      → lookup id m ≡ some run
      → str_eq run.vault_id v ≡ false
      → has_run v (remove id m) ≡ has_run v m
  unfolding has_run remove lookup
  has_run-other id run [] h found other = absurd (ground arith)
  has_run-other id run ((j, r) ∷ m) h found other = elim (Bool-cases (str_eq j id)) [
    | inl same ↦
        let key : j ≡ id = (str_eq_iff j id).0 same in
        let absent : lookup id m ≡ none =
          subst (λ (k : String). lookup k m ≡ none) key (lookup_missing j m h.0) in
        ground (arith, same, has_run-absent id m absent)
    | inr different ↦
        ground (arith, different, has_run-other id run m h.1 (ground (arith, different)) other)
  ]

Every-cancel_runs :
    (j : String) (hit : RunningTask → Bool) (m : List (String × RunningTask))
    → Every (λ i _. str_eq i j ≡ false) m
    → Every (λ i _. str_eq i j ≡ false) (cancel_runs hit m)
unfolding cancel_runs
Every-cancel_runs j hit [] h = tt
Every-cancel_runs j hit ((i, r) ∷ m) h = (h.0, Every-cancel_runs j hit m h.1)

pub IsMap-cancel_runs :
    (hit : RunningTask → Bool) (m : List (String × RunningTask))
    → IsMap m
    → IsMap (cancel_runs hit m)
unfolding cancel_runs
IsMap-cancel_runs hit [] h = tt
IsMap-cancel_runs hit ((j, r) ∷ m) h = (Every-cancel_runs j hit m h.0, IsMap-cancel_runs hit m h.1)
