-- ===== src/Thumb/Observe.antt =====
-- What the calls of the thumbnail generator change of a vault's lifecycle.
use Prim.Native.String.{String}
use cryp.Prelude.{
  ◌≡◌, ℕ, length, Bool, false, ◌&&◌, not, none, some, refl, Option-cases, inl, inr, List, [], ◌∷◌,
  if◌then◌else◌, arith,
}
use cryp.GoMap.{str_eq, str_eq_iff, lookup, lookup-insert, lookup-remove}
use cryp.Thumb.{
  VaultLifecycle, Generator, lifecycle_of, set_lifecycle, is_idle, maybe_retire, purge_vault_caches,
}

-- The queued jobs that a vault counts, and its runs.
unfoldable pub pending_of : String → Generator → ℕ
pending_of v g = elim (lookup v g.vaults) [ none ↦ 0 | some state ↦ state.pending ]

unfoldable pub runs_of : String → Generator → ℕ
runs_of v g = elim (lookup v g.vaults) [ none ↦ 0 | some state ↦ length state.active ]

-- The ids of runs, and those of a vault's runs.
unfoldable pub run_ids : List (ℕ × Bool) → List ℕ
run_ids [] = []
run_ids ((id, cancelled) ∷ runs) = id ∷ run_ids runs

unfoldable pub ids_of : String → Generator → List ℕ
ids_of v g = elim (lookup v g.vaults) [ none ↦ [] | some state ↦ run_ids state.active ]

pub length-run_ids : (runs : List (ℕ × Bool)) → length (run_ids runs) ≡ length runs
unfolding run_ids
length-run_ids [] = refl
length-run_ids ((id, cancelled) ∷ runs) = ground (arith, length-run_ids runs)

pub length-ids_of : (v : String) (g : Generator) → length (ids_of v g) ≡ runs_of v g
unfolding ids_of runs_of
length-ids_of v g = elim (Option-cases (lookup v g.vaults)) [
  | inl none_there ↦ rw (none_there, ids_of, runs_of) refl
  | inr (state, found) ↦ rw (found, ids_of, runs_of) (length-run_ids state.active)
]

length-nothing : (ids : List ℕ) → length ids ≡ 0 → ids ≡ []
length-nothing [] h = refl
length-nothing (id ∷ ids) h = absurd (ground arith)

-- A vault that was used before and takes jobs.
unfoldable pub is_open : String → Generator → Bool
is_open v g = elim (lookup v g.vaults) [
  | none ↦ false
  | some state ↦ not state.quiescing && not state.retiring
]

-- A vault that waits to be resumed.
unfoldable pub is_barred : String → Generator → Bool
is_barred v g = elim (lookup v g.vaults) [
  | none ↦ false
  | some state ↦ state.quiescing && not state.retiring
]

module _ (v : String) (g : Generator) where
  pub pending_of-maybe_retire : (w : String) → pending_of v (maybe_retire g w) ≡ pending_of v g
  unfolding pending_of maybe_retire is_idle purge_vault_caches
  pending_of-maybe_retire w = ground (arith, lookup-remove w v g.vaults, str_eq_iff w v)

  pub runs_of-maybe_retire : (w : String) → runs_of v (maybe_retire g w) ≡ runs_of v g
  unfolding runs_of maybe_retire is_idle purge_vault_caches
  runs_of-maybe_retire w = ground (arith, lookup-remove w v g.vaults, str_eq_iff w v)

  pub ids_of-maybe_retire : (w : String) → ids_of v (maybe_retire g w) ≡ ids_of v g
  unfolding ids_of maybe_retire is_idle purge_vault_caches run_ids
  ids_of-maybe_retire w = elim (Option-cases (lookup w g.vaults)) [
    | inl none_there ↦ rw (none_there, maybe_retire) refl
    | inr (state, found) ↦ ground (
      arith,
      found,
      lookup-remove w v g.vaults,
      str_eq_iff w v,
      length-run_ids state.active,
      length-nothing (run_ids state.active),
    )
  ]

  pub is_open-maybe_retire :
      (w : String) → is_open v g ≡ false → is_open v (maybe_retire g w) ≡ false
  unfolding is_open maybe_retire is_idle purge_vault_caches
  is_open-maybe_retire w h = ground (arith, lookup-remove w v g.vaults, str_eq_iff w v)

  pub is_barred-maybe_retire : (w : String) → is_barred v (maybe_retire g w) ≡ is_barred v g
  unfolding is_barred maybe_retire is_idle purge_vault_caches
  is_barred-maybe_retire w = ground (arith, lookup-remove w v g.vaults, str_eq_iff w v)

  module _ (w : String) (state : VaultLifecycle) where
    pub pending_of-set_lifecycle :
        pending_of v (set_lifecycle g w state)
        ≡ (if str_eq w v then state.pending else pending_of v g)
    unfolding pending_of set_lifecycle
    pending_of-set_lifecycle = ground (arith, lookup-insert w v state g.vaults)

    pub runs_of-set_lifecycle :
        runs_of v (set_lifecycle g w state)
        ≡ (if str_eq w v then length state.active else runs_of v g)
    unfolding runs_of set_lifecycle
    runs_of-set_lifecycle = ground (arith, lookup-insert w v state g.vaults)

    pub ids_of-set_lifecycle :
        ids_of v (set_lifecycle g w state)
        ≡ (if str_eq w v then run_ids state.active else ids_of v g)
    unfolding ids_of set_lifecycle
    ids_of-set_lifecycle = ground (arith, lookup-insert w v state g.vaults)

    pub is_open-set_lifecycle :
        is_open v (set_lifecycle g w state)
        ≡ (if str_eq w v then not state.quiescing && not state.retiring else is_open v g)
    unfolding is_open set_lifecycle
    is_open-set_lifecycle = ground (arith, lookup-insert w v state g.vaults)

    pub is_barred-set_lifecycle :
        is_barred v (set_lifecycle g w state)
        ≡ (if str_eq w v then state.quiescing && not state.retiring else is_barred v g)
    unfolding is_barred set_lifecycle
    is_barred-set_lifecycle = ground (arith, lookup-insert w v state g.vaults)

  pub lifecycle_of-pending : (lifecycle_of g v).pending ≡ pending_of v g
  unfolding lifecycle_of pending_of
  lifecycle_of-pending = ground arith

  pub lifecycle_of-ids : run_ids (lifecycle_of g v).active ≡ ids_of v g
  unfolding lifecycle_of ids_of run_ids
  lifecycle_of-ids = ground arith

  pub lifecycle_of-active : length (lifecycle_of g v).active ≡ runs_of v g
  unfolding lifecycle_of runs_of
  lifecycle_of-active = ground arith
