-- ===== src/Hls/Moves.antt =====
-- The calls that change pending starts and streams in place.
use Prim.Native.String.{String}
use cryp.Prelude.{
  ◌≡◌, refl, ap, ℕ, ◌==◌, length, Bool, true, false, not, List, [], ◌∷◌, map, by_if, Option-cases,
  inl, inr,
}
use cryp.GoMap.{str_eq, lookup}
use cryp.GoText.{Text}
use cryp.Hls.{
  deadline_exceeded, canceled, Owners, OwnerRefs, Release, HlsPending, HlsStream, HlsState,
  each_stream, in_place,
}
use cryp.Hls.Stop.{
  collect_where, collect_hls_stop_targets, collect_all_hls_stop_targets, collect_hls_owner_targets,
  cancel_hls_stop_targets, release_hls_start_owner, stop_hls_for_path, stop_hls_for_owner,
  handle_hls_stop, one_of,
}
use cryp.Hls.Cleanup.{idle_tick, may_see, handle_hls_asset}
use cryp.Hls.Calls.{
  HlsCall, starts_hls, disconnects, times_out, reports, stops_hls, stops_vault, stops_path,
  stops_owner, cancels_targets, sees_asset, ticks, finishes, retires, removes_dir, locks_life,
  unlocks_life, closes, time_out, hls_step,
}
use cryp.Hls.Shape.{IsGentle, IsGentleStream}
use cryp.Hls.Gentle.{
  IsCareful, release_owner-IsCareful, drop_owner-IsCareful, release_all-IsCareful, IsGentle-id,
  IsGentleStream-id, leave_pending_if-IsGentle, leave_stream_if-IsGentleStream,
  set_ctx_error-IsGentle, cancelled-IsGentleStream, see_stream-IsGentleStream,
  stop_if_idle-IsGentleStream,
}

-- A state comes from another by gentle changes in place.
pub record IsMoved (s s2 : HlsState) : Type 0 where
  pub change : HlsPending → HlsPending
  pub change_stream : String → HlsStream → HlsStream
  pub gentle : IsGentle change
  pub gentle_stream : IsGentleStream change_stream
  pub same : s2 ≡ in_place change change_stream s

map_id : (ps : List HlsPending) → map (λ p. p) ps ≡ ps
map_id [] = refl
map_id (p ∷ ps) = ap (◌∷◌ p) (map_id ps)

each_stream_id : (m : List (String × HlsStream)) → each_stream (λ _ t. t) m ≡ m
unfolding each_stream
each_stream_id [] = refl
each_stream_id ((id, t) ∷ m) = ap (◌∷◌ (id, t)) (each_stream_id m)

module _ (s : HlsState) where
  abbrev MovedResult {ℓ} : {A : Type ℓ} → HlsState × A → Type 0
  MovedResult r = IsMoved s r.0

  IsMoved-refl : IsMoved s s
  unfolding in_place
  IsMoved-refl = record {
    change = λ p. p;
    change_stream = λ _ t. t;
    gentle = IsGentle-id;
    gentle_stream = IsGentleStream-id;
    same = rw (map_id s.hls_pending, each_stream_id s.hls) refl;
  }

  in_place-IsMoved :
      (change : HlsPending → HlsPending) (change_stream : String → HlsStream → HlsStream)
      → IsGentle change
      → IsGentleStream change_stream
      → IsMoved s (in_place change change_stream s)
  in_place-IsMoved change change_stream h k = record {
    change = change;
    change_stream = change_stream;
    gentle = h;
    gentle_stream = k;
    same = refl;
  }

  collect_where-IsMoved :
      (of_pending : HlsPending → Bool) (of_stream : String → HlsStream → Bool)
      (leave : Owners → OwnerRefs → Release)
      → IsCareful leave
      → IsMoved s (collect_where of_pending of_stream leave s).0
  unfolding collect_where
  collect_where-IsMoved of_pending of_stream leave careful =
      in_place-IsMoved _ _ (leave_pending_if-IsGentle leave careful of_pending of_stream)
        (leave_stream_if-IsGentleStream leave careful of_pending of_stream)

  collect_hls_stop_targets-IsMoved :
      (v owner id : String) (path : Text) (descendants : Bool)
      → IsMoved s (collect_hls_stop_targets s v owner id path descendants).0
  unfolding collect_hls_stop_targets
  collect_hls_stop_targets-IsMoved v owner id path descendants =
      by_if MovedResult (not (str_eq id ""))
        (collect_where-IsMoved _ _ _ (release_owner-IsCareful owner))
        (by_if MovedResult (length path == 0) IsMoved-refl
          (collect_where-IsMoved _ _ _ (release_owner-IsCareful owner)))

  handle_hls_asset-IsMoved :
      (v owner id : String) (now : ℕ) → IsMoved s (handle_hls_asset s v owner id now).0
  unfolding handle_hls_asset
  handle_hls_asset-IsMoved v owner id now = elim (Option-cases (lookup id s.hls)) [
    | inl nobody ↦ rw (nobody, handle_hls_asset) IsMoved-refl
    | inr (t, found) ↦
        rw (found, handle_hls_asset)
          (by_if MovedResult (may_see v owner t)
            (in_place-IsMoved _ _ IsGentle-id (see_stream-IsGentleStream id now)) IsMoved-refl)
  ]

  -- Whether a call only changes in place.
  abbrev moves : HlsCall → Bool
  moves (disconnects v owner id) = true
  moves (times_out id) = true
  moves (stops_hls v owner id path) = true
  moves (stops_vault v) = true
  moves (stops_path v path) = true
  moves (stops_owner v owner) = true
  moves (cancels_targets targets) = true
  moves (sees_asset v owner id now) = true
  moves (ticks id now) = true
  moves _ = false

  pub hls_step-IsMoved : (c : HlsCall) → moves c ≡ true → IsMoved s (hls_step s c)
  unfolding hls_step release_hls_start_owner time_out handle_hls_stop collect_all_hls_stop_targets
      stop_hls_for_path stop_hls_for_owner collect_hls_owner_targets cancel_hls_stop_targets
      idle_tick
  hls_step-IsMoved (starts_hls active v path owner now drawn) h = absurd (cc)
  hls_step-IsMoved (disconnects v owner id) h =
      by_if MovedResult (str_eq owner "") IsMoved-refl
        (collect_hls_stop_targets-IsMoved v owner id [] false)
  hls_step-IsMoved (times_out id) h =
      in_place-IsMoved _ _ (set_ctx_error-IsGentle (λ p. str_eq p.stream_id id) deadline_exceeded)
        IsGentleStream-id
  hls_step-IsMoved (reports id outcome) h = absurd (cc)
  hls_step-IsMoved (stops_hls v owner id path) h =
      collect_hls_stop_targets-IsMoved v owner id _ false
  hls_step-IsMoved (stops_vault v) h = collect_where-IsMoved _ _ _ release_all-IsCareful
  hls_step-IsMoved (stops_path v path) h =
      by_if MovedResult (length path == 0) IsMoved-refl
        (collect_hls_stop_targets-IsMoved v "" "" _ true)
  hls_step-IsMoved (stops_owner v owner) h =
      by_if MovedResult (str_eq owner "") IsMoved-refl
        (collect_where-IsMoved _ _ _ (drop_owner-IsCareful owner))
  hls_step-IsMoved (cancels_targets targets) h =
      in_place-IsMoved _ _
        (set_ctx_error-IsGentle (λ p. one_of p.stream_id targets.pending) canceled)
        (cancelled-IsGentleStream (λ id. one_of id targets.streams))
  hls_step-IsMoved (sees_asset v owner id now) h = handle_hls_asset-IsMoved v owner id now
  hls_step-IsMoved (ticks id now) h =
      in_place-IsMoved _ _ IsGentle-id (stop_if_idle-IsGentleStream id now)
  hls_step-IsMoved (finishes id problem complete) h = absurd (cc)
  hls_step-IsMoved (retires id timer) h = absurd (cc)
  hls_step-IsMoved (removes_dir id) h = absurd (cc)
  hls_step-IsMoved locks_life h = absurd (cc)
  hls_step-IsMoved unlocks_life h = absurd (cc)
  hls_step-IsMoved closes h = absurd (cc)
