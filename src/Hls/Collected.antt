-- ===== src/Hls/Collected.antt =====
-- Deletion, shutdown and the replacement of files: the targets that are collected for a vault or a path
-- are all that there is of it.
use Prim.Native.String.{String}
use cryp.Prelude.{
  ◌≡◌, refl, ◌==◌, length, codes, Bool, true, false, ◌&&◌, ◌||◌, not, some, List, [], ◌∷◌, All, map,
  if◌then◌else◌, arith,
}
use cryp.GoMap.{str_eq, str_eq_iff, lookup, Every}
use cryp.GoText.{Text}
use cryp.GoPath.{is_dot, is_rooted, clean}
use cryp.Crypto.Names.Index.{normalize_index_path}
use cryp.Hls.{
  HlsKey, Owners, OwnerRefs, Release, HlsPending, HlsStream, HlsState, no_streams, in_place,
  each_stream, release_owner,
}
use cryp.Hls.Stop.{
  HlsStopTargets, collect_where, pending_targets, stream_targets, release_all, leave_pending,
  leave_stream, mark_stream, leave_pending_if, leave_stream_if, collect_all_hls_stop_targets,
  pending_of_vault, stream_of_vault, pending_of_path, stream_of_path, path_matches, stream_path,
  hls_path_within, collect_hls_stop_targets, stop_hls_for_path, one_of, targets_done,
}
use cryp.Hls.Calls.{HlsCall, stops_vault, stops_path, hls_step, hls_calls, AreFair}
use cryp.Hls.Sane.{IsKeyed, IsKeyedAt, IsSane}
use cryp.Hls.Reachable.{hls_step-IsSane, hls_calls-IsSane, no_streams-IsSane}
use cryp.Hls.Barrier.{KeepsLock, IsDying, IsTarget, IsStopping, nothing_left, hls_calls-IsStopping}

-- Tests that catch every start and every stream under some keys, and a leaving that stops at once.
module _ (stopped : HlsKey → Bool) (of_pending : HlsPending → Bool)
    (of_stream : String → HlsStream → Bool) (leave : Owners → OwnerRefs → Release)
    (catches : (p : HlsPending) → stopped p.key ≡ true → of_pending p ≡ true)
    (catches_stream : (id : String) (t : HlsStream)
      → IsKeyed t
      → stopped t.key ≡ true
      → of_stream id t ≡ true)
    (at_once : (owners : Owners) (refs : OwnerRefs) → (leave owners refs).last ≡ true) where
  abbrev Within : List String → List String → Type 0
  Within ids targets = (id : String) → one_of id ids ≡ true → one_of id targets ≡ true

  dying :
      (targets : HlsStopTargets) (ps : List HlsPending)
      → Within (pending_targets of_pending of_stream leave ps) targets.pending
      → All (IsDying stopped targets) (map (leave_pending_if of_pending of_stream leave) ps)
  unfolding pending_targets leave_pending one_of
  dying targets [] sub = tt
  dying targets (p ∷ ps) sub =
      let once = at_once p.owners p.owner_refs in
      let same = (str_eq_iff p.stream_id p.stream_id).1 refl in
      (
        λ at.
            let caught : of_pending p ≡ true = catches p (ground (arith, at)) in
            (
              ground (arith, caught, once),
              rw caught (sub p.stream_id (ground (arith, caught, once, same))),
            ),
        dying targets ps (λ id e. sub id (ground (arith, e))),
      )

  hit :
      (targets : HlsStopTargets) (m : List (String × HlsStream))
      → Every IsKeyedAt m
      → Within (stream_targets of_pending of_stream leave m) targets.streams
      → Every
          (IsTarget stopped targets)
          (each_stream (leave_stream_if of_pending of_stream leave) m)
  unfolding stream_targets leave_stream mark_stream each_stream one_of
  hit targets [] k sub = tt
  hit targets ((id, t) ∷ m) k sub =
      let once = at_once t.owners t.owner_refs in
      let same = (str_eq_iff id id).1 refl in
      (
        λ at.
            let caught : of_stream id t ≡ true = catches_stream id t k.0 (ground (arith, at)) in
            sub id (ground (arith, caught, once, same)),
        hit targets m k.1 (λ j e. sub j (ground (arith, e))),
      )

  pub collect_where-IsStopping :
      (s : HlsState)
      → IsSane s
      → s.life_held ≡ true
      → IsStopping stopped
          (collect_where of_pending of_stream leave s).1
          (collect_where of_pending of_stream leave s).0
  unfolding collect_where in_place
  collect_where-IsStopping s a locked =
      let targets = (collect_where of_pending of_stream leave s).1 in
      record {
        held = locked;
        dying = dying targets s.hls_pending (λ id e. e);
        hit = hit targets s.hls a.streams (λ id e. e);
      }

-- Nothing with such a key is left.
abbrev pub IsFreeOf : (HlsKey → Bool) → HlsState → Type 0
IsFreeOf stopped s =
    All (λ p. stopped p.key ≡ false) s.hls_pending
    × ((id : String) (t : HlsStream) → lookup id s.hls ≡ some t → stopped t.key ≡ false)

abbrev pub in_vault : String → HlsKey → Bool
in_vault v k = str_eq v "" || str_eq k.vault_id v

abbrev pub below_path : String → Text → HlsKey → Bool
below_path v path k = str_eq k.vault_id v && hls_path_within path k.virtual_path

rooted_not_empty :
    (c : Text)
    → (length (if is_dot c then codes "/" else if not (is_rooted c) then 47 ∷ c else c) == 0)
      ≡ false
unfolding is_rooted
rooted_not_empty [] = ground arith
rooted_not_empty (d ∷ ds) = ground arith

not_empty : (path : Text) → (length (normalize_index_path path) == 0) ≡ false
unfolding normalize_index_path
not_empty path = rooted_not_empty (clean path)

module _ (s : HlsState) (a : IsSane s) (locked : s.life_held ≡ true) where
  stops_vault-IsStopping :
      (v : String)
      → IsStopping
          (in_vault v)
          (collect_all_hls_stop_targets s v).1
          (collect_all_hls_stop_targets s v).0
  unfolding collect_all_hls_stop_targets
  stops_vault-IsStopping v =
      collect_where-IsStopping (in_vault v) (pending_of_vault v) (stream_of_vault v) release_all
        (λ p at. at) (λ id t k at. rw k.vault at) (λ owners refs. refl) s a locked

  stops_path-IsStopping :
      (v : String) (path : Text)
      → (length path == 0) ≡ false
      → IsStopping
          (below_path v (normalize_index_path path))
          (stop_hls_for_path s v path).1
          (stop_hls_for_path s v path).0
  unfolding stop_hls_for_path collect_hls_stop_targets release_owner path_matches stream_path
  stops_path-IsStopping v path there =
      let root = normalize_index_path path in
      let once : (owners : Owners) (refs : OwnerRefs) → (release_owner "" owners refs).last ≡ true =
        λ owners refs. refl in
      rw (there, not_empty path, stop_hls_for_path, collect_hls_stop_targets)
        (collect_where-IsStopping (below_path v root) (pending_of_path v root true)
          (stream_of_path v root true) (release_owner "") (λ p at. at)
          (λ id t k at. ground (arith, at, k.vault, k.path)) once s a locked)

-- From any reachable state in which the write side of hlsLifeMu is held, when everything is
-- collected that stopHLSForVault stops (of all vaults for the empty id, as Shutdown does), and
-- after any calls that do not give the lock back all targets are done, no start of the vault is
-- pending and no stream of it is in the map. Drawn stream ids are new and requests carry a
-- session id.
pub stopped_vault_is_free :
    (before after : List HlsCall) (v : String)
    → AreFair no_streams before
    → (hls_calls no_streams before).life_held ≡ true
    → All KeepsLock after
    → AreFair (collect_all_hls_stop_targets (hls_calls no_streams before) v).0 after
    → targets_done
        (hls_calls (collect_all_hls_stop_targets (hls_calls no_streams before) v).0 after)
        (collect_all_hls_stop_targets (hls_calls no_streams before) v).1
      ≡ true
    → IsFreeOf
        (in_vault v)
        (hls_calls (collect_all_hls_stop_targets (hls_calls no_streams before) v).0 after)
unfolding hls_step
stopped_vault_is_free before after v fair locked keeps later done =
    let s = hls_calls no_streams before in
    let a = hls_calls-IsSane no_streams before no_streams-IsSane fair in
    let first : IsSane (collect_all_hls_stop_targets s v).0 =
      hls_step-IsSane s a (stops_vault v) tt in
    let targets = (collect_all_hls_stop_targets s v).1 in
    let s1 = (collect_all_hls_stop_targets s v).0 in
    nothing_left (in_vault v) targets (hls_calls s1 after)
      (hls_calls-IsStopping (in_vault v) targets s1 after (stops_vault-IsStopping s a locked v)
        keeps first later)
      (hls_calls-IsSane s1 after first later) done

-- From any reachable state in which the write side of hlsLifeMu is held, when the streams at a
-- path that is not empty and below it are collected as stopHLSForPath does, and after any calls
-- that do not give the lock back all targets are done, no start and no stream at or below the
-- path is left in the vault. Drawn stream ids are new and requests carry a session id.
pub stopped_path_is_free :
    (before after : List HlsCall) (v : String) (path : Text)
    → (length path == 0) ≡ false
    → AreFair no_streams before
    → (hls_calls no_streams before).life_held ≡ true
    → All KeepsLock after
    → AreFair (stop_hls_for_path (hls_calls no_streams before) v path).0 after
    → targets_done
        (hls_calls (stop_hls_for_path (hls_calls no_streams before) v path).0 after)
        (stop_hls_for_path (hls_calls no_streams before) v path).1
      ≡ true
    → IsFreeOf
        (below_path v (normalize_index_path path))
        (hls_calls (stop_hls_for_path (hls_calls no_streams before) v path).0 after)
unfolding hls_step
stopped_path_is_free before after v path there fair locked keeps later done =
    let s = hls_calls no_streams before in
    let a = hls_calls-IsSane no_streams before no_streams-IsSane fair in
    let first : IsSane (stop_hls_for_path s v path).0 =
      hls_step-IsSane s a (stops_path v path) tt in
    let targets = (stop_hls_for_path s v path).1 in
    let s1 = (stop_hls_for_path s v path).0 in
    let stopped = below_path v (normalize_index_path path) in
    nothing_left stopped targets (hls_calls s1 after)
      (hls_calls-IsStopping stopped targets s1 after (stops_path-IsStopping s a locked v path there)
        keeps first later)
      (hls_calls-IsSane s1 after first later) done
