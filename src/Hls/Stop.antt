-- ===== src/Hls/Stop.antt =====
-- The end of streams on request: `handleHLSStop`, the collection of its targets, the replacement of
-- files and `Shutdown`.
use Prim.Native.String.{String}
use cryp.Prelude.{
  ◌==◌, length, Bool, true, false, ◌&&◌, ◌||◌, not, none, some, List, [], ◌∷◌, if◌then◌else◌,
}
use cryp.GoMap.{str_eq}
use cryp.GoText.{Text, text_eq}
use cryp.GoPath.{is_below}
use cryp.Crypto.Names.Index.{is_root, normalize_index_path}
use cryp.Task.{has_key}
use cryp.Hls.{
  HlsError, canceled, Owners, OwnerRefs, Release, HlsPending, HlsStream, HlsState, in_place,
  release_owner, drop_owner,
}
use cryp.Hls.Start.{is_zero_key}

-- `hlsStopTargets`, by the stream ids.
pub record HlsStopTargets : Type 0 where
  pub pending : List String
  pub streams : List String

-- `markStream`.
unfoldable pub mark_stream : HlsStream → HlsStream
mark_stream stream =
    if stream.stop_requested
    then stream
    else record stream { stop_requested = true; stop_closed = true }

-- An owner leaves a pending start or a stream, which is marked if nobody is left.
unfoldable pub leave_pending : (Owners → OwnerRefs → Release) → HlsPending → HlsPending
leave_pending leave p =
    let r = leave p.owners p.owner_refs in
    record p {
      owners = r.owners;
      owner_refs = r.owner_refs;
      stop_requested = r.last || p.stop_requested;
    }

unfoldable pub leave_stream : (Owners → OwnerRefs → Release) → HlsStream → HlsStream
leave_stream leave stream =
    let r = leave stream.owners stream.owner_refs in
    let left = record stream { owners = r.owners; owner_refs = r.owner_refs } in
    if r.last then mark_stream left else left

-- The loops over the pending starts and the streams, with the test for each and the way in which an
-- owner leaves.
module _ (of_pending : HlsPending → Bool) (of_stream : String → HlsStream → Bool)
    (leave : Owners → OwnerRefs → Release) where
  unfoldable pub pending_targets : List HlsPending → List String
  pending_targets [] = []
  pending_targets (p ∷ ps) =
      let rest = pending_targets ps in
      if of_pending p && (leave p.owners p.owner_refs).last then p.stream_id ∷ rest else rest

  unfoldable pub stream_targets : List (String × HlsStream) → List String
  stream_targets [] = []
  stream_targets ((id, stream) ∷ others) =
      let rest = stream_targets others in
      if of_stream id stream && (leave stream.owners stream.owner_refs).last
      then id ∷ rest
      else rest

  abbrev pub leave_pending_if : HlsPending → HlsPending
  leave_pending_if p = if of_pending p then leave_pending leave p else p

  abbrev pub leave_stream_if : String → HlsStream → HlsStream
  leave_stream_if id stream = if of_stream id stream then leave_stream leave stream else stream

  unfoldable pub collect_where : HlsState → HlsState × HlsStopTargets
  collect_where s = (
    in_place leave_pending_if leave_stream_if s,
    record { pending = pending_targets s.hls_pending; streams = stream_targets s.hls },
  )

abbrev pub no_targets : HlsStopTargets
no_targets = record { pending = []; streams = [] }

-- `hlsPathWithin`.
unfoldable pub hls_path_within : Text → Text → Bool
hls_path_within root candidate =
    let top = normalize_index_path root in
    let path = normalize_index_path candidate in if is_root top then true else is_below top path

-- `pathMatches`.
unfoldable pub path_matches : Bool → Text → Text → Bool
path_matches descendants virtual_path candidate =
    if descendants then hls_path_within virtual_path candidate else text_eq candidate virtual_path

-- `streamPath`.
unfoldable pub stream_path : HlsStream → Text
stream_path stream = if is_zero_key stream.key then stream.virtual_path else stream.key.virtual_path

abbrev pub pending_of_path : String → Text → Bool → HlsPending → Bool
pending_of_path vault_id virtual_path descendants p =
    str_eq p.key.vault_id vault_id && path_matches descendants virtual_path p.key.virtual_path

abbrev pub stream_of_path : String → Text → Bool → String → HlsStream → Bool
stream_of_path vault_id virtual_path descendants _ stream =
    str_eq stream.vault_id vault_id && path_matches descendants virtual_path (stream_path stream)

-- `collectHLSStopTargetsMatching`.
unfoldable pub collect_hls_stop_targets :
    HlsState → String → String → String → Text → Bool → HlsState × HlsStopTargets
collect_hls_stop_targets s vault_id owner_id id virtual_path descendants =
    if not (str_eq id "")
    then collect_where (λ p. str_eq p.stream_id id && str_eq p.key.vault_id vault_id)
        (λ other stream. str_eq other id && str_eq stream.vault_id vault_id)
        (release_owner owner_id) s
    else if length virtual_path == 0
    then (s, no_targets)
    else collect_where (pending_of_path vault_id virtual_path descendants)
        (stream_of_path vault_id virtual_path descendants) (release_owner owner_id) s

abbrev pub pending_of_vault : String → HlsPending → Bool
pending_of_vault vault_id p = str_eq vault_id "" || str_eq p.key.vault_id vault_id

abbrev pub stream_of_vault : String → String → HlsStream → Bool
stream_of_vault vault_id _ stream = str_eq vault_id "" || str_eq stream.vault_id vault_id

-- Everybody leaves at once.
abbrev pub release_all : Owners → OwnerRefs → Release
release_all owners refs = record { owners = owners; owner_refs = refs; last = true }

-- `collectAllHLSStopTargets`.
unfoldable pub collect_all_hls_stop_targets : HlsState → String → HlsState × HlsStopTargets
collect_all_hls_stop_targets s vault_id =
    collect_where (pending_of_vault vault_id) (stream_of_vault vault_id) release_all s

-- `collectHLSOwnerTargets`.
unfoldable pub collect_hls_owner_targets : HlsState → String → String → HlsState × HlsStopTargets
collect_hls_owner_targets s vault_id owner_id =
    collect_where (λ p. str_eq p.key.vault_id vault_id)
      (λ _ stream. str_eq stream.vault_id vault_id) (drop_owner owner_id) s

unfoldable pub one_of : String → List String → Bool
one_of id [] = false
one_of id (j ∷ ids) = let rest = one_of id ids in str_eq j id || rest

-- `pending.cancel()`: the first error of a context stays.
abbrev pub set_ctx_error : HlsError → HlsPending → HlsPending
set_ctx_error problem p = elim p.ctx_error [
  | none ↦ record p { ctx_error = some problem }
  | some earlier ↦ p
]

-- `cancelHLSStopTargets`.
unfoldable pub cancel_hls_stop_targets : HlsState → HlsStopTargets → HlsState
cancel_hls_stop_targets s targets =
    in_place (λ p. if one_of p.stream_id targets.pending then set_ctx_error canceled p else p)
      (λ id stream.
        if one_of id targets.streams then record stream { cancelled = true } else stream)
      s

-- `releaseHLSStartOwner`, up to the cancelling.
unfoldable pub release_hls_start_owner :
    HlsState → String → String → String → HlsState × HlsStopTargets
release_hls_start_owner s vault_id owner_id id =
    if str_eq owner_id ""
    then (s, no_targets)
    else collect_hls_stop_targets s vault_id owner_id id [] false

unfoldable pub all_keyed : {V : Type 0} → List String → List (String × V) → Bool
all_keyed [] m = true
all_keyed (id ∷ ids) m = let rest = all_keyed ids m in has_key id m && rest

-- What `waitForHLSStopTargetsContext` waits for.
unfoldable pub targets_done : HlsState → HlsStopTargets → Bool
targets_done s targets = all_keyed targets.pending s.results && all_keyed targets.streams s.cleaned

-- `stopHLSForPath`, up to the cancelling.
unfoldable pub stop_hls_for_path : HlsState → String → Text → HlsState × HlsStopTargets
stop_hls_for_path s vault_id virtual_path =
    if length virtual_path == 0
    then (s, no_targets)
    else collect_hls_stop_targets s vault_id "" "" (normalize_index_path virtual_path) true

-- `stopHLSForOwner`, up to the cancelling.
unfoldable pub stop_hls_for_owner : HlsState → String → String → HlsState × HlsStopTargets
stop_hls_for_owner s vault_id owner_id =
    if str_eq owner_id "" then (s, no_targets) else collect_hls_owner_targets s vault_id owner_id

-- The answer of `handleHLSStop`: the streams that stopped or are stopping, and whether all have stopped.
unfoldable pub handle_hls_stop :
    HlsState → String → String → String → Text → HlsState × HlsStopTargets
handle_hls_stop s vault_id owner_id id raw_path =
    let virtual_path = if length raw_path == 0 then [] else normalize_index_path raw_path in
    collect_hls_stop_targets s vault_id owner_id id virtual_path false
