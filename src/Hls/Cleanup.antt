-- ===== src/Hls/Cleanup.antt =====
-- The life of a running stream: `cleanupHLSStream` and the access to its files in `handleHLSAsset`.
use Prim.Native.String.{String}
use cryp.Prelude.{ℕ, ◌+◌, ◌-◌, ltb, Bool, true, ◌&&◌, ◌||◌, not, Option, none, some, if◌then◌else◌}
use cryp.GoMap.{str_eq, lookup, insert, remove}
use cryp.Task.{has_key}
use cryp.Hls.{hls_idle_timeout, HlsStream, HlsState, in_place, hls_owner_allowed}
use cryp.Hls.Stop.{mark_stream}

-- A change of the stream with an id.
abbrev pub only : String → (HlsStream → HlsStream) → String → HlsStream → HlsStream
only id change other stream = if str_eq other id then change stream else stream

-- What an idle tick does to a running stream.
unfoldable pub stop_if_idle : ℕ → HlsStream → HlsStream
stop_if_idle now stream =
    if not stream.finished
      && not stream.stop_requested
      && ltb (stream.last_seen + hls_idle_timeout) now
    then record (mark_stream stream) { cancelled = true }
    else stream

-- A tick of `idleTicker`, with the cancelling behind it.
unfoldable pub idle_tick : HlsState → String → ℕ → HlsState
idle_tick s id now = in_place (λ p. p) (only id (stop_if_idle now)) s

abbrev pub mark_finished : HlsStream → HlsStream
mark_finished stream = record stream { finished = true }

-- The section at `finished`; `failed` says that the process ended with an error, `complete` that its
-- playlist is complete. A stream that stays is retained for its viewers.
unfoldable pub finish_stream : HlsState → String → Bool → Bool → HlsState
finish_stream s id failed complete = elim (lookup id s.hls) [
  | none ↦ s
  | some stream ↦
      if stream.finished
      then s
      else let ended = record s { hls_active = s.hls_active - 1 } in
        if stream.stop_requested || failed || not complete
        then record ended { hls = remove id s.hls; cleaning = insert id tt s.cleaning }
        else record ended { hls = insert id (mark_finished stream) s.hls }
]

-- The end of the retention, by its timer or by `stopCh`.
unfoldable pub end_retention : HlsState → String → Bool → HlsState
end_retention s id timer = elim (lookup id s.hls) [
  | none ↦ s
  | some stream ↦
      if stream.finished && (timer || stream.stop_closed)
      then record s { hls = remove id s.hls; cleaning = insert id tt s.cleaning }
      else s
]

-- `removeHLSDir`, and the end of the cleanup with `doneCh`.
unfoldable pub remove_hls_dir : HlsState → String → HlsState
remove_hls_dir s id =
    if has_key id s.cleaning
    then record s { cleaning = remove id s.cleaning; cleaned = insert id tt s.cleaned }
    else s

unfoldable pub see_stream : ℕ → HlsStream → HlsStream
see_stream now stream = record stream { last_seen = now }

-- `stream.vaultID == sess.VaultID && !stream.stopRequested && hlsOwnerAllowed(stream.owners, ownerID)`.
unfoldable pub may_see : String → String → HlsStream → Bool
may_see vault_id owner_id stream =
    str_eq stream.vault_id vault_id
    && not stream.stop_requested
    && hls_owner_allowed owner_id stream.owners

-- The section of `handleHLSAsset`: the stream whose directory is served, or nothing.
unfoldable pub handle_hls_asset :
    HlsState → String → String → String → ℕ → HlsState × Option HlsStream
handle_hls_asset s vault_id owner_id id now = elim (lookup id s.hls) [
  | none ↦ (s, none)
  | some stream ↦
      if may_see vault_id owner_id stream
      then (in_place (λ p. p) (only id (see_stream now)) s, some (see_stream now stream))
      else (s, none)
]
