-- ===== src/Hls/Start.antt =====
-- The start of a stream: `handleHLSStart`, `completeHLSStart` and `waitForHLSStartOwner`.
use Prim.Native.String.{String}
use cryp.Prelude.{
  ℕ, ◌+◌, ◌-◌, ◌==◌, leb, length, Bool, true, false, ◌&&◌, ◌||◌, not, Option, none, some, List, [],
  ◌∷◌, if◌then◌else◌,
}
use cryp.GoMap.{str_eq, lookup, insert}
use cryp.GoText.{Text, text_eq}
use cryp.Crypto.Names.Index.{normalize_index_path}
use cryp.Hls.Errors.{hls_start_http_status, hls_start_error_code}
use cryp.Hls.{
  hls_max_streams, HlsError, canceled, over_capacity, HlsKey, HlsStartResult, HlsPending, HlsStream,
  HlsState, key_eq, find_pending, remove_pending, in_place, add_hls_owner, add_hls_owner_ref,
}

-- What a request for a stream is told, or what it waits for.
pub data HlsAdmission : Type 0 where
  path_required session_expired services_closing no_stream_id : HlsAdmission
  over_streams : ℕ → String → HlsAdmission
  redirected : String → ℕ → HlsAdmission
  retries_after joined started : String → HlsAdmission

-- `hlsPendingReusable`.
unfoldable pub hls_pending_reusable : HlsPending → Bool
hls_pending_reusable p =
    if p.stop_requested then false else elim p.ctx_error [ none ↦ true | some problem ↦ false ]

-- `existing.key == (hlsKey{})`.
unfoldable pub is_zero_key : HlsKey → Bool
is_zero_key key = str_eq key.vault_id "" && (length key.virtual_path == 0)

-- `sameKey`.
unfoldable pub same_key : HlsKey → HlsStream → Bool
same_key key stream =
    key_eq stream.key key
    || (is_zero_key stream.key
        && str_eq stream.vault_id key.vault_id
        && text_eq stream.virtual_path key.virtual_path)

-- The loop over the streams that looks for one to join.
unfoldable pub live_stream : HlsKey → List (String × HlsStream) → Option (String × HlsStream)
live_stream key [] = none
live_stream key ((id, stream) ∷ others) =
    if same_key key stream && not stream.stop_requested && not stream.finished
    then some (id, stream)
    else live_stream key others

unfoldable pub join_pending : String → HlsPending → HlsPending
join_pending owner_id p = record p {
  owners = add_hls_owner owner_id p.owners;
  owner_refs = add_hls_owner_ref owner_id p.owner_refs;
}

unfoldable pub join_stream : String → ℕ → HlsStream → HlsStream
join_stream owner_id now stream = record stream {
  owners = add_hls_owner owner_id stream.owners;
  owner_refs = add_hls_owner_ref owner_id stream.owner_refs;
  last_seen = now;
}

abbrev pub new_pending : HlsKey → String → String → HlsPending
new_pending key id owner_id = record {
  key = key;
  stream_id = id;
  ctx_error = none;
  stop_requested = false;
  owners = add_hls_owner owner_id [];
  owner_refs = add_hls_owner_ref owner_id [];
}

-- A start of its own, of a key that no start is pending for; the drawn id is `none` where the random
-- source fails.
unfoldable pub new_start : HlsState → HlsKey → String → Option String → HlsState × HlsAdmission
new_start s key owner_id none = (s, no_stream_id)
new_start s key owner_id (some id) = (
  record s {
    hls_pending = new_pending key id owner_id ∷ s.hls_pending;
    hls_starts = s.hls_starts + 1;
  },
  started id,
)

-- Only the pending start of the key is changed.
abbrev pub join_pending_at : HlsKey → String → HlsPending → HlsPending
join_pending_at key owner_id p = if key_eq p.key key then join_pending owner_id p else p

abbrev pub join_stream_at : String → String → ℕ → String → HlsStream → HlsStream
join_stream_at id owner_id now other stream =
    if str_eq other id then join_stream owner_id now stream else stream

-- From the look at `hlsPending` on.
unfoldable pub join_start : HlsState → HlsKey → String → Option String → HlsState × HlsAdmission
join_start s key owner_id drawn = elim (find_pending key s.hls_pending) [
  | some p ↦
      if not (hls_pending_reusable p)
      then (s, retries_after p.stream_id)
      else (in_place (join_pending_at key owner_id) (λ _ stream. stream) s, joined p.stream_id)
  | none ↦
      if leb hls_max_streams (s.hls_active + s.hls_starts)
      then (
        s,
        over_streams (hls_start_http_status over_capacity) (hls_start_error_code over_capacity),
      )
      else new_start s key owner_id drawn
]

-- From the look at `hlsClosing` on.
unfoldable pub admit_start :
    HlsState → HlsKey → String → ℕ → Option String → HlsState × HlsAdmission
admit_start s key owner_id now drawn =
    if s.hls_closing then (s, services_closing) else elim (live_stream key s.hls) [
      | none ↦ join_start s key owner_id drawn
      | some (id, stream) ↦ (
        in_place (λ p. p) (join_stream_at id owner_id now) s,
        redirected id stream.duration_seconds,
      )
    ]

-- One round of `handleHLSStart`, up to its waiting; `active` is `requestSessionActive`.
unfoldable pub handle_hls_start :
    HlsState → Bool → String → Text → String → ℕ → Option String → HlsState × HlsAdmission
handle_hls_start s active vault_id raw_path owner_id now drawn =
    if length raw_path == 0
    then (s, path_required)
    else if not active
    then (s, session_expired)
    else admit_start s
        (record { vault_id = vault_id; virtual_path = normalize_index_path raw_path }) owner_id now
        drawn

-- What `startHLSStream` and the steps of `runHLSStart` before it come to: an error, or a process with
-- the session that it reads with, the time, and the duration of the file.
pub data StartOutcome : Type 0 where
  start_failed : HlsError → StartOutcome
  ready : String → ℕ → ℕ → StartOutcome

-- The stream that `completeHLSStart` publishes.
abbrev pub published : HlsPending → String → ℕ → ℕ → HlsStream
published p session_id now duration = record {
  key = p.key;
  vault_id = p.key.vault_id;
  virtual_path = p.key.virtual_path;
  session_id = session_id;
  last_seen = now;
  stop_requested = false;
  finished = false;
  duration_seconds = duration;
  cancelled = false;
  stop_closed = false;
  owners = p.owners;
  owner_refs = p.owner_refs;
}

abbrev pub failure : HlsError → HlsStartResult
failure problem = record { stream_id = ""; duration_seconds = 0; error = some problem }

-- The pending start leaves the map, and its waiters are woken with the result.
unfoldable pub retire_pending : HlsState → HlsPending → HlsStartResult → HlsState
retire_pending s p result = record s {
  hls_pending = remove_pending p.key s.hls_pending;
  hls_starts = s.hls_starts - 1;
  results = insert p.stream_id result s.results;
}

-- The publication of a ready stream.
unfoldable pub publish_stream : HlsState → HlsPending → String → ℕ → ℕ → HlsState
publish_stream s p session_id now duration =
    let retired =
      retire_pending s p
        (record { stream_id = p.stream_id; duration_seconds = duration; error = none }) in
    record retired {
      hls = insert p.stream_id (published p session_id now duration) retired.hls;
      hls_active = retired.hls_active + 1;
    }

-- The branch `current == pending` of `completeHLSStart`.
unfoldable pub complete_current : HlsState → HlsPending → StartOutcome → HlsState
complete_current s p (start_failed problem) = retire_pending s p (failure problem)
complete_current s p (ready session_id now duration) =
    if hls_pending_reusable p
    then publish_stream s p session_id now duration
    else retire_pending s p (failure canceled)

-- The error of a start that was retired before.
unfoldable pub outcome_error : StartOutcome → HlsError
outcome_error (start_failed problem) = problem
outcome_error (ready session_id now duration) = canceled

-- `completeHLSStart` of a start with this key and stream id.
unfoldable pub complete_hls_start : HlsState → HlsKey → String → StartOutcome → HlsState
complete_hls_start s key id outcome = elim (find_pending key s.hls_pending) [
  | none ↦ record s { results = insert id (failure (outcome_error outcome)) s.results }
  | some current ↦
      if str_eq current.stream_id id
      then complete_current s current outcome
      else record s { results = insert id (failure (outcome_error outcome)) s.results }
]

-- The two ways on for `waitForHLSStartOwner` of a connected client.
pub data HlsReply : Type 0 where
  waits : HlsReply
  redirect : String → ℕ → HlsReply
  failure_reply : ℕ → String → HlsReply

unfoldable pub wait_for_hls_start : HlsState → String → HlsReply
wait_for_hls_start s id = elim (lookup id s.results) [
  | none ↦ waits
  | some result ↦ elim result.error [
    | none ↦ redirect result.stream_id result.duration_seconds
    | some problem ↦ failure_reply (hls_start_http_status problem) (hls_start_error_code problem)
  ]
]
