-- ===== src/Hls.antt =====
-- The streams of internal/api/files_hls.go: the state of the server that `hlsMu` guards. Each function
-- of the children is one critical section. A pending start and a stream are known by their stream id,
-- which is drawn at random, in place of a pointer. `results` holds the results of the starts whose
-- `done` channel is closed, and `cleaned` the streams whose `doneCh` is closed. `life_held` says that
-- the write side of `hlsLifeMu` is taken. Times are nanoseconds, and a duration is only passed on.
pub mod Errors
pub mod Start
pub mod Stop
pub mod Cleanup
pub mod Calls
pub mod Shape
pub mod Gentle
pub mod Sane
pub mod Slots
pub mod Reports
pub mod Ends
pub mod Moves
pub mod Barrier
pub mod Collected
pub mod Within
pub mod Refs
pub mod Answers
pub mod Profiles
pub mod Fallback
pub mod Reachable
use Prim.Native.String.{String}
use cryp.Prelude.{
  ℕ, suc, ◌+◌, ◌*◌, ◌-◌, ◌==◌, ltb, length, Bool, true, false, ◌&&◌, ◌||◌, not, Option, none, some,
  List, [], ◌∷◌, map, if◌then◌else◌,
}
use cryp.GoMap.{str_eq, lookup, insert, remove}
use cryp.GoText.{Text, text_eq}
use cryp.Task.{has_key}
use cryp.Thumb.{count_of}

abbrev pub hls_idle_timeout : ℕ
hls_idle_timeout = 120 * 1_000_000_000

abbrev pub hls_max_streams : ℕ
hls_max_streams = 3

-- The errors of a start: the sentinels that it may wrap, and any other error.
pub data HlsError : Type 0 where
  canceled deadline_exceeded over_capacity metadata_missing metadata_unavailable failed : HlsError

-- `hlsKey`.
pub record HlsKey : Type 0 where
  pub vault_id : String
  pub virtual_path : Text

-- `hlsStartResult`.
pub record HlsStartResult : Type 0 where
  pub stream_id : String
  pub duration_seconds : ℕ
  pub error : Option HlsError

abbrev pub Owners : Type 0
Owners = List (String × Unit {0})

abbrev pub OwnerRefs : Type 0
OwnerRefs = List (String × ℕ)

-- `hlsPending`; `ctx_error` is the error of its context.
pub record HlsPending : Type 0 where
  pub key : HlsKey
  pub stream_id : String
  pub ctx_error : Option HlsError
  pub stop_requested : Bool
  pub owners : Owners
  pub owner_refs : OwnerRefs

-- `hlsStream`; `cancelled` says that `cancel` was called, `stop_closed` that `stopCh` is closed.
pub record HlsStream : Type 0 where
  pub key : HlsKey
  pub vault_id : String
  pub virtual_path : Text
  pub session_id : String
  pub last_seen : ℕ
  pub stop_requested : Bool
  pub finished : Bool
  pub duration_seconds : ℕ
  pub cancelled : Bool
  pub stop_closed : Bool
  pub owners : Owners
  pub owner_refs : OwnerRefs

-- The fields of `Server` for streams. The values of `hlsPending` carry their keys; `cleaning` are the
-- streams that left `hls` and whose directories are being removed.
pub record HlsState : Type 0 where
  pub hls : List (String × HlsStream)
  pub hls_pending : List HlsPending
  pub hls_active : ℕ
  pub hls_starts : ℕ
  pub hls_closing : Bool
  pub life_held : Bool
  pub results : List (String × HlsStartResult)
  pub cleaning : List (String × Unit {0})
  pub cleaned : List (String × Unit {0})

abbrev pub no_streams : HlsState
no_streams = record {
  hls = [];
  hls_pending = [];
  hls_active = 0;
  hls_starts = 0;
  hls_closing = false;
  life_held = false;
  results = [];
  cleaning = [];
  cleaned = [];
}

-- `==` of two keys.
unfoldable pub key_eq : HlsKey → HlsKey → Bool
key_eq a b = str_eq a.vault_id b.vault_id && text_eq a.virtual_path b.virtual_path

-- `s.hlsPending[key]`.
unfoldable pub find_pending : HlsKey → List HlsPending → Option HlsPending
find_pending key [] = none
find_pending key (p ∷ ps) = if key_eq p.key key then some p else find_pending key ps

-- `delete(s.hlsPending, key)`.
unfoldable pub remove_pending : HlsKey → List HlsPending → List HlsPending
remove_pending key [] = []
remove_pending key (p ∷ ps) =
    let rest = remove_pending key ps in if key_eq p.key key then rest else p ∷ rest

-- A change of the streams in place, each under its id.
unfoldable pub each_stream :
    (String → HlsStream → HlsStream) → List (String × HlsStream) → List (String × HlsStream)
each_stream change [] = []
each_stream change ((id, stream) ∷ others) = (id, change id stream) ∷ each_stream change others

-- Pending starts and streams are changed in place, and everything else stays.
unfoldable pub in_place :
    (HlsPending → HlsPending) → (String → HlsStream → HlsStream) → HlsState → HlsState
in_place change_pending change_stream s = record s {
  hls_pending = map change_pending s.hls_pending;
  hls = each_stream change_stream s.hls;
}

-- `addHLSOwner`.
unfoldable pub add_hls_owner : String → Owners → Owners
add_hls_owner owner_id owners = if str_eq owner_id "" then owners else insert owner_id tt owners

-- `addHLSOwnerRef` on the counts.
unfoldable pub add_hls_owner_ref : String → OwnerRefs → OwnerRefs
add_hls_owner_ref owner_id refs =
    if str_eq owner_id "" then refs else insert owner_id (count_of owner_id refs + 1) refs

-- What is left when an owner goes, and whether the stream has to stop.
pub record Release : Type 0 where
  pub owners : Owners
  pub owner_refs : OwnerRefs
  pub last : Bool

abbrev pub release_left : Owners → OwnerRefs → Release
release_left owners refs = record { owners = owners; owner_refs = refs; last = length owners == 0 }

-- `releaseOwner` of an owner without a count.
unfoldable pub release_uncounted : String → Owners → OwnerRefs → Release
release_uncounted owner_id owners refs =
    if has_key owner_id owners
    then release_left (remove owner_id owners) refs
    else record { owners = owners; owner_refs = refs; last = false }

-- `releaseOwner` of an owner with a count.
unfoldable pub release_counted : String → Owners → OwnerRefs → ℕ → Release
release_counted owner_id owners refs count =
    if ltb 1 count
    then record { owners = owners; owner_refs = insert owner_id (count - 1) refs; last = false }
    else release_left (remove owner_id owners) (remove owner_id refs)

-- `releaseOwner` in `collectHLSStopTargetsMatching`: one reference.
unfoldable pub release_owner : String → Owners → OwnerRefs → Release
release_owner owner_id owners refs =
    if str_eq owner_id "" || (length owners == 0)
    then record { owners = owners; owner_refs = refs; last = true }
    else elim (lookup owner_id refs) [
      | none ↦ release_uncounted owner_id owners refs
      | some count ↦ release_counted owner_id owners refs count
    ]

-- The owner's part in the loops of `collectHLSOwnerTargets`: all references.
unfoldable pub drop_owner : String → Owners → OwnerRefs → Release
drop_owner owner_id owners refs =
    if length owners == 0
    then record { owners = owners; owner_refs = refs; last = true }
    else if has_key owner_id owners
    then release_left (remove owner_id owners) (remove owner_id refs)
    else record { owners = owners; owner_refs = refs; last = false }

-- `hlsOwnerAllowed`.
unfoldable pub hls_owner_allowed : String → Owners → Bool
hls_owner_allowed owner_id owners = (length owners == 0) || has_key owner_id owners
