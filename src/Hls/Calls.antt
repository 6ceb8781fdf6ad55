-- ===== src/Hls/Calls.antt =====
-- The critical sections of the streams, in any order. A start is admitted only while the write side of
-- `hlsLifeMu` is free. The goroutine of a start reports once, while its start is pending.
use Prim.Native.String.{String}
use cryp.Prelude.{◌≡◌, ℕ, Bool, true, false, Option, none, some, List, [], ◌∷◌, if◌then◌else◌}
use cryp.GoMap.{str_eq, lookup}
use cryp.GoText.{Text}
use cryp.Hls.{deadline_exceeded, HlsPending, HlsState, in_place}
use cryp.Hls.Start.{StartOutcome, handle_hls_start, complete_hls_start}
use cryp.Hls.Stop.{
  HlsStopTargets, collect_all_hls_stop_targets, set_ctx_error, cancel_hls_stop_targets,
  release_hls_start_owner, stop_hls_for_path, stop_hls_for_owner, handle_hls_stop,
}
use cryp.Hls.Cleanup.{idle_tick, finish_stream, end_retention, remove_hls_dir, handle_hls_asset}

pub data HlsCall : Type 0 where
  starts_hls : Bool → String → Text → String → ℕ → Option String → HlsCall
  disconnects : String → String → String → HlsCall
  times_out : String → HlsCall
  reports : String → StartOutcome → HlsCall
  stops_hls : String → String → String → Text → HlsCall
  stops_vault : String → HlsCall
  stops_path : String → Text → HlsCall
  stops_owner : String → String → HlsCall
  cancels_targets : HlsStopTargets → HlsCall
  sees_asset : String → String → String → ℕ → HlsCall
  ticks : String → ℕ → HlsCall
  finishes : String → Bool → Bool → HlsCall
  retires : String → Bool → HlsCall
  removes_dir : String → HlsCall
  locks_life unlocks_life closes : HlsCall

-- The pending start that a goroutine works for.
unfoldable pub pending_by_id : String → List HlsPending → Option HlsPending
pending_by_id id [] = none
pending_by_id id (p ∷ ps) = if str_eq p.stream_id id then some p else pending_by_id id ps

-- What the goroutine of `runHLSStart` reports.
unfoldable pub report_start : HlsState → String → StartOutcome → HlsState
report_start s id outcome = elim (pending_by_id id s.hls_pending) [
  | none ↦ s
  | some p ↦ complete_hls_start s p.key p.stream_id outcome
]

-- The timeout of a start's context.
unfoldable pub time_out : HlsState → String → HlsState
time_out s id =
    in_place (λ p. if str_eq p.stream_id id then set_ctx_error deadline_exceeded p else p)
      (λ _ stream. stream) s

unfoldable pub hls_step : HlsState → HlsCall → HlsState
hls_step s (starts_hls active v path owner now drawn) =
    if s.life_held then s else (handle_hls_start s active v path owner now drawn).0
hls_step s (disconnects v owner id) = (release_hls_start_owner s v owner id).0
hls_step s (times_out id) = time_out s id
hls_step s (reports id outcome) = report_start s id outcome
hls_step s (stops_hls v owner id path) = (handle_hls_stop s v owner id path).0
hls_step s (stops_vault v) = (collect_all_hls_stop_targets s v).0
hls_step s (stops_path v path) = (stop_hls_for_path s v path).0
hls_step s (stops_owner v owner) = (stop_hls_for_owner s v owner).0
hls_step s (cancels_targets targets) = cancel_hls_stop_targets s targets
hls_step s (sees_asset v owner id now) = (handle_hls_asset s v owner id now).0
hls_step s (ticks id now) = idle_tick s id now
hls_step s (finishes id failed complete) = finish_stream s id failed complete
hls_step s (retires id timer) = end_retention s id timer
hls_step s (removes_dir id) = remove_hls_dir s id
hls_step s locks_life = record s { life_held = true }
hls_step s unlocks_life = record s { life_held = false }
hls_step s closes = record s { hls_closing = true }

unfoldable pub hls_calls : HlsState → List HlsCall → HlsState
hls_calls s [] = s
hls_calls s (c ∷ cs) = hls_calls (hls_step s c) cs

-- A drawn stream id is new: it is that of no pending start and of no start that reported.
abbrev pub IsNew : HlsState → Option String → Type 0
IsNew s none = Unit {0}
IsNew s (some id) = (pending_by_id id s.hls_pending ≡ none) × (lookup id s.results ≡ none)

-- Requests carry a session id.
abbrev pub IsFair : HlsState → HlsCall → Type 0
IsFair s (starts_hls active v path owner now drawn) = (str_eq owner "" ≡ false) × IsNew s drawn
IsFair s _ = Unit {0}

-- Every call of a run is fair where it happens.
abbrev pub AreFair : HlsState → List HlsCall → Type 0
AreFair s [] = Unit {0}
AreFair s (c ∷ cs) = IsFair s c × AreFair (hls_step s c) cs
