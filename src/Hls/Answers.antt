-- ===== src/Hls/Answers.antt =====
-- The report of a start: everyone who waits for it is answered, and its slot and its key are free.
use Prim.Native.String.{String}
use cryp.Prelude.{
  ◌≡◌, refl, ℕ, ◌+◌, length, true, none, some, List, [], ◌∷◌, if◌then◌else◌, arith, Bool-cases, inl,
  inr,
}
use cryp.GoMap.{str_eq, str_eq_iff, lookup-insert}
use cryp.Task.{has_key}
use cryp.Hls.{
  HlsError, canceled, HlsKey, HlsStartResult, HlsPending, HlsStream, HlsState, no_streams, key_eq,
  find_pending, remove_pending, hls_owner_allowed,
}
use cryp.Hls.Errors.{hls_start_http_status, hls_start_error_code}
use cryp.Hls.Start.{
  hls_pending_reusable, StartOutcome, start_failed, ready, published, failure, retire_pending,
  publish_stream, complete_current, HlsReply, redirect, failure_reply, wait_for_hls_start,
}
use cryp.Hls.Cleanup.{see_stream, may_see, handle_hls_asset}
use cryp.Hls.Calls.{HlsCall, pending_by_id, report_start, hls_calls, AreFair}
use cryp.Hls.Slots.{IsTaken, pending_by_id-IsTaken}
use cryp.Hls.Reports.{complete_of_found}
use cryp.Hls.Reachable.{hls_calls-IsSane, no_streams-IsSane}

-- What the waiters are told.
unfoldable pub answer : HlsPending → StartOutcome → HlsReply
answer p (start_failed problem) =
    failure_reply (hls_start_http_status problem) (hls_start_error_code problem)
answer p (ready session_id now duration) =
    if hls_pending_reusable p
    then redirect p.stream_id duration
    else failure_reply (hls_start_http_status canceled) (hls_start_error_code canceled)

find_pending-remove_pending :
    (key : HlsKey) (ps : List HlsPending) → find_pending key (remove_pending key ps) ≡ none
unfolding find_pending remove_pending
find_pending-remove_pending key [] = refl
find_pending-remove_pending key (p ∷ ps) = elim (Bool-cases (key_eq p.key key)) [
  | inl same ↦ rw same (find_pending-remove_pending key ps)
  | inr other ↦ rw (other, other) (find_pending-remove_pending key ps)
]

-- The start has gone, and its waiters get an answer.
pub record IsAnswered (s : HlsState) (p : HlsPending) (reply : HlsReply) (s2 : HlsState)
    : Type 0 where
  pub answered : wait_for_hls_start s2 p.stream_id ≡ reply
  pub free : find_pending p.key s2.hls_pending ≡ none
  pub slot : s2.hls_starts + 1 ≡ s.hls_starts

module _ (s : HlsState) (p : HlsPending) (counted : s.hls_starts ≡ length s.hls_pending)
    (taken : IsTaken p s.hls_pending) where
  same : str_eq p.stream_id p.stream_id ≡ true
  same = (str_eq_iff p.stream_id p.stream_id).1 refl

  failed_answer :
      (problem : HlsError)
      → IsAnswered s p
          (failure_reply (hls_start_http_status problem) (hls_start_error_code problem))
          (retire_pending s p (failure problem))
  unfolding retire_pending wait_for_hls_start
  failed_answer problem = record {
    answered =
        ground (arith, lookup-insert p.stream_id p.stream_id (failure problem) s.results, same);
    free = find_pending-remove_pending p.key s.hls_pending;
    slot = ground (arith, counted, taken.shorter);
  }

  ready_answer :
      (session_id : String) (now duration : ℕ)
      → IsAnswered s p (redirect p.stream_id duration) (publish_stream s p session_id now duration)
  unfolding publish_stream retire_pending wait_for_hls_start
  ready_answer session_id now duration =
      let result : HlsStartResult = record {
        stream_id = p.stream_id;
        duration_seconds = duration;
        error = none;
      } in
      record {
        answered = ground (arith, lookup-insert p.stream_id p.stream_id result s.results, same);
        free = find_pending-remove_pending p.key s.hls_pending;
        slot = ground (arith, counted, taken.shorter);
      }

  current_answer :
      (outcome : StartOutcome) → IsAnswered s p (answer p outcome) (complete_current s p outcome)
  unfolding complete_current answer
  current_answer (start_failed problem) = failed_answer problem
  current_answer (ready session_id now duration) = elim (Bool-cases (hls_pending_reusable p)) [
    | inl reusable ↦ rw (reusable, complete_current) (ready_answer session_id now duration)
    | inr other ↦ rw (other, complete_current) (failed_answer canceled)
  ]

  -- The owners of the start may watch the stream that it published.
  watchable :
      (session_id owner : String) (now seen duration : ℕ)
      → has_key owner p.owners ≡ true
      → (handle_hls_asset
          (publish_stream s p session_id now duration)
          p.key.vault_id
          owner
          p.stream_id
          seen).1
        ≡ some (see_stream seen (published p session_id now duration))
  unfolding publish_stream retire_pending handle_hls_asset may_see hls_owner_allowed
  watchable session_id owner now seen duration owned =
      let t = published p session_id now duration in
      let found = lookup-insert p.stream_id p.stream_id t s.hls in
      let vault = (str_eq_iff p.key.vault_id p.key.vault_id).1 refl in
      ground (arith, found, same, vault, owned)

  abbrev Watched : String → ℕ → HlsState → Type 0
  Watched owner seen s2 =
      (t : HlsStream) × ((handle_hls_asset s2 p.key.vault_id owner p.stream_id seen).1 ≡ some t)

  current_watchable :
      (outcome : StartOutcome) (id owner : String) (seen duration : ℕ)
      → answer p outcome ≡ redirect id duration
      → has_key owner p.owners ≡ true
      → Watched owner seen (complete_current s p outcome)
  unfolding answer complete_current
  current_watchable (start_failed problem) id owner seen duration e owned = absurd (cc)
  current_watchable (ready session_id now length) id owner seen duration e owned =
      elim (Bool-cases (hls_pending_reusable p)) [
        | inl reusable ↦
            rw (reusable, complete_current)
              (
                see_stream seen (published p session_id now length),
                watchable session_id owner now seen length owned,
              )
        | inr other ↦ absurd (ground (arith, e, other))
      ]

-- In every reachable state, when the goroutine of a pending start reports, everyone who waits for
-- it gets its answer: the status and code of its error, the code of a cancelled start if it was
-- stopped meanwhile, or the redirection; its key is free for a new start and its slot is given
-- back; and after a redirection every owner of the start is served the stream.
pub report_start-IsAnswered :
    (cs : List HlsCall) (id : String) (p : HlsPending) (outcome : StartOutcome)
    → AreFair no_streams cs
    → pending_by_id id (hls_calls no_streams cs).hls_pending ≡ some p
    → IsAnswered
        (hls_calls no_streams cs)
        p
        (answer p outcome)
        (report_start (hls_calls no_streams cs) id outcome)
      × ((stream owner : String) (seen duration : ℕ)
          → answer p outcome ≡ redirect stream duration
          → has_key owner p.owners ≡ true
          → (t : HlsStream) × ((handle_hls_asset
                (report_start (hls_calls no_streams cs) id outcome)
                p.key.vault_id
                owner
                p.stream_id
                seen).1
              ≡ some t))
unfolding report_start
report_start-IsAnswered cs id p outcome fair found =
    let s = hls_calls no_streams cs in
    let a = hls_calls-IsSane no_streams cs no_streams-IsSane fair in
    let taken = pending_by_id-IsTaken id s.hls_pending p a.apart found in
    rw (found, report_start, complete_of_found s a id p found outcome)
      (current_answer s p a.starts taken outcome, current_watchable s p a.starts taken outcome)
