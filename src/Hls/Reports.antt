-- ===== src/Hls/Reports.antt =====
-- New starts and their reports keep the streams sane.
use Prim.Native.String.{String}
use cryp.Prelude.{
  ◌≡◌, refl, subst, ℕ, ◌+◌, ◌≤◌, ◌==◌, leb, length, Bool, true, false, not, Option, none, some,
  List, [], ◌∷◌, All, arith, by_if, Bool-cases, Option-cases, inl, inr,
}
use cryp.GoMap.{str_eq, str_eq_iff, lookup, insert, lookup-insert, Every-insert, IsMap-insert}
use cryp.GoText.{Text}
use cryp.Crypto.Names.Index.{normalize_index_path}
use cryp.Task.{has_key}
use cryp.Hls.{
  hls_max_streams, canceled, HlsKey, HlsStartResult, HlsPending, HlsStream, HlsState, find_pending,
  add_hls_owner,
}
use cryp.Hls.Start.{
  HlsAdmission, hls_pending_reusable, live_stream, new_pending, new_start, join_start, admit_start,
  handle_hls_start, StartOutcome, start_failed, ready, published, failure, retire_pending,
  publish_stream, complete_current, complete_hls_start,
}
use cryp.Hls.Calls.{pending_by_id, report_start, IsNew}
use cryp.Hls.Gentle.{
  IsGentle-id, IsGentleStream-id, join_pending_at-IsGentle, join_stream_at-IsGentleStream,
}
use cryp.Hls.Sane.{IsKeyedAt, IsMannedPending, IsUnreported, IsSane, in_place-IsSane}
use cryp.Hls.Slots.{
  All-pending_by_id, IsOther-new, All-remove_pending, IsApart-remove_pending, IsTaken,
  pending_by_id-IsTaken, running-insert,
}

abbrev pub IsSaneResult : HlsState × HlsAdmission → Type 0
IsSaneResult r = IsSane r.0

module _ (s : HlsState) (a : IsSane s) (owner : String) (named : str_eq owner "" ≡ false) where
  new_start-IsSane :
      (key : HlsKey) (drawn : Option String)
      → find_pending key s.hls_pending ≡ none
      → s.hls_active + s.hls_starts + 1 ≤ 3
      → IsNew s drawn
      → IsSane (new_start s key owner drawn).0
  unfolding new_start add_hls_owner insert
  new_start-IsSane key none missing space new = a
  new_start-IsSane key (some id) missing space new = record {
    starts = ground (arith, a.starts);
    active = a.active;
    room = omega (arith, space);
    apart = (IsOther-new (new_pending key id owner) s.hls_pending missing new.0, a.apart);
    unreported = (new.1, a.unreported);
    wanted = (rw named refl, a.wanted);
    unused = λ j e.
        let u = a.unused j e in
        record { live = u.live; cleaning = u.cleaning; cleaned = u.cleaned };
    gone = a.gone;
    left = a.left;
    streams = a.streams;
    one_each = a.one_each;
  }

  join_start-IsSane :
      (key : HlsKey) (drawn : Option String)
      → IsNew s drawn
      → IsSane (join_start s key owner drawn).0
  unfolding join_start
  join_start-IsSane key drawn new = elim (Option-cases (find_pending key s.hls_pending)) [
    | inr (p, found) ↦
        rw (found, join_start)
          (by_if IsSaneResult _ a
            (in_place-IsSane _ _ (join_pending_at-IsGentle owner key) IsGentleStream-id s a))
    | inl missing ↦ elim (Bool-cases (leb hls_max_streams (s.hls_active + s.hls_starts))) [
      | inl full ↦ rw (missing, full, join_start) a
      | inr free ↦
          rw (missing, free, join_start)
            (new_start-IsSane key drawn missing (ground (arith, free)) new)
    ]
  ]

  pub handle_hls_start-IsSane :
      (active : Bool) (vault_id : String) (raw_path : Text) (now : ℕ) (drawn : Option String)
      → IsNew s drawn
      → IsSane (handle_hls_start s active vault_id raw_path owner now drawn).0
  unfolding handle_hls_start admit_start
  handle_hls_start-IsSane active vault_id raw_path now drawn new =
      let key : HlsKey = record {
        vault_id = vault_id;
        virtual_path = normalize_index_path raw_path;
      } in
      let admitted : IsSane (admit_start s key owner now drawn).0 =
        by_if IsSaneResult s.hls_closing a (elim (Option-cases (live_stream key s.hls)) [
          | inl nobody ↦ rw nobody (join_start-IsSane key drawn new)
          | inr ((id, stream), found) ↦
              rw found
                (in_place-IsSane _ _ IsGentle-id (join_stream_at-IsGentleStream owner id now) s a)
        ]) in
      by_if IsSaneResult (length raw_path == 0) a (by_if IsSaneResult (not active) a admitted)

-- A start that is found by its id reports.
module _ (s : HlsState) (a : IsSane s) (id : String) (p : HlsPending)
    (found : pending_by_id id s.hls_pending ≡ some p) where
  taken : IsTaken p s.hls_pending
  taken = pending_by_id-IsTaken id s.hls_pending p a.apart found

  own : lookup p.stream_id s.results ≡ none
  own = All-pending_by_id (IsUnreported s) id s.hls_pending p found a.unreported

  still_unreported :
      (r : HlsStartResult) (ps : List HlsPending)
      → All (λ q. str_eq p.stream_id q.stream_id ≡ false) ps
      → All (IsUnreported s) ps
      → All (λ q. lookup q.stream_id (insert p.stream_id r s.results) ≡ none) ps
  still_unreported r [] o u = tt
  still_unreported r (q ∷ qs) o u = (
    ground (arith, lookup-insert p.stream_id q.stream_id r s.results, o.0, u.0),
    still_unreported r qs o.1 u.1,
  )

  -- An id without a result is not this one's.
  unused_before :
      (r : HlsStartResult) (j : String)
      → lookup j (insert p.stream_id r s.results) ≡ none
      → (str_eq p.stream_id j ≡ false) × (lookup j s.results ≡ none)
  unused_before r j e = (
    ground (arith, lookup-insert p.stream_id j r s.results, e),
    ground (arith, lookup-insert p.stream_id j r s.results, e),
  )

  retire_pending-IsSane : (r : HlsStartResult) → IsSane (retire_pending s p r)
  unfolding retire_pending
  retire_pending-IsSane r = record {
    starts = ground (arith, a.starts, taken.shorter);
    active = a.active;
    room = ground (arith, a.room);
    apart = IsApart-remove_pending p.key s.hls_pending a.apart;
    unreported =
        still_unreported r _ taken.others
          (All-remove_pending p.key (IsUnreported s) _ a.unreported);
    wanted = All-remove_pending p.key IsMannedPending _ a.wanted;
    unused = λ j e.
        let u = a.unused j (unused_before r j e).1 in
        record { live = u.live; cleaning = u.cleaning; cleaned = u.cleaned };
    gone = a.gone;
    left = a.left;
    streams = a.streams;
    one_each = a.one_each;
  }

  still_gone :
      (t : HlsStream) (j : String)
      → str_eq p.stream_id j ≡ false
      → lookup j s.hls ≡ none
      → lookup j (insert p.stream_id t s.hls) ≡ none
  still_gone t j other e = ground (arith, lookup-insert p.stream_id j t s.hls, other, e)

  differs :
      (m : List (String × Unit {0})) (j : String)
      → has_key p.stream_id m ≡ false
      → has_key j m ≡ true
      → str_eq p.stream_id j ≡ false
  unfolding has_key
  differs m j e k = elim (Bool-cases (str_eq p.stream_id j)) [
    | inl same ↦
        let equal : p.stream_id ≡ j = (str_eq_iff p.stream_id j).0 same in
        absurd (ground (arith, subst (λ (i : String). has_key i m ≡ false) equal e, k))
    | inr other ↦ other
  ]

  publish_stream-IsSane :
      (session_id : String) (now duration : ℕ)
      → hls_pending_reusable p ≡ true
      → IsSane (publish_stream s p session_id now duration)
  unfolding publish_stream retire_pending hls_pending_reusable
  publish_stream-IsSane session_id now duration reusable =
      let result : HlsStartResult = record {
        stream_id = p.stream_id;
        duration_seconds = duration;
        error = none;
      } in
      let retired = retire_pending-IsSane result in
      let t = published p session_id now duration in
      let own_unused = a.unused p.stream_id own in
      let manned = All-pending_by_id IsMannedPending id s.hls_pending p found a.wanted in
      record {
        starts = retired.starts;
        active = ground (arith, a.active, running-insert p.stream_id t s.hls own_unused.live refl);
        room = ground (arith, a.room, a.starts, taken.shorter);
        apart = retired.apart;
        unreported = retired.unreported;
        wanted = retired.wanted;
        unused = λ j e.
            let before = unused_before result j e in
            let u = a.unused j before.1 in
            record {
              live = still_gone t j before.0 u.live;
              cleaning = u.cleaning;
              cleaned = u.cleaned;
            };
        gone = λ j e. still_gone t j (differs s.cleaning j own_unused.cleaning e) (a.gone j e);
        left = λ j e. still_gone t j (differs s.cleaned j own_unused.cleaned e) (a.left j e);
        streams =
            Every-insert IsKeyedAt p.stream_id t s.hls
              (record { vault = refl; path = refl; manned = ground (arith, manned, reusable) })
              a.streams;
        one_each = IsMap-insert p.stream_id t s.hls a.one_each;
      }

  complete_current-IsSane : (outcome : StartOutcome) → IsSane (complete_current s p outcome)
  unfolding complete_current
  complete_current-IsSane (start_failed problem) = retire_pending-IsSane _
  complete_current-IsSane (ready session_id now duration) =
      elim (Bool-cases (hls_pending_reusable p)) [
        | inl reusable ↦
            rw (reusable, complete_current) (publish_stream-IsSane session_id now duration reusable)
        | inr other ↦ rw (other, complete_current) (retire_pending-IsSane (failure canceled))
      ]

  -- The start is the one that its key leads to.
  pub complete_of_found :
      (outcome : StartOutcome)
      → complete_hls_start s p.key p.stream_id outcome ≡ complete_current s p outcome
  unfolding complete_hls_start
  complete_of_found outcome =
      rw (taken.found, (str_eq_iff p.stream_id p.stream_id).1 refl, complete_hls_start) refl

pub report_start-IsSane :
    (s : HlsState) (id : String) (outcome : StartOutcome)
    → IsSane s
    → IsSane (report_start s id outcome)
unfolding report_start
report_start-IsSane s id outcome a = elim (Option-cases (pending_by_id id s.hls_pending)) [
  | inl nobody ↦ rw (nobody, report_start) a
  | inr (p, found) ↦
      rw (found, report_start, complete_of_found s a id p found outcome)
        (complete_current-IsSane s a id p found outcome)
]
