-- ===== src/Hls/Barrier.antt =====
-- What the write side of `hlsLifeMu` and a successful wait for the stop targets guarantee: nothing that
-- is being stopped is left, and nothing new was started.
use Prim.Native.String.{String}
use cryp.Prelude.{
  ◌≡◌, refl, sym, subst, Bool, true, false, ◌&&◌, ◌||◌, not, none, some, List, [], ◌∷◌, All,
  if◌then◌else◌, arith, by_if, Bool-cases, Option-cases, inl, inr,
}
use cryp.GoMap.{str_eq, str_eq_iff, lookup, Every, Every-insert, Every-remove, Every-lookup}
use cryp.Task.{has_key}
use cryp.Hls.{HlsKey, HlsStartResult, HlsPending, HlsStream, HlsState, in_place}
use cryp.Hls.Start.{
  handle_hls_start, hls_pending_reusable, StartOutcome, start_failed, ready, published, failure,
  retire_pending, publish_stream, complete_current,
}
use cryp.Hls.Stop.{HlsStopTargets, one_of, all_keyed, targets_done}
use cryp.Hls.Cleanup.{mark_finished, finish_stream, end_retention, remove_hls_dir}
use cryp.Hls.Calls.{
  HlsCall, starts_hls, disconnects, times_out, reports, stops_hls, stops_vault, stops_path,
  stops_owner, cancels_targets, sees_asset, ticks, finishes, retires, removes_dir, locks_life,
  unlocks_life, closes, pending_by_id, report_start, hls_step, hls_calls, AreFair,
}
use cryp.Hls.Shape.{All-map, Every-each_stream}
use cryp.Hls.Moves.{IsMoved, hls_step-IsMoved}
use cryp.Hls.Sane.{IsUnreported, IsSane}
use cryp.Hls.Slots.{All-pending_by_id, All-remove_pending}
use cryp.Hls.Reports.{complete_of_found}
use cryp.Hls.Reachable.{hls_step-IsSane}

-- The lock is not given back.
abbrev pub KeepsLock : HlsCall → Type 0
KeepsLock unlocks_life = ⊥
KeepsLock _ = Unit {0}

-- Every id of the list is a key.
all_keyed_lem :
    {V : Type 0} (ids : List String) (m : List (String × V)) (id : String)
    → all_keyed ids m ≡ true
    → one_of id ids ≡ true
    → has_key id m ≡ true
unfolding all_keyed one_of
all_keyed_lem [] m id a h = absurd (ground (arith, h))
all_keyed_lem (j ∷ ids) m id a h = elim (Bool-cases (str_eq j id)) [
  | inl same ↦
      subst (λ (i : String). has_key i m ≡ true) ((str_eq_iff j id).0 same) (ground (arith, a))
  | inr other ↦ all_keyed_lem ids m id (ground (arith, a)) (ground (arith, h, other))
]

not_both :
    {V : Type 0} (id : String) (m : List (String × V))
    → lookup id m ≡ none
    → has_key id m ≡ true
    → ⊥
unfolding has_key
not_both id m missing there = ground (arith, missing, there)

-- The keys whose streams are stopped, and the targets that were collected for them.
module _ (stopped : HlsKey → Bool) (targets : HlsStopTargets) where
  abbrev pub IsDying : HlsPending → Type 0
  IsDying p =
      stopped p.key ≡ true → (p.stop_requested ≡ true) × (one_of p.stream_id targets.pending ≡ true)

  abbrev pub IsTarget : String → HlsStream → Type 0
  IsTarget id t = stopped t.key ≡ true → one_of id targets.streams ≡ true

  pub record IsStopping (s : HlsState) : Type 0 where
    pub held : s.life_held ≡ true
    pub dying : All IsDying s.hls_pending
    pub hit : Every IsTarget s.hls

  module _ (s : HlsState) (h : IsStopping s) where
    moved : (s2 : HlsState) → IsMoved s s2 → IsStopping s2
    unfolding in_place
    moved s2 m =
        let later : IsStopping (in_place m.change m.change_stream s) = record {
          held = h.held;
          dying =
              All-map m.change IsDying IsDying
                (λ p d at.
                  let before = d (ground (arith, at, m.gentle.same_key p)) in
                  (m.gentle.stays p before.0, rw (m.gentle.same_id p) before.1))
                s.hls_pending h.dying;
          hit =
              Every-each_stream m.change_stream IsTarget IsTarget
                (λ id t d at. d (rw (← m.gentle_stream.same_key id t) at)) s.hls h.hit;
        } in
        subst IsStopping (sym m.same) later

    retired : (p : HlsPending) (r : HlsStartResult) → IsStopping (retire_pending s p r)
    unfolding retire_pending
    retired p r = record {
      held = h.held;
      dying = All-remove_pending p.key IsDying s.hls_pending h.dying;
      hit = h.hit;
    }

    completed :
        (p : HlsPending) (outcome : StartOutcome)
        → IsDying p
        → IsStopping (complete_current s p outcome)
    unfolding complete_current publish_stream hls_pending_reusable retire_pending
    completed p (start_failed problem) d = retired p (failure problem)
    completed p (ready session_id now duration) d = elim (Bool-cases (hls_pending_reusable p)) [
      | inr other ↦ rw (other, complete_current) (retired p _)
      | inl reusable ↦
          rw (reusable, complete_current)
            (record {
              held = h.held;
              dying = All-remove_pending p.key IsDying s.hls_pending h.dying;
              hit =
                  Every-insert IsTarget p.stream_id (published p session_id now duration) s.hls
                    (λ at. absurd (ground (arith, (d at).0, reusable))) h.hit;
            })
    ]

    reported :
        (id : String) (outcome : StartOutcome) → IsSane s → IsStopping (report_start s id outcome)
    unfolding report_start
    reported id outcome a = elim (Option-cases (pending_by_id id s.hls_pending)) [
      | inl nobody ↦ rw (nobody, report_start) h
      | inr (p, found) ↦
          rw (found, report_start, complete_of_found s a id p found outcome)
            (completed p outcome (All-pending_by_id IsDying id s.hls_pending p found h.dying))
    ]

    ended :
        (id : String) (problem complete : Bool) → IsStopping (finish_stream s id problem complete)
    unfolding finish_stream
    ended id problem complete = elim (Option-cases (lookup id s.hls)) [
      | inl nobody ↦ rw (nobody, finish_stream) h
      | inr (t, found) ↦
          rw (found, finish_stream)
            (by_if IsStopping t.finished h (
              by_if IsStopping (t.stop_requested || problem || not complete)
                (record {
                  held = h.held;
                  dying = h.dying;
                  hit = Every-remove IsTarget id s.hls h.hit;
                })
                (record {
                  held = h.held;
                  dying = h.dying;
                  hit =
                      Every-insert IsTarget id (mark_finished t) s.hls
                        (Every-lookup IsTarget id s.hls t h.hit found) h.hit;
                })))
    ]

    not_retained : (id : String) (timer : Bool) → IsStopping (end_retention s id timer)
    unfolding end_retention
    not_retained id timer = elim (Option-cases (lookup id s.hls)) [
      | inl nobody ↦ rw (nobody, end_retention) h
      | inr (t, found) ↦
          rw (found, end_retention)
            (by_if IsStopping (t.finished && (timer || t.stop_closed))
              (record {
                held = h.held;
                dying = h.dying;
                hit = Every-remove IsTarget id s.hls h.hit;
              })
              h)
    ]

    cleaned_up : (id : String) → IsStopping (remove_hls_dir s id)
    unfolding remove_hls_dir
    cleaned_up id =
        by_if IsStopping (has_key id s.cleaning)
          (record { held = h.held; dying = h.dying; hit = h.hit }) h

    hls_step-IsStopping : (c : HlsCall) → KeepsLock c → IsSane s → IsStopping (hls_step s c)
    unfolding hls_step
    hls_step-IsStopping (starts_hls active v path owner now drawn) k a =
        let admitted : HlsState = (handle_hls_start s active v path owner now drawn).0 in
        subst (λ (b : Bool). IsStopping (if b then s else admitted)) (sym h.held) h
    hls_step-IsStopping (reports id outcome) k a = reported id outcome a
    hls_step-IsStopping (finishes id problem complete) k a = ended id problem complete
    hls_step-IsStopping (retires id timer) k a = not_retained id timer
    hls_step-IsStopping (removes_dir id) k a = cleaned_up id
    hls_step-IsStopping locks_life k a = record { held = refl; dying = h.dying; hit = h.hit }
    hls_step-IsStopping unlocks_life k a = absurd k
    hls_step-IsStopping closes k a = record { held = h.held; dying = h.dying; hit = h.hit }
    hls_step-IsStopping (disconnects v owner id) k a =
        moved _ (hls_step-IsMoved s (disconnects v owner id) refl)
    hls_step-IsStopping (times_out id) k a = moved _ (hls_step-IsMoved s (times_out id) refl)
    hls_step-IsStopping (stops_hls v owner id path) k a =
        moved _ (hls_step-IsMoved s (stops_hls v owner id path) refl)
    hls_step-IsStopping (stops_vault v) k a = moved _ (hls_step-IsMoved s (stops_vault v) refl)
    hls_step-IsStopping (stops_path v path) k a =
        moved _ (hls_step-IsMoved s (stops_path v path) refl)
    hls_step-IsStopping (stops_owner v owner) k a =
        moved _ (hls_step-IsMoved s (stops_owner v owner) refl)
    hls_step-IsStopping (cancels_targets t) k a =
        moved _ (hls_step-IsMoved s (cancels_targets t) refl)
    hls_step-IsStopping (sees_asset v owner id now) k a =
        moved _ (hls_step-IsMoved s (sees_asset v owner id now) refl)
    hls_step-IsStopping (ticks id now) k a = moved _ (hls_step-IsMoved s (ticks id now) refl)

    -- Once all targets are done, nothing is left of what is stopped.
    pub nothing_left :
        IsSane s
        → targets_done s targets ≡ true
        → All (λ p. stopped p.key ≡ false) s.hls_pending
          × ((id : String) (t : HlsStream) → lookup id s.hls ≡ some t → stopped t.key ≡ false)
    unfolding targets_done
    nothing_left a done = (
      no_pending s.hls_pending (ground (arith, done)) a.unreported h.dying,
      λ id t found. elim (Bool-cases (stopped t.key)) [
        | inr other ↦ other
        | inl at ↦
            let over : has_key id s.cleaned ≡ true =
              all_keyed_lem targets.streams s.cleaned id (ground (arith, done))
                (Every-lookup IsTarget id s.hls t h.hit found at) in
            absurd (ground (arith, found, a.left id over))
      ],
    )
      where
        no_pending :
            (ps : List HlsPending)
            → all_keyed targets.pending s.results ≡ true
            → All (IsUnreported s) ps
            → All IsDying ps
            → All (λ p. stopped p.key ≡ false) ps
        no_pending [] d u k = tt
        no_pending (p ∷ ps) d u k = (
          elim (Bool-cases (stopped p.key)) [
            | inr other ↦ other
            | inl at ↦ absurd (
                not_both p.stream_id s.results u.0
                  (all_keyed_lem targets.pending s.results p.stream_id d (k.0 at).1))
          ],
          no_pending ps d u.1 k.1,
        )

  pub hls_calls-IsStopping :
      (s : HlsState) (cs : List HlsCall)
      → IsStopping s
      → All KeepsLock cs
      → IsSane s
      → AreFair s cs
      → IsStopping (hls_calls s cs)
  unfolding hls_calls
  hls_calls-IsStopping s [] h k a fair = h
  hls_calls-IsStopping s (c ∷ cs) h k a fair =
      hls_calls-IsStopping (hls_step s c) cs (hls_step-IsStopping s h c k.0 a) k.1
        (hls_step-IsSane s a c fair.0) fair.1
