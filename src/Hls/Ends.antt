-- ===== src/Hls/Ends.antt =====
-- The ends of streams keep the streams sane.
use Prim.Native.String.{String}
use cryp.Prelude.{
  ◌≡◌, ◌⊎◌, refl, subst, ℕ, ◌+◌, ◌-◌, Bool, true, false, ◌&&◌, ◌||◌, not, none, some, if◌then◌else◌,
  arith, by_if, Bool-cases, Option-cases, inl, inr,
}
use cryp.GoMap.{
  str_eq, str_eq_iff, lookup, insert, remove, lookup-insert, lookup-remove, Every-insert,
  Every-remove, Every-lookup, IsMap-insert, IsMap-remove,
}
use cryp.Task.{has_key}
use cryp.Hls.{HlsStream, HlsState}
use cryp.Hls.Cleanup.{mark_finished, finish_stream, end_retention, remove_hls_dir}
use cryp.Hls.Sane.{IsKeyedAt, IsSane}
use cryp.Hls.Slots.{has_key-insert, has_key-remove, lookup_differs, running-finish, running-remove}

-- The state with a stream taken out of the map, for the removal of its directory.
abbrev pub taken_out : HlsState → String → ℕ → HlsState
taken_out s id active = record s {
  hls_active = active;
  hls = remove id s.hls;
  cleaning = insert id tt s.cleaning;
}

module _ (s : HlsState) (a : IsSane s) (id : String) (t : HlsStream)
    (found : lookup id s.hls ≡ some t) where
  removed :
      (j : String)
      → (str_eq id j ≡ true) ⊎ (lookup j s.hls ≡ none)
      → lookup j (remove id s.hls) ≡ none
  removed j (inl same) = ground (arith, lookup-remove id j s.hls, same)
  removed j (inr missing) = ground (arith, lookup-remove id j s.hls, missing)

  -- `cleaned` says nothing of an id that is a stream's, and `cleaning` neither.
  still_unused : (j : String) → lookup j s.results ≡ none → str_eq id j ≡ false
  still_unused j e = lookup_differs id j s.hls found (a.unused j e).live

  taken_out-IsSane :
      (active : ℕ)
      → active + (if t.finished then 0 else 1) ≡ s.hls_active
      → IsSane (taken_out s id active)
  taken_out-IsSane active less = record {
    starts = a.starts;
    active = ground (arith, a.active, less, running-remove id t s.hls a.one_each found);
    room = ground (arith, a.room, less);
    apart = a.apart;
    unreported = a.unreported;
    wanted = a.wanted;
    unused = λ j e.
        let u = a.unused j e in
        record {
          live = removed j (inr u.live);
          cleaning =
              ground (arith, has_key-insert id j tt s.cleaning, still_unused j e, u.cleaning);
          cleaned = u.cleaned;
        };
    gone = λ j e. elim (Bool-cases (str_eq id j)) [
      | inl same ↦ removed j (inl same)
      | inr other ↦
          removed j (inr (a.gone j (ground (arith, has_key-insert id j tt s.cleaning, other, e))))
    ];
    left = λ j e. removed j (inr (a.left j e));
    streams = Every-remove IsKeyedAt id s.hls a.streams;
    one_each = IsMap-remove id s.hls a.one_each;
  }

  retained-IsSane :
      t.finished ≡ false
      → IsSane (record s { hls_active = s.hls_active - 1; hls = insert id (mark_finished t) s.hls })
  retained-IsSane alive =
      let kept : (j : String)
          → lookup j s.hls ≡ none
          → lookup j (insert id (mark_finished t) s.hls) ≡ none =
        λ j e. ground (
          arith,
          lookup-insert id j (mark_finished t) s.hls,
          e,
          lookup_differs id j s.hls found e,
        ) in
      let keyed = Every-lookup IsKeyedAt id s.hls t a.streams found in
      record {
        starts = a.starts;
        active =
            ground (arith, a.active, running-finish id t (mark_finished t) s.hls found alive refl);
        room = ground (arith, a.room);
        apart = a.apart;
        unreported = a.unreported;
        wanted = a.wanted;
        unused = λ j e.
            let u = a.unused j e in
            record { live = kept j u.live; cleaning = u.cleaning; cleaned = u.cleaned };
        gone = λ j e. kept j (a.gone j e);
        left = λ j e. kept j (a.left j e);
        streams =
            Every-insert IsKeyedAt id (mark_finished t) s.hls
              (record { vault = keyed.vault; path = keyed.path; manned = keyed.manned }) a.streams;
        one_each = IsMap-insert id (mark_finished t) s.hls a.one_each;
      }

  -- A stream that runs is counted.
  pub counted : t.finished ≡ false → s.hls_active - 1 + 1 ≡ s.hls_active
  counted alive = ground (arith, a.active, running-remove id t s.hls a.one_each found, alive)

pub finish_stream-IsSane :
    (s : HlsState) (id : String) (problem complete : Bool)
    → IsSane s
    → IsSane (finish_stream s id problem complete)
unfolding finish_stream
finish_stream-IsSane s id problem complete a = elim (Option-cases (lookup id s.hls)) [
  | inl nobody ↦ rw (nobody, finish_stream) a
  | inr (t, found) ↦ elim (Bool-cases t.finished) [
    | inl ended ↦ rw (found, finish_stream, ended) a
    | inr alive ↦
        let less = counted s a id t found alive in
        rw (found, finish_stream, alive)
          (by_if IsSane (t.stop_requested || problem || not complete)
            (taken_out-IsSane s a id t found (s.hls_active - 1) (ground (arith, less, alive)))
            (retained-IsSane s a id t found alive))
  ]
]

pub end_retention-IsSane :
    (s : HlsState) (id : String) (timer : Bool) → IsSane s → IsSane (end_retention s id timer)
unfolding end_retention
end_retention-IsSane s id timer a = elim (Option-cases (lookup id s.hls)) [
  | inl nobody ↦ rw (nobody, end_retention) a
  | inr (t, found) ↦ elim (Bool-cases (t.finished && (timer || t.stop_closed))) [
    | inl over ↦
        rw (found, end_retention, over)
          (taken_out-IsSane s a id t found s.hls_active (ground (arith, over)))
    | inr goes_on ↦ rw (found, end_retention, goes_on) a
  ]
]

pub remove_hls_dir-IsSane : (s : HlsState) (id : String) → IsSane s → IsSane (remove_hls_dir s id)
unfolding remove_hls_dir
remove_hls_dir-IsSane s id a = elim (Bool-cases (has_key id s.cleaning)) [
  | inr nobody ↦ rw (nobody, remove_hls_dir) a
  | inl there ↦
      rw (there, remove_hls_dir)
        (record {
          starts = a.starts;
          active = a.active;
          room = a.room;
          apart = a.apart;
          unreported = a.unreported;
          wanted = a.wanted;
          unused = λ j e.
              let u = a.unused j e in
              let other : str_eq id j ≡ false = elim (Bool-cases (str_eq id j)) [
                | inl same ↦
                    let equal : id ≡ j = (str_eq_iff id j).0 same in
                    absurd (
                      ground (
                        arith,
                        subst (λ (i : String). has_key i s.cleaning ≡ true) equal there,
                        u.cleaning,
                      ))
                | inr other ↦ other
              ] in
              record {
                live = u.live;
                cleaning = ground (arith, has_key-remove id j s.cleaning, u.cleaning);
                cleaned = ground (arith, has_key-insert id j tt s.cleaned, other, u.cleaned);
              };
          gone = λ j e. a.gone j (ground (arith, has_key-remove id j s.cleaning, e));
          left = λ j e. elim (Bool-cases (str_eq id j)) [
            | inl same ↦
                subst (λ (i : String). lookup i s.hls ≡ none) ((str_eq_iff id j).0 same)
                  (a.gone id there)
            | inr other ↦ a.left j (ground (arith, has_key-insert id j tt s.cleaned, other, e))
          ];
          streams = a.streams;
          one_each = a.one_each;
        })
]
