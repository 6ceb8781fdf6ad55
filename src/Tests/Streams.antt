-- ===== src/Tests/Streams.antt =====
-- The streams on concrete calls.
use Prim.Native.String.{String}
use cryp.Prelude.{
  ◌≡◌, ◌≢◌, ◌↔◌, refl, ℕ, ◌+◌, ◌≤◌, ltb, length, true, false, some, none, List, [], ◌∷◌, ◌++◌,
  codes,
}
use cryp.GoMap.{lookup, insert, remove}
use cryp.GoText.{Text, cut_prefix, text_eq}
use cryp.GoPath.{
  clean, elements, split_path, onto_first, join_path, clean_onto, keep_element, go_up, reverse_onto,
  is_rooted, is_dot, is_dot_dot, is_cut, is_below,
}
use cryp.Crypto.Names.Index.{is_root, normalize_index_path}
use cryp.Task.{has_key}
use cryp.Thumb.{count_of}
use cryp.Hls.{
  HlsPending, HlsStream, no_streams, key_eq, find_pending, remove_pending, each_stream, in_place,
  add_hls_owner, add_hls_owner_ref, release_counted, release_owner, hls_owner_allowed,
}
use cryp.Hls.Start.{
  hls_pending_reusable, is_zero_key, live_stream, join_pending, new_start, join_start, admit_start,
  handle_hls_start, StartOutcome, ready, retire_pending, publish_stream, complete_current,
  complete_hls_start, redirect,
}
use cryp.Hls.Stop.{
  mark_stream, leave_pending, leave_stream, pending_targets, stream_targets, collect_where,
  hls_path_within, path_matches, stream_path, collect_hls_stop_targets,
  collect_all_hls_stop_targets, release_hls_start_owner, all_keyed, targets_done, stop_hls_for_path,
  handle_hls_stop,
}
use cryp.Hls.Cleanup.{finish_stream, remove_hls_dir, see_stream, may_see, handle_hls_asset}
use cryp.Hls.Calls.{
  HlsCall, starts_hls, disconnects, reports, stops_hls, finishes, removes_dir, locks_life,
  pending_by_id, report_start, hls_step, hls_calls, AreFair,
}
use cryp.Hls.Shape.{running}
use cryp.Hls.Reachable.{streams_bounded, asset_owned}
use cryp.Hls.Collected.{IsFreeOf, in_vault, below_path, stopped_vault_is_free, stopped_path_is_free}
use cryp.GoPath.Below.{starts_with}
use cryp.Hls.Within.{hls_path_within_lem}
use cryp.Hls.Refs.{OwnerEvent, joins, releases, drops, no_owners, all_happen, wants, owners_count}
use cryp.Hls.Profiles.{
  TranscodeProfile, cpu_transcode_profile, gpu_transcode_profile, gpu_fallback_transcode_profile,
  put_profile, build_hls_profiles, not_ready, ready_now, chosen, no_profile, start_hls_stream,
}
use cryp.Hls.Fallback.{Rounds, profiles_of, last_works, start_hls_stream_lem}
use cryp.Hls.Answers.{answer, IsAnswered, report_start-IsAnswered}

abbrev film : Text
film = codes "/films/a.mp4"

-- Two sessions ask for one film, and its stream becomes ready.
abbrev two_viewers : List HlsCall
two_viewers =
    starts_hls true "v" film "anna" 100 (some "s1")
    ∷ starts_hls true "v" film "ben" 101 (some "s2")
    ∷ []

abbrev is_ready : StartOutcome
is_ready = ready "i" 200 60

abbrev watched : List HlsCall
watched = two_viewers ++ (reports "s1" is_ready ∷ [])

watched-AreFair : AreFair no_streams watched
unfolding hls_step handle_hls_start admit_start live_stream join_start find_pending new_start
    normalize_index_path clean elements split_path onto_first join_path clean_onto keep_element
    go_up reverse_onto is_rooted is_dot is_dot_dot add_hls_owner add_hls_owner_ref insert count_of
    lookup key_eq text_eq hls_pending_reusable in_place each_stream join_pending pending_by_id
watched-AreFair = ((refl, (refl, refl)), ((refl, (refl, refl)), (tt, tt)))

streams_bounded_example :
    (running (hls_calls no_streams watched).hls + length (hls_calls no_streams watched).hls_pending
      ≤ 3)
    × ((hls_calls no_streams watched).hls_active ≡ running (hls_calls no_streams watched).hls)
    × ((hls_calls no_streams watched).hls_starts
        ≡ length (hls_calls no_streams watched).hls_pending)
streams_bounded_example = streams_bounded watched watched-AreFair

abbrev shown : HlsStream
shown = record {
  key = record { vault_id = "v"; virtual_path = film };
  vault_id = "v";
  virtual_path = film;
  session_id = "i";
  last_seen = 300;
  stop_requested = false;
  finished = false;
  duration_seconds = 60;
  cancelled = false;
  stop_closed = false;
  owners = ("anna", tt) ∷ ("ben", tt) ∷ [];
  owner_refs = ("anna", 1) ∷ ("ben", 1) ∷ [];
}

ben_sees : (handle_hls_asset (hls_calls no_streams watched) "v" "ben" "s1" 300).1 ≡ some shown
unfolding hls_calls hls_step handle_hls_start admit_start live_stream join_start find_pending
    new_start normalize_index_path clean elements split_path onto_first join_path clean_onto
    keep_element go_up reverse_onto is_rooted is_dot is_dot_dot add_hls_owner add_hls_owner_ref
    insert count_of lookup key_eq text_eq hls_pending_reusable in_place each_stream join_pending
    pending_by_id report_start complete_hls_start complete_current publish_stream retire_pending
    remove_pending handle_hls_asset may_see hls_owner_allowed has_key see_stream
ben_sees = refl

asset_owned_example :
    (has_key "ben" shown.owners ≡ true)
    × (shown.key.vault_id ≡ "v")
    × (shown.stop_requested ≡ false)
asset_owned_example = asset_owned watched "v" "ben" "s1" 300 shown watched-AreFair ben_sees

first_pending :
    (p : HlsPending) × (pending_by_id "s1" (hls_calls no_streams two_viewers).hls_pending ≡ some p)
unfolding hls_calls hls_step handle_hls_start admit_start live_stream join_start find_pending
    new_start normalize_index_path clean elements split_path onto_first join_path clean_onto
    keep_element go_up reverse_onto is_rooted is_dot is_dot_dot add_hls_owner add_hls_owner_ref
    insert count_of lookup key_eq text_eq hls_pending_reusable in_place each_stream join_pending
    pending_by_id
first_pending = (_, refl)

two_viewers-AreFair : AreFair no_streams two_viewers
two_viewers-AreFair = (watched-AreFair.0, (watched-AreFair.1.0, tt))

report_start-IsAnswered_example :
    IsAnswered
      (hls_calls no_streams two_viewers)
      first_pending.0
      (answer first_pending.0 is_ready)
      (report_start (hls_calls no_streams two_viewers) "s1" is_ready)
    × ((stream owner : String) (seen duration : ℕ)
        → answer first_pending.0 is_ready ≡ redirect stream duration
        → has_key owner first_pending.0.owners ≡ true
        → (t : HlsStream) × ((handle_hls_asset
              (report_start (hls_calls no_streams two_viewers) "s1" is_ready)
              first_pending.0.key.vault_id
              owner
              first_pending.0.stream_id
              seen).1
            ≡ some t))
report_start-IsAnswered_example =
    report_start-IsAnswered two_viewers "s1" first_pending.0 is_ready two_viewers-AreFair
      first_pending.1

-- The vault is deleted, or the film replaced, while both watch: the process ends and its directory is
-- removed.
abbrev locked : List HlsCall
locked = watched ++ (locks_life ∷ [])

abbrev ending : List HlsCall
ending = finishes "s1" true false ∷ removes_dir "s1" ∷ []

locked-AreFair : AreFair no_streams locked
locked-AreFair = (watched-AreFair.0, (watched-AreFair.1.0, (tt, (tt, tt))))

is_locked : (hls_calls no_streams locked).life_held ≡ true
unfolding hls_calls hls_step handle_hls_start admit_start live_stream join_start find_pending
    new_start normalize_index_path clean elements split_path onto_first join_path clean_onto
    keep_element go_up reverse_onto is_rooted is_dot is_dot_dot add_hls_owner add_hls_owner_ref
    insert count_of lookup key_eq text_eq hls_pending_reusable in_place each_stream join_pending
    pending_by_id report_start complete_hls_start complete_current publish_stream retire_pending
    remove_pending
is_locked = refl

vault_stopped :
    targets_done
      (hls_calls (collect_all_hls_stop_targets (hls_calls no_streams locked) "v").0 ending)
      (collect_all_hls_stop_targets (hls_calls no_streams locked) "v").1
    ≡ true
unfolding hls_calls hls_step handle_hls_start admit_start live_stream join_start find_pending
    new_start normalize_index_path clean elements split_path onto_first join_path clean_onto
    keep_element go_up reverse_onto is_rooted is_dot is_dot_dot add_hls_owner add_hls_owner_ref
    insert count_of lookup key_eq text_eq hls_pending_reusable in_place each_stream join_pending
    pending_by_id report_start complete_hls_start complete_current publish_stream retire_pending
    remove_pending collect_all_hls_stop_targets collect_where pending_targets stream_targets
    leave_pending leave_stream mark_stream finish_stream remove_hls_dir has_key remove targets_done
    all_keyed
vault_stopped = refl

stopped_vault_is_free_example :
    IsFreeOf
      (in_vault "v")
      (hls_calls (collect_all_hls_stop_targets (hls_calls no_streams locked) "v").0 ending)
stopped_vault_is_free_example =
    stopped_vault_is_free locked ending "v" locked-AreFair is_locked (tt, (tt, tt)) (tt, (tt, tt))
      vault_stopped

path_stopped :
    targets_done
      (hls_calls (stop_hls_for_path (hls_calls no_streams locked) "v" (codes "/films")).0 ending)
      (stop_hls_for_path (hls_calls no_streams locked) "v" (codes "/films")).1
    ≡ true
unfolding hls_calls hls_step handle_hls_start admit_start live_stream join_start find_pending
    new_start normalize_index_path clean elements split_path onto_first join_path clean_onto
    keep_element go_up reverse_onto is_rooted is_dot is_dot_dot add_hls_owner add_hls_owner_ref
    insert count_of lookup key_eq text_eq hls_pending_reusable in_place each_stream join_pending
    pending_by_id report_start complete_hls_start complete_current publish_stream retire_pending
    remove_pending stop_hls_for_path collect_hls_stop_targets collect_where pending_targets
    stream_targets leave_pending leave_stream mark_stream finish_stream remove_hls_dir has_key
    remove targets_done all_keyed release_owner path_matches hls_path_within stream_path is_zero_key
    cut_prefix is_root is_below is_cut
path_stopped = refl

stopped_path_is_free_example :
    IsFreeOf
      (below_path "v" (normalize_index_path (codes "/films")))
      (hls_calls (stop_hls_for_path (hls_calls no_streams locked) "v" (codes "/films")).0 ending)
stopped_path_is_free_example =
    stopped_path_is_free locked ending "v" (codes "/films") refl locked-AreFair is_locked
      (tt, (tt, tt)) (tt, (tt, tt)) path_stopped

hls_path_within_lem_example :
    hls_path_within (codes "/films/") (codes "/films2/a.mp4")
    ≡ starts_with (elements (codes "/films/")) (elements (codes "/films2/a.mp4"))
unfolding is_rooted
hls_path_within_lem_example =
    hls_path_within_lem (codes "/films/") (codes "/films2/a.mp4") refl refl

-- Anna has the film in two tabs, Ben leaves, and Anna closes one of them.
abbrev tabs : List OwnerEvent
tabs = joins "anna" ∷ joins "ben" ∷ joins "anna" ∷ drops "ben" ∷ releases "anna" ∷ []

owners_count_example :
    ((k : String) → count_of k (all_happen no_owners tabs).owner_refs ≡ wants 0 k tabs)
    × ((k : String) → has_key k (all_happen no_owners tabs).owners ≡ ltb 0 (wants 0 k tabs))
    × (((release_owner "anna"
            (all_happen no_owners tabs).owners
            (all_happen no_owners tabs).owner_refs).last
          ≡ true)
        ↔ ((k : String) → wants 0 k (tabs ++ (releases "anna" ∷ [])) ≡ 0))
owners_count_example = owners_count tabs "anna" (refl, (refl, (refl, (refl, (refl, tt))))) refl

-- One tab of two is closed while its start is still waiting: its stop request and its broken connection
-- release a reference each, and the other tab's start is stopped.
abbrev one_tab_closed : List HlsCall
one_tab_closed =
    starts_hls true "v" film "anna" 100 (some "s1")
    ∷ starts_hls true "v" film "anna" 101 none
    ∷ stops_hls "v" "anna" "" film
    ∷ disconnects "v" "anna" "s1"
    ∷ []

other_tab_stopped :
    (p : HlsPending) × (pending_by_id "s1" (hls_calls no_streams one_tab_closed).hls_pending
      ≡ some p)
    × (p.stop_requested ≡ true)
unfolding hls_calls hls_step handle_hls_start admit_start live_stream join_start find_pending
    new_start normalize_index_path clean elements split_path onto_first join_path clean_onto
    keep_element go_up reverse_onto is_rooted is_dot is_dot_dot add_hls_owner add_hls_owner_ref
    insert count_of lookup key_eq text_eq hls_pending_reusable in_place each_stream join_pending
    pending_by_id handle_hls_stop release_hls_start_owner collect_hls_stop_targets collect_where
    pending_targets stream_targets leave_pending release_owner release_counted path_matches remove
other_tab_stopped = (_, refl, refl)

-- The graphics card fails, and the processor takes over.
abbrev card_fails : Rounds
card_fails =
    (
      record {
        name = "vaapi";
        before_input_args = "-vaapi_device" ∷ "/dev/dri/renderD128" ∷ [];
        video_args = "-vf" ∷ "format=nv12,hwupload" ∷ "-c:v" ∷ "h264_vaapi" ∷ "-qp" ∷ "24" ∷ [];
      },
      (100, 200, not_ready),
    )
    ∷ (cpu_transcode_profile, (200, 300, ready_now))
    ∷ []

card_profiles : profiles_of card_fails ≡ build_hls_profiles "auto" true "/dev/dri/renderD128"
unfolding build_hls_profiles put_profile gpu_transcode_profile gpu_fallback_transcode_profile
card_profiles = refl

start_hls_stream_lem_example :
    ((start_hls_stream "ffmpeg" [] false card_fails).1 ≢ no_profile)
    × (last_works card_fails ≡ true
        → (p : TranscodeProfile) × ((start_hls_stream "ffmpeg" [] false card_fails).1 ≡ chosen p))
start_hls_stream_lem_example =
    start_hls_stream_lem "ffmpeg" "auto" "/dev/dri/renderD128" true [] card_fails card_profiles
