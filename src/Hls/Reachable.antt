-- ===== src/Hls/Reachable.antt =====
-- Every run of calls keeps the streams sane: their counts, and who may watch them.
use Prim.Native.String.{String}
use cryp.Prelude.{
  ◌≡◌, refl, sym, subst, ℕ, ◌+◌, ◌≤◌, length, Bool, true, false, none, some, List, [], ◌∷◌, arith,
  by_if, Option-cases, inl, inr, if◌then◌else◌,
}
use cryp.GoMap.{str_eq_iff, lookup, Every-lookup}
use cryp.Task.{has_key}
use cryp.Hls.{HlsStream, HlsState, no_streams, hls_owner_allowed}
use cryp.Hls.Cleanup.{see_stream, may_see, handle_hls_asset}
use cryp.Hls.Calls.{
  HlsCall, starts_hls, disconnects, times_out, reports, stops_hls, stops_vault, stops_path,
  stops_owner, cancels_targets, sees_asset, ticks, finishes, retires, removes_dir, locks_life,
  unlocks_life, closes, hls_step, hls_calls, IsFair, AreFair,
}
use cryp.Hls.Shape.{running}
use cryp.Hls.Moves.{IsMoved, hls_step-IsMoved}
use cryp.Hls.Sane.{IsKeyedAt, IsSane, in_place-IsSane}
use cryp.Hls.Reports.{handle_hls_start-IsSane, report_start-IsSane}
use cryp.Hls.Ends.{finish_stream-IsSane, end_retention-IsSane, remove_hls_dir-IsSane}

module _ (s : HlsState) (a : IsSane s) where
  moved : (s2 : HlsState) → IsMoved s s2 → IsSane s2
  moved s2 m =
      subst IsSane (sym m.same)
        (in_place-IsSane m.change m.change_stream m.gentle m.gentle_stream s a)

  flags-IsSane :
      (closing held : Bool) → IsSane (record s { hls_closing = closing; life_held = held })
  flags-IsSane closing held = record {
    starts = a.starts;
    active = a.active;
    room = a.room;
    apart = a.apart;
    unreported = a.unreported;
    wanted = a.wanted;
    unused = λ j e.
        let u = a.unused j e in
        record { live = u.live; cleaning = u.cleaning; cleaned = u.cleaned };
    gone = a.gone;
    left = a.left;
    streams = a.streams;
    one_each = a.one_each;
  }

  pub hls_step-IsSane : (c : HlsCall) → IsFair s c → IsSane (hls_step s c)
  unfolding hls_step
  hls_step-IsSane (starts_hls active v path owner now drawn) fair =
      by_if IsSane s.life_held a
        (handle_hls_start-IsSane s a owner fair.0 active v path now drawn fair.1)
  hls_step-IsSane (reports id outcome) fair = report_start-IsSane s id outcome a
  hls_step-IsSane (finishes id problem complete) fair = finish_stream-IsSane s id problem complete a
  hls_step-IsSane (retires id timer) fair = end_retention-IsSane s id timer a
  hls_step-IsSane (removes_dir id) fair = remove_hls_dir-IsSane s id a
  hls_step-IsSane locks_life fair = flags-IsSane s.hls_closing true
  hls_step-IsSane unlocks_life fair = flags-IsSane s.hls_closing false
  hls_step-IsSane closes fair = flags-IsSane true s.life_held
  hls_step-IsSane (disconnects v owner id) fair =
      moved _ (hls_step-IsMoved s (disconnects v owner id) refl)
  hls_step-IsSane (times_out id) fair = moved _ (hls_step-IsMoved s (times_out id) refl)
  hls_step-IsSane (stops_hls v owner id path) fair =
      moved _ (hls_step-IsMoved s (stops_hls v owner id path) refl)
  hls_step-IsSane (stops_vault v) fair = moved _ (hls_step-IsMoved s (stops_vault v) refl)
  hls_step-IsSane (stops_path v path) fair = moved _ (hls_step-IsMoved s (stops_path v path) refl)
  hls_step-IsSane (stops_owner v owner) fair =
      moved _ (hls_step-IsMoved s (stops_owner v owner) refl)
  hls_step-IsSane (cancels_targets targets) fair =
      moved _ (hls_step-IsMoved s (cancels_targets targets) refl)
  hls_step-IsSane (sees_asset v owner id now) fair =
      moved _ (hls_step-IsMoved s (sees_asset v owner id now) refl)
  hls_step-IsSane (ticks id now) fair = moved _ (hls_step-IsMoved s (ticks id now) refl)

pub hls_calls-IsSane :
    (s : HlsState) (cs : List HlsCall) → IsSane s → AreFair s cs → IsSane (hls_calls s cs)
unfolding hls_calls
hls_calls-IsSane s [] a fair = a
hls_calls-IsSane s (c ∷ cs) a fair =
    hls_calls-IsSane (hls_step s c) cs (hls_step-IsSane s a c fair.0) fair.1

pub no_streams-IsSane : IsSane no_streams
unfolding running lookup has_key
no_streams-IsSane = record {
  starts = refl;
  active = refl;
  room = omega arith;
  apart = tt;
  unreported = tt;
  wanted = tt;
  unused = λ id e. record { live = refl; cleaning = refl; cleaned = refl };
  gone = λ id e. refl;
  left = λ id e. refl;
  streams = tt;
  one_each = tt;
}

-- After any calls from the empty state, in which drawn stream ids are new and requests carry a
-- session id, at most three starts are pending or streams running, hlsActive is the number of the
-- streams whose process has not ended, and hlsStarts is the number of the pending starts.
pub streams_bounded :
    (cs : List HlsCall)
    → AreFair no_streams cs
    → (running (hls_calls no_streams cs).hls + length (hls_calls no_streams cs).hls_pending ≤ 3)
      × ((hls_calls no_streams cs).hls_active ≡ running (hls_calls no_streams cs).hls)
      × ((hls_calls no_streams cs).hls_starts ≡ length (hls_calls no_streams cs).hls_pending)
streams_bounded cs fair =
    let a = hls_calls-IsSane no_streams cs no_streams-IsSane fair in
    (ground (arith, a.room, a.active, a.starts), a.active, a.starts)

-- After any calls from the empty state, in which drawn stream ids are new and requests carry a
-- session id, handleHLSAsset serves a stream only to a session that is one of its owners, in the
-- vault that the stream was started for, and not after a stop was requested.
pub asset_owned :
    (cs : List HlsCall) (v owner id : String) (now : ℕ) (t : HlsStream)
    → AreFair no_streams cs
    → (handle_hls_asset (hls_calls no_streams cs) v owner id now).1 ≡ some t
    → (has_key owner t.owners ≡ true) × (t.key.vault_id ≡ v) × (t.stop_requested ≡ false)
unfolding handle_hls_asset may_see hls_owner_allowed see_stream
asset_owned cs v owner id now t fair seen =
    let s = hls_calls no_streams cs in
    let a = hls_calls-IsSane no_streams cs no_streams-IsSane fair in
    elim (Option-cases (lookup id s.hls)) [
      | inl nobody ↦ absurd (ground (arith, nobody, seen))
      | inr (stream, found) ↦
          let k = Every-lookup IsKeyedAt id s.hls stream a.streams found in
          let at = str_eq_iff stream.vault_id v in
          let kept : (if may_see v owner stream then some (see_stream now stream) else none)
              ≡ some t =
            ground (arith, found, seen) in
          (ground (arith, kept, k.manned), ground (arith, kept, k.vault, at), ground (arith, kept))
    ]
