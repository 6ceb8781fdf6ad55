-- ===== src/Hls/Sane.antt =====
-- What holds of the streams after any calls, and that changes in place keep it.
use Prim.Native.String.{String}
use cryp.Prelude.{◌≡◌, ◌∙◌, ◌+◌, ◌≤◌, length, true, false, none, All, arith}
use cryp.GoMap.{lookup, Every, IsMap}
use cryp.Task.{has_key}
use cryp.Hls.{HlsPending, HlsStream, HlsState, in_place}
use cryp.Hls.Shape.{
  IsManned, IsGentle, IsGentleStream, IsApart, running, IsApart-map, All-map, length-map,
  lookup-each_stream, Every-each_stream, IsMap-each_stream, running-each_stream,
}

-- A stream is under the key that it was started with, and somebody wants it or it is being stopped.
pub record IsKeyed (t : HlsStream) : Type 0 where
  pub vault : t.vault_id ≡ t.key.vault_id
  pub path : t.virtual_path ≡ t.key.virtual_path
  pub manned : IsManned t.stop_requested t.owners

abbrev pub IsKeyedAt : String → HlsStream → Type 0
IsKeyedAt id t = IsKeyed t

abbrev pub IsMannedPending : HlsPending → Type 0
IsMannedPending p = IsManned p.stop_requested p.owners

-- The start has not reported yet.
abbrev pub IsUnreported : HlsState → HlsPending → Type 0
IsUnreported s p = lookup p.stream_id s.results ≡ none

-- Only starts that reported have streams.
pub record IsUnused (s : HlsState) (id : String) : Type 0 where
  pub live : lookup id s.hls ≡ none
  pub cleaning : has_key id s.cleaning ≡ false
  pub cleaned : has_key id s.cleaned ≡ false

pub record IsSane (s : HlsState) : Type 0 where
  pub starts : s.hls_starts ≡ length s.hls_pending
  pub active : s.hls_active ≡ running s.hls
  pub room : s.hls_active + s.hls_starts ≤ 3
  pub apart : IsApart s.hls_pending
  pub unreported : All (IsUnreported s) s.hls_pending
  pub wanted : All IsMannedPending s.hls_pending
  pub unused : (id : String) → lookup id s.results ≡ none → IsUnused s id
  pub gone : (id : String) → has_key id s.cleaning ≡ true → lookup id s.hls ≡ none
  pub left : (id : String) → has_key id s.cleaned ≡ true → lookup id s.hls ≡ none
  pub streams : Every IsKeyedAt s.hls
  pub one_each : IsMap s.hls

module _ (change : HlsPending → HlsPending) (change_stream : String → HlsStream → HlsStream)
    (h : IsGentle change) (k : IsGentleStream change_stream) where
  keyed : (id : String) (t : HlsStream) → IsKeyed t → IsKeyed (change_stream id t)
  keyed id t a = record {
    vault = k.same_vault id t ∙ ground (arith, a.vault, k.same_key id t);
    path = k.same_path id t ∙ ground (arith, a.path, k.same_key id t);
    manned = k.manned id t a.manned;
  }

  pub in_place-IsSane : (s : HlsState) → IsSane s → IsSane (in_place change change_stream s)
  unfolding in_place
  in_place-IsSane s a = record {
    starts = ground (arith, a.starts, length-map change s.hls_pending);
    active = ground (arith, a.active, running-each_stream change_stream k.same_finished s.hls);
    room = a.room;
    apart = IsApart-map change h s.hls_pending a.apart;
    unreported =
        All-map change (IsUnreported s) (IsUnreported s) (λ p e. rw (h.same_id p) e) s.hls_pending
          a.unreported;
    wanted =
        All-map change IsMannedPending IsMannedPending (λ p e. h.manned p e) s.hls_pending a.wanted;
    unused = λ id e.
        let u = a.unused id e in
        record {
          live = lookup-each_stream change_stream id s.hls u.live;
          cleaning = u.cleaning;
          cleaned = u.cleaned;
        };
    gone = λ id e. lookup-each_stream change_stream id s.hls (a.gone id e);
    left = λ id e. lookup-each_stream change_stream id s.hls (a.left id e);
    streams = Every-each_stream change_stream IsKeyedAt IsKeyedAt keyed s.hls a.streams;
    one_each = IsMap-each_stream change_stream s.hls a.one_each;
  }
