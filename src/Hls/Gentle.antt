-- ===== src/Hls/Gentle.antt =====
-- The changes in place of the critical sections are gentle.
use Prim.Native.String.{String}
use cryp.Prelude.{
  ◌≡◌, refl, ℕ, ◌==◌, length, Bool, true, false, ◌||◌, not, [], ◌∷◌, if◌then◌else◌, arith,
}
use cryp.GoMap.{insert}
use cryp.Hls.{
  HlsError, HlsKey, Owners, OwnerRefs, Release, HlsPending, HlsStream, add_hls_owner,
  release_uncounted, release_counted, release_owner, drop_owner,
}
use cryp.Hls.Start.{join_pending, join_stream, join_pending_at, join_stream_at}
use cryp.Hls.Stop.{
  mark_stream, leave_pending, leave_stream, leave_pending_if, leave_stream_if, release_all,
  set_ctx_error,
}
use cryp.Hls.Cleanup.{only, stop_if_idle, see_stream}
use cryp.Hls.Shape.{IsGentle, IsGentleStream}

-- Whoever leaves last leaves a stop behind.
abbrev pub IsCareful : (Owners → OwnerRefs → Release) → Type 0
IsCareful leave =
    (owners : Owners) (refs : OwnerRefs)
    → (leave owners refs).last || not (length (leave owners refs).owners == 0) ≡ true

pub release_owner-IsCareful : (owner : String) → IsCareful (release_owner owner)
unfolding release_owner release_uncounted release_counted
release_owner-IsCareful owner owners refs = ground arith

pub drop_owner-IsCareful : (owner : String) → IsCareful (drop_owner owner)
unfolding drop_owner
drop_owner-IsCareful owner owners refs = ground arith

pub release_all-IsCareful : IsCareful release_all
release_all-IsCareful owners refs = refl

insert_there : (k : String) (m : Owners) → (length (insert k tt m) == 0) ≡ false
unfolding insert
insert_there k [] = refl
insert_there k ((j, u) ∷ m) = ground arith

pub IsGentle-id : IsGentle (λ p. p)
IsGentle-id = record {
  same_key = λ p. refl;
  same_id = λ p. refl;
  stays = λ p h. h;
  manned = λ p h. h;
}

pub IsGentleStream-id : IsGentleStream (λ _ t. t)
IsGentleStream-id = record {
  same_key = λ id t. refl;
  same_vault = λ id t. refl;
  same_path = λ id t. refl;
  same_finished = λ id t. refl;
  manned = λ id t h. h;
}

module _ (owner : String) where
  pub join_pending_at-IsGentle : (key : HlsKey) → IsGentle (join_pending_at key owner)
  unfolding join_pending add_hls_owner
  join_pending_at-IsGentle key = record {
    same_key = λ p. ground arith;
    same_id = λ p. ground arith;
    stays = λ p h. ground arith;
    manned = λ p h. ground (arith, insert_there owner p.owners);
  }

  pub join_stream_at-IsGentleStream :
      (id : String) (now : ℕ) → IsGentleStream (join_stream_at id owner now)
  unfolding join_stream add_hls_owner
  join_stream_at-IsGentleStream id now = record {
    same_key = λ j t. ground arith;
    same_vault = λ j t. ground arith;
    same_path = λ j t. ground arith;
    same_finished = λ j t. ground arith;
    manned = λ j t h. ground (arith, insert_there owner t.owners);
  }

module _ (leave : Owners → OwnerRefs → Release) (h : IsCareful leave) where
  pub leave_pending_if-IsGentle :
      (of_pending : HlsPending → Bool) (of_stream : String → HlsStream → Bool)
      → IsGentle (leave_pending_if of_pending of_stream leave)
  unfolding leave_pending
  leave_pending_if-IsGentle of_pending of_stream = record {
    same_key = λ p. ground arith;
    same_id = λ p. ground arith;
    stays = λ p e. ground arith;
    manned = λ p e. ground (arith, h p.owners p.owner_refs);
  }

  pub leave_stream_if-IsGentleStream :
      (of_pending : HlsPending → Bool) (of_stream : String → HlsStream → Bool)
      → IsGentleStream (leave_stream_if of_pending of_stream leave)
  unfolding leave_stream mark_stream
  leave_stream_if-IsGentleStream of_pending of_stream = record {
    same_key = λ id t. ground arith;
    same_vault = λ id t. ground arith;
    same_path = λ id t. ground arith;
    same_finished = λ id t. ground arith;
    manned = λ id t e. ground (arith, h t.owners t.owner_refs);
  }

-- A context that gets its error, under any condition.
pub set_ctx_error-IsGentle :
    (test : HlsPending → Bool) (problem : HlsError)
    → IsGentle (λ p. if test p then set_ctx_error problem p else p)
set_ctx_error-IsGentle test problem = record {
  same_key = λ p. ground arith;
  same_id = λ p. ground arith;
  stays = λ p h. ground arith;
  manned = λ p h. ground arith;
}

pub cancelled-IsGentleStream :
    (test : String → Bool)
    → IsGentleStream (λ id t. if test id then record t { cancelled = true } else t)
cancelled-IsGentleStream test = record {
  same_key = λ id t. ground arith;
  same_vault = λ id t. ground arith;
  same_path = λ id t. ground arith;
  same_finished = λ id t. ground arith;
  manned = λ id t h. ground arith;
}

module _ (id : String) (now : ℕ) where
  pub see_stream-IsGentleStream : IsGentleStream (only id (see_stream now))
  unfolding see_stream
  see_stream-IsGentleStream = record {
    same_key = λ j t. ground arith;
    same_vault = λ j t. ground arith;
    same_path = λ j t. ground arith;
    same_finished = λ j t. ground arith;
    manned = λ j t h. ground arith;
  }

  pub stop_if_idle-IsGentleStream : IsGentleStream (only id (stop_if_idle now))
  unfolding stop_if_idle mark_stream
  stop_if_idle-IsGentleStream = record {
    same_key = λ j t. ground arith;
    same_vault = λ j t. ground arith;
    same_path = λ j t. ground arith;
    same_finished = λ j t. ground arith;
    manned = λ j t h. ground arith;
  }
