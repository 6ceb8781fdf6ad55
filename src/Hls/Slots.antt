-- ===== src/Hls/Slots.antt =====
-- Pending starts and streams that come and go: the maps and their counts.
use Prim.Native.String.{String}
use cryp.Prelude.{
  ◌≡◌, refl, sym, subst, suc, ◌+◌, length, true, false, ◌||◌, none, some, List, [], ◌∷◌, All,
  if◌then◌else◌, arith, Bool-cases, inl, inr,
}
use cryp.GoMap.{
  str_eq, str_eq_iff, lookup, insert, remove, lookup-insert, lookup-remove, Every, IsMap,
}
use cryp.Task.{has_key}
use cryp.Hls.{HlsKey, HlsPending, HlsStream, key_eq, find_pending, remove_pending}
use cryp.Hls.Calls.{pending_by_id}
use cryp.Hls.Shape.{IsOther, IsApart, running, key_eq_refl, key_eq_sym}

pub has_key-insert :
    {V : Type 0} (k j : String) (v : V) (m : List (String × V))
    → has_key j (insert k v m) ≡ (str_eq k j || has_key j m)
unfolding has_key
has_key-insert k j v m = ground (arith, lookup-insert k j v m)

pub has_key-remove :
    {V : Type 0} (k j : String) (m : List (String × V))
    → has_key j (remove k m) ≡ (if str_eq k j then false else has_key j m)
unfolding has_key
has_key-remove k j m = ground (arith, lookup-remove k j m)

-- Keys with different values differ.
pub lookup_differs :
    {V : Type 0} (k j : String) (m : List (String × V)) {v : V}
    → lookup k m ≡ some v
    → lookup j m ≡ none
    → str_eq k j ≡ false
lookup_differs k j m found missing = elim (Bool-cases (str_eq k j)) [
  | inl same ↦
      let equal : k ≡ j = (str_eq_iff k j).0 same in
      absurd (ground (arith, subst (λ (t : String). lookup t m ≡ none) (sym equal) missing, found))
  | inr other ↦ other
]

-- What holds of all pending starts holds of one that is found.
pub All-pending_by_id :
    (P : HlsPending → Type 0) (id : String) (ps : List HlsPending) (p : HlsPending)
    → pending_by_id id ps ≡ some p
    → All P ps
    → P p
unfolding pending_by_id
All-pending_by_id P id [] p e a = absurd (ground (arith, e))
All-pending_by_id P id (q ∷ qs) p e a = elim (Bool-cases (str_eq q.stream_id id)) [
  | inl same ↦ let at : q ≡ p = ground (arith, e, same) in subst P at a.0
  | inr other ↦ All-pending_by_id P id qs p (ground (arith, e, other)) a.1
]

pub All-missing :
    (id : String) (ps : List HlsPending)
    → pending_by_id id ps ≡ none
    → All (λ q. str_eq id q.stream_id ≡ false) ps
unfolding pending_by_id
All-missing id [] h = tt
All-missing id (q ∷ qs) h = (
  ground (arith, h, str_eq_iff id q.stream_id, str_eq_iff q.stream_id id),
  All-missing id qs (ground (arith, h)),
)

pub IsOther-new :
    (p : HlsPending) (ps : List HlsPending)
    → find_pending p.key ps ≡ none
    → pending_by_id p.stream_id ps ≡ none
    → All (IsOther p) ps
unfolding find_pending pending_by_id
IsOther-new p [] h k = tt
IsOther-new p (q ∷ qs) h k =
    let other : key_eq q.key p.key ≡ false = ground (arith, h) in
    (
      (
        ground (arith, k, str_eq_iff p.stream_id q.stream_id, str_eq_iff q.stream_id p.stream_id),
        key_eq_sym q.key p.key other,
      ),
      IsOther-new p qs (ground (arith, h)) (ground (arith, k)),
    )

module _ (key : HlsKey) where
  pub All-remove_pending :
      (P : HlsPending → Type 0) (ps : List HlsPending) → All P ps → All P (remove_pending key ps)
  unfolding remove_pending
  All-remove_pending P [] a = tt
  All-remove_pending P (q ∷ qs) a = elim (Bool-cases (key_eq q.key key)) [
    | inl same ↦ rw same (All-remove_pending P qs a.1)
    | inr other ↦ rw other (a.0, All-remove_pending P qs a.1)
  ]

  pub IsApart-remove_pending : (ps : List HlsPending) → IsApart ps → IsApart (remove_pending key ps)
  unfolding remove_pending
  IsApart-remove_pending [] a = tt
  IsApart-remove_pending (q ∷ qs) a = elim (Bool-cases (key_eq q.key key)) [
    | inl same ↦ rw same (IsApart-remove_pending qs a.1)
    | inr other ↦ rw other (All-remove_pending (IsOther q) qs a.0, IsApart-remove_pending qs a.1)
  ]

  remove_pending_missing :
      (ps : List HlsPending) → All (λ q. key_eq q.key key ≡ false) ps → remove_pending key ps ≡ ps
  unfolding remove_pending
  remove_pending_missing [] a = refl
  remove_pending_missing (q ∷ qs) a = rw (a.0, remove_pending_missing qs a.1) refl

others_differ :
    (p : HlsPending) (ps : List HlsPending)
    → All (IsOther p) ps
    → All (λ q. key_eq q.key p.key ≡ false) ps
others_differ p [] a = tt
others_differ p (q ∷ qs) a = (key_eq_sym p.key q.key a.0.1, others_differ p qs a.1)

other_ids :
    (p : HlsPending) (ps : List HlsPending)
    → All (IsOther p) ps
    → All (λ q. str_eq p.stream_id q.stream_id ≡ false) ps
other_ids p [] a = tt
other_ids p (q ∷ qs) a = (a.0.0, other_ids p qs a.1)

-- A start that is found by its id is found by its key, and leaves the map alone.
pub record IsTaken (p : HlsPending) (ps : List HlsPending) : Type 0 where
  pub found : find_pending p.key ps ≡ some p
  pub shorter : suc (length (remove_pending p.key ps)) ≡ length ps
  pub others : All (λ q. str_eq p.stream_id q.stream_id ≡ false) (remove_pending p.key ps)

pub pending_by_id-IsTaken :
    (id : String) (ps : List HlsPending) (p : HlsPending)
    → IsApart ps
    → pending_by_id id ps ≡ some p
    → IsTaken p ps
unfolding pending_by_id find_pending remove_pending
pending_by_id-IsTaken id [] p a e = absurd (ground (arith, e))
pending_by_id-IsTaken id (q ∷ qs) p a e = elim (Bool-cases (str_eq q.stream_id id)) [
  | inl same ↦
      let at : q ≡ p = ground (arith, e, same) in
      let left : remove_pending q.key qs ≡ qs =
        remove_pending_missing q.key qs (others_differ q qs a.0) in
      let here : IsTaken q (q ∷ qs) = record {
        found = rw (key_eq_refl q.key) refl;
        shorter = rw (key_eq_refl q.key, left) refl;
        others = rw (key_eq_refl q.key, left) (other_ids q qs a.0);
      } in
      subst (λ (r : HlsPending). IsTaken r (q ∷ qs)) at here
  | inr other ↦
      let later : pending_by_id id qs ≡ some p = ground (arith, e, other) in
      let t = pending_by_id-IsTaken id qs p a.1 later in
      let apart = All-pending_by_id (IsOther q) id qs p later a.0 in
      record {
        found = rw apart.1 t.found;
        shorter = rw apart.1 (ground (arith, t.shorter));
        others = rw apart.1 (
          ground (
            arith,
            apart.0,
            str_eq_iff p.stream_id q.stream_id,
            str_eq_iff q.stream_id p.stream_id,
          ),
          t.others,
        );
      }
]

pub running-insert :
    (id : String) (t : HlsStream) (m : List (String × HlsStream))
    → lookup id m ≡ none
    → t.finished ≡ false
    → running (insert id t m) ≡ running m + 1
unfolding running insert lookup
running-insert id t [] h e = ground (arith, e)
running-insert id t ((j, u) ∷ m) h e =
    ground (arith, h, str_eq_iff id j, str_eq_iff j id, running-insert id t m)

pub running-finish :
    (id : String) (t u : HlsStream) (m : List (String × HlsStream))
    → lookup id m ≡ some t
    → t.finished ≡ false
    → u.finished ≡ true
    → running (insert id u m) + 1 ≡ running m
unfolding running insert lookup
running-finish id t u [] h e k = absurd (ground (arith, h))
running-finish id t u ((j, w) ∷ m) h e k =
    ground (arith, h, e, k, str_eq_iff id j, str_eq_iff j id, running-finish id t u m)

running-missing :
    (id : String) (m : List (String × HlsStream))
    → Every (λ j _. str_eq j id ≡ false) m
    → running (remove id m) ≡ running m
unfolding running remove
running-missing id [] h = refl
running-missing id ((j, u) ∷ m) h = ground (arith, h.0, running-missing id m h.1)

pub running-remove :
    (id : String) (t : HlsStream) (m : List (String × HlsStream))
    → IsMap m
    → lookup id m ≡ some t
    → running (remove id m) + (if t.finished then 0 else 1) ≡ running m
unfolding running remove lookup
running-remove id t [] a h = absurd (ground (arith, h))
running-remove id t ((j, u) ∷ m) a h = elim (Bool-cases (str_eq j id)) [
  | inl same ↦
      let at : j ≡ id = (str_eq_iff j id).0 same in
      let others = subst (λ (i : String). Every (λ k _. str_eq k i ≡ false) m) at a.0 in
      ground (arith, h, same, str_eq_iff id j, at, running-missing id m others)
  | inr other ↦
      ground (arith, h, other, str_eq_iff id j, str_eq_iff j id, running-remove id t m a.1)
]
