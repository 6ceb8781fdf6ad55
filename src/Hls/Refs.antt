-- ===== src/Hls/Refs.antt =====
-- The owners of a stream against a specification: how often each session wants it.
use Prim.Native.String.{String}
use cryp.Prelude.{
  ◌≡◌, ◌↔◌, refl, sym, ap, ◌∙◌, subst, ℕ, ◌+◌, ◌-◌, ◌<◌, ◌==◌, ltb, length, true, false, none, some,
  List, [], ◌∷◌, ◌++◌, All, if◌then◌else◌, arith, Bool-cases, Option-cases, inl, inr,
}
use cryp.GoMap.{str_eq, str_eq_iff, lookup, insert, remove, lookup-insert, lookup-remove}
use cryp.Task.{has_key}
use cryp.Thumb.{count_of}
use cryp.Hls.{
  Owners, OwnerRefs, Release, add_hls_owner, add_hls_owner_ref, release_left, release_uncounted,
  release_counted, release_owner, drop_owner,
}
use cryp.Hls.Slots.{has_key-insert, has_key-remove}

-- What happens to the owners of a stream: a start joins, a stop releases one reference, and a logout all.
pub data OwnerEvent : Type 0 where
  joins releases drops : String → OwnerEvent

abbrev pub owner_of : OwnerEvent → String
owner_of (joins owner) = owner
owner_of (releases owner) = owner
owner_of (drops owner) = owner

-- The owners and their counts.
pub record Table : Type 0 where
  pub owners : Owners
  pub owner_refs : OwnerRefs

abbrev pub no_owners : Table
no_owners = record { owners = []; owner_refs = [] }

abbrev pub left_of : Release → Table
left_of r = record { owners = r.owners; owner_refs = r.owner_refs }

unfoldable pub happens : Table → OwnerEvent → Table
happens t (joins owner) = record {
  owners = add_hls_owner owner t.owners;
  owner_refs = add_hls_owner_ref owner t.owner_refs;
}
happens t (releases owner) = left_of (release_owner owner t.owners t.owner_refs)
happens t (drops owner) = left_of (drop_owner owner t.owners t.owner_refs)

unfoldable pub all_happen : Table → List OwnerEvent → Table
all_happen t [] = t
all_happen t (e ∷ es) = all_happen (happens t e) es

-- How often a session wants the stream, after one event and after all.
unfoldable pub wants_after : ℕ → String → OwnerEvent → ℕ
wants_after n k (joins owner) = if str_eq owner k then n + 1 else n
wants_after n k (releases owner) = if str_eq owner k then n - 1 else n
wants_after n k (drops owner) = if str_eq owner k then 0 else n

unfoldable pub wants : ℕ → String → List OwnerEvent → ℕ
wants n k [] = n
wants n k (e ∷ es) = wants (wants_after n k e) k es

-- The owners are those with a count.
pub record IsCounted (t : Table) : Type 0 where
  pub same : (k : String) → has_key k t.owners ≡ has_key k t.owner_refs
  pub positive : (k : String) → has_key k t.owner_refs ≡ true → 0 < count_of k t.owner_refs

count_of-insert :
    (k j : String) (n : ℕ) (m : OwnerRefs)
    → count_of j (insert k n m) ≡ (if str_eq k j then n else count_of j m)
unfolding count_of
count_of-insert k j n m = ground (arith, lookup-insert k j n m)

count_of-remove :
    (k j : String) (m : OwnerRefs)
    → count_of j (remove k m) ≡ (if str_eq k j then 0 else count_of j m)
unfolding count_of
count_of-remove k j m = ground (arith, lookup-remove k j m)

count_of-missing : (k : String) (m : OwnerRefs) → has_key k m ≡ false → count_of k m ≡ 0
unfolding count_of has_key
count_of-missing k m h = ground (arith, h)

count_of-found : (k : String) (m : OwnerRefs) {n : ℕ} → lookup k m ≡ some n → count_of k m ≡ n
unfolding count_of
count_of-found k m found = ground (arith, found)

has_key-found : (k : String) (m : OwnerRefs) {n : ℕ} → lookup k m ≡ some n → has_key k m ≡ true
unfolding has_key
has_key-found k m found = ground (arith, found)

has_key-missing : (k : String) (m : OwnerRefs) → lookup k m ≡ none → has_key k m ≡ false
unfolding has_key
has_key-missing k m missing = ground (arith, missing)

no_keys : (k : String) (m : Owners) → (length m == 0) ≡ true → has_key k m ≡ false
unfolding has_key lookup
no_keys k [] h = refl
no_keys k ((j, u) ∷ m) h = absurd (ground (arith, h))

-- A session wants the stream so often, and is one of its owners accordingly.
abbrev Fits : String → Table → ℕ → Type 0
Fits k t n =
    (count_of k t.owner_refs ≡ n)
    × (has_key k t.owners ≡ has_key k t.owner_refs)
    × (has_key k t.owner_refs ≡ true → 0 < count_of k t.owner_refs)

module _ (t : Table) (c : IsCounted t) (k owner : String) where
  joined :
      str_eq owner "" ≡ false
      → Fits k (happens t (joins owner)) (wants_after (count_of k t.owner_refs) k (joins owner))
  unfolding happens wants_after add_hls_owner add_hls_owner_ref
  joined named =
      let n = count_of owner t.owner_refs + 1 in
      let counts = count_of-insert owner k n t.owner_refs in
      let keys = has_key-insert owner k tt t.owners in
      let ref_keys = has_key-insert owner k n t.owner_refs in
      let at : str_eq owner k ≡ true → count_of owner t.owner_refs ≡ count_of k t.owner_refs = λ e.
        subst (λ (i : String). count_of owner t.owner_refs ≡ count_of i t.owner_refs)
          ((str_eq_iff owner k).0 e) refl in
      (
        ground (arith, named, counts, at),
        ground (arith, named, keys, ref_keys, c.same k),
        ground (arith, named, counts, ref_keys, c.positive k),
      )

  taken_out :
      Fits k
        (left_of (release_left (remove owner t.owners) (remove owner t.owner_refs)))
        (if str_eq owner k then 0 else count_of k t.owner_refs)
  taken_out =
      let counts = count_of-remove owner k t.owner_refs in
      let keys = has_key-remove owner k t.owners in
      let ref_keys = has_key-remove owner k t.owner_refs in
      (
        ground (arith, counts),
        ground (arith, keys, ref_keys, c.same k),
        ground (arith, counts, ref_keys, c.positive k),
      )

  unchanged : Fits k t (count_of k t.owner_refs)
  unchanged = (refl, c.same k, c.positive k)

  -- Nobody at all, or not this owner.
  no_count : has_key k t.owners ≡ false → count_of k t.owner_refs ≡ 0
  no_count h = count_of-missing k t.owner_refs (ground (arith, c.same k, h))

  unchanged_if :
      (n : ℕ)
      → ((str_eq owner k ≡ true) → n ≡ count_of k t.owner_refs)
      → Fits k t (if str_eq owner k then n else count_of k t.owner_refs)
  unchanged_if n h = (ground (arith, h), c.same k, c.positive k)

  at_owner : str_eq owner k ≡ true → owner ≡ k
  at_owner e = (str_eq_iff owner k).0 e

  dropped : Fits k (happens t (drops owner)) (wants_after (count_of k t.owner_refs) k (drops owner))
  unfolding happens wants_after drop_owner
  dropped = elim (Bool-cases (length t.owners == 0)) [
    | inl empty ↦
        rw (empty, drop_owner) (unchanged_if 0 (λ e. sym (no_count (no_keys k t.owners empty))))
    | inr some_there ↦ elim (Bool-cases (has_key owner t.owners)) [
      | inl there ↦ rw (some_there, there, drop_owner) taken_out
      | inr missing ↦
          rw (some_there, missing, drop_owner)
            (unchanged_if 0 (λ e.
              sym (
                no_count
                  (subst (λ (i : String). has_key i t.owners ≡ false) (at_owner e) missing))))
    ]
  ]

  counted_down :
      (count : ℕ)
      → lookup owner t.owner_refs ≡ some count
      → Fits k
          (left_of (release_counted owner t.owners t.owner_refs count))
          (if str_eq owner k then count_of k t.owner_refs - 1 else count_of k t.owner_refs)
  unfolding release_counted
  counted_down count found =
      let own : str_eq owner k ≡ true → count_of k t.owner_refs ≡ count = λ e.
        subst (λ (i : String). count_of i t.owner_refs ≡ count) (at_owner e)
          (count_of-found owner t.owner_refs found) in
      elim (Bool-cases (ltb 1 count)) [
        | inl several ↦
            let counts = count_of-insert owner k (count - 1) t.owner_refs in
            let ref_keys = has_key-insert owner k (count - 1) t.owner_refs in
            let there : str_eq owner k ≡ true → has_key k t.owner_refs ≡ true = λ e.
              subst (λ (i : String). has_key i t.owner_refs ≡ true) (at_owner e)
                (has_key-found owner t.owner_refs found) in
            rw (several, release_counted)
              (
                ground (arith, counts, own),
                ground (arith, ref_keys, there, c.same k),
                ground (arith, counts, ref_keys, several, c.positive k),
              )
        | inr single ↦
            let out = taken_out in
            rw (single, release_counted) (ground (arith, out.0, own, single), out.1, out.2)
      ]

  released :
      str_eq owner "" ≡ false
      → Fits k
          (happens t (releases owner))
          (wants_after (count_of k t.owner_refs) k (releases owner))
  unfolding happens wants_after release_owner release_uncounted
  released named = elim (Bool-cases (length t.owners == 0)) [
    | inl empty ↦
        let nobody = no_count (no_keys k t.owners empty) in
        rw (named, empty, release_owner) (unchanged_if _ (λ e. ground (arith, nobody)))
    | inr some_there ↦ elim (Option-cases (lookup owner t.owner_refs)) [
      | inl missing ↦
          let uncounted : has_key owner t.owners ≡ false =
            ground (arith, c.same owner, has_key-missing owner t.owner_refs missing) in
          rw (named, some_there, missing, uncounted, release_owner, release_uncounted)
            (unchanged_if _ (λ e. ground (
              arith,
              no_count (subst (λ (i : String). has_key i t.owners ≡ false) (at_owner e) uncounted),
            )))
      | inr (count, found) ↦ rw (named, some_there, found, release_owner) (counted_down count found)
    ]
  ]

abbrev IsNamed : OwnerEvent → Type 0
IsNamed e = str_eq (owner_of e) "" ≡ false

happens-Fits :
    (t : Table) (e : OwnerEvent) (k : String)
    → IsCounted t
    → IsNamed e
    → Fits k (happens t e) (wants_after (count_of k t.owner_refs) k e)
happens-Fits t (joins owner) k c named = joined t c k owner named
happens-Fits t (releases owner) k c named = released t c k owner named
happens-Fits t (drops owner) k c named = dropped t c k owner

happens-IsCounted : (t : Table) (e : OwnerEvent) → IsCounted t → IsNamed e → IsCounted (happens t e)
happens-IsCounted t e c named = record {
  same = λ k. (happens-Fits t e k c named).1;
  positive = λ k. (happens-Fits t e k c named).2;
}

all_happen-IsCounted :
    (t : Table) (es : List OwnerEvent) → IsCounted t → All IsNamed es → IsCounted (all_happen t es)
unfolding all_happen
all_happen-IsCounted t [] c named = c
all_happen-IsCounted t (e ∷ es) c named =
    all_happen-IsCounted (happens t e) es (happens-IsCounted t e c named.0) named.1

all_happen-wants :
    (t : Table) (es : List OwnerEvent) (k : String)
    → IsCounted t
    → All IsNamed es
    → count_of k (all_happen t es).owner_refs ≡ wants (count_of k t.owner_refs) k es
unfolding all_happen wants
all_happen-wants t [] k c named = refl
all_happen-wants t (e ∷ es) k c named =
    all_happen-wants (happens t e) es k (happens-IsCounted t e c named.0) named.1
    ∙ ap (λ (n : ℕ). wants n k es) (happens-Fits t e k c named.0).0

-- A stop is asked for exactly when nobody is left.
last-release_owner :
    (owner : String) (t : Table)
    → str_eq owner "" ≡ false
    → (release_owner owner t.owners t.owner_refs).last
      ≡ (length (release_owner owner t.owners t.owner_refs).owners == 0)
unfolding release_owner release_counted release_uncounted
last-release_owner owner t named = ground (arith, named)

no_owners-IsCounted : IsCounted no_owners
unfolding has_key lookup
no_owners-IsCounted = record { same = λ k. refl; positive = λ k h. absurd (ground (arith, h)) }

owned_iff :
    (t : Table) → IsCounted t → (k : String) → has_key k t.owners ≡ ltb 0 (count_of k t.owner_refs)
owned_iff t c k = ground (arith, c.same k, c.positive k, count_of-missing k t.owner_refs)

empty_iff :
    (t : Table)
    → IsCounted t
    → (length t.owners == 0 ≡ true) ↔ ((k : String) → count_of k t.owner_refs ≡ 0)
unfolding has_key lookup
empty_iff t c = (
  λ empty k. no_count t c k k (no_keys k t.owners empty),
  λ none_wants. nobody t.owners (λ k. ground (arith, none_wants k, c.same k, c.positive k)),
)
  where
    nobody : (m : Owners) → ((k : String) → has_key k m ≡ false) → (length m == 0) ≡ true
    nobody [] h = refl
    nobody ((j, u) ∷ m) h = absurd (ground (arith, h j, str_eq_iff j j))

wants-append :
    (n : ℕ) (k : String) (es : List OwnerEvent) (e : OwnerEvent)
    → wants n k (es ++ (e ∷ [])) ≡ wants_after (wants n k es) k e
unfolding wants
wants-append n k [] e = refl
wants-append n k (d ∷ es) e = wants-append (wants_after n k d) k es e

-- After any joins, releases and drops of named sessions on a fresh start, the counts and the
-- owners are those of a specification that counts how often each session wants the stream, and
-- the release of a session asks for a stop exactly when nobody wants the stream any more.
pub owners_count :
    (es : List OwnerEvent) (owner : String)
    → All IsNamed es
    → str_eq owner "" ≡ false
    → ((k : String) → count_of k (all_happen no_owners es).owner_refs ≡ wants 0 k es)
      × ((k : String) → has_key k (all_happen no_owners es).owners ≡ ltb 0 (wants 0 k es))
      × (((release_owner owner
              (all_happen no_owners es).owners
              (all_happen no_owners es).owner_refs).last
            ≡ true)
          ↔ ((k : String) → wants 0 k (es ++ (releases owner ∷ [])) ≡ 0))
unfolding happens count_of lookup
owners_count es owner named own =
    let t = all_happen no_owners es in
    let c = all_happen-IsCounted no_owners es no_owners-IsCounted named in
    let counts : (k : String) → count_of k t.owner_refs ≡ wants 0 k es =
      λ k. all_happen-wants no_owners es k no_owners-IsCounted named in
    let later = happens t (releases owner) in
    let empty = empty_iff later (happens-IsCounted t (releases owner) c own) in
    let after : (k : String)
        → count_of k later.owner_refs ≡ wants 0 k (es ++ (releases owner ∷ [])) =
      λ k.
        (happens-Fits t (releases owner) k c own).0
        ∙ ap (λ (n : ℕ). wants_after n k (releases owner)) (counts k)
        ∙ sym (wants-append 0 k es (releases owner)) in
    let last = last-release_owner owner t own in
    (
      counts,
      λ k. owned_iff t c k ∙ ap (λ (n : ℕ). ltb 0 n) (counts k),
      (
        λ l k. sym (after k) ∙ empty.0 (sym last ∙ l) k,
        λ nobody. last ∙ empty.1 (λ k. after k ∙ nobody k),
      ),
    )
