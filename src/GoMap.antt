-- ===== src/GoMap.antt =====
-- Go's maps with string keys, as association lists: the program never depends on the order of
-- iteration. A missing key is `none`.
use text.Mathlib.TextEquality.{eq_iff}
use text.Mathlib.Text.{◌==◌}
use Prim.Native.String.{String}
use mathlib.Core.Path.{subst, subst₂}
use cryp.Prelude.{
  ◌≡◌, ◌↔◌, inl, inr, Bool-cases, refl, Bool, true, false, Option, none, some, List, [], ◌∷◌, arith,
  if◌then◌else◌,
}

abbrev pub str_eq : String → String → Bool
str_eq a b = a == b

pub str_eq_iff : (a b : String) → (str_eq a b ≡ true) ↔ (a ≡ b)
str_eq_iff a b = eq_iff a b

module _ {ℓ} {V : Type ℓ} where
  -- `m[k]`.
  unfoldable pub lookup : String → List (String × V) → Option V
  lookup key [] = none
  lookup key ((name, v) ∷ others) = if str_eq name key then some v else lookup key others

  -- `m[k] = v`.
  unfoldable pub insert : String → V → List (String × V) → List (String × V)
  insert k v [] = (k, v) ∷ []
  insert k v ((j, w) ∷ m) =
      let rest = insert k v m in if str_eq j k then (k, v) ∷ m else (j, w) ∷ rest

  -- `delete(m, k)`.
  unfoldable pub remove : String → List (String × V) → List (String × V)
  remove k [] = []
  remove k ((j, v) ∷ m) = let rest = remove k m in if str_eq j k then rest else (j, v) ∷ rest

  pub lookup-insert :
      (put want : String) (new : V) (others : List (String × V))
      → lookup want (insert put new others)
        ≡ (if str_eq put want then some new else lookup want others)
  unfolding insert lookup
  lookup-insert put want new [] = refl
  lookup-insert put want new ((name, old) ∷ others) =
      ground (
        arith,
        lookup-insert put want new others,
        eq_iff name put,
        eq_iff name want,
        eq_iff put want,
      )

  pub lookup-remove :
      (k j : String) (m : List (String × V))
      → lookup j (remove k m) ≡ (if str_eq k j then none else lookup j m)
  unfolding lookup remove
  lookup-remove k j [] = ground arith
  lookup-remove k j ((i, v) ∷ m) =
      ground (arith, lookup-remove k j m, eq_iff i k, eq_iff i j, eq_iff k j)

  -- A property of every entry.
  abbrev pub Every {κ} : (String → V → Type κ) → List (String × V) → Type κ
  Every P [] = Unit
  Every P ((k, v) ∷ m) = P k v × Every P m

  module _ {κ} (P : String → V → Type κ) where
    pub Every-insert :
        (k : String) (v : V) (m : List (String × V)) → P k v → Every P m → Every P (insert k v m)
    unfolding insert
    Every-insert k v [] p h = (p, tt)
    Every-insert k v ((j, w) ∷ m) p h = elim (Bool-cases (str_eq j k)) [
      | inl same ↦ rw same (p, h.1)
      | inr other ↦ rw other (h.0, Every-insert k v m p h.1)
    ]

    pub Every-remove : (k : String) (m : List (String × V)) → Every P m → Every P (remove k m)
    unfolding remove
    Every-remove k [] h = tt
    Every-remove k ((j, w) ∷ m) h = elim (Bool-cases (str_eq j k)) [
      | inl same ↦ rw same (Every-remove k m h.1)
      | inr other ↦ rw other (h.0, Every-remove k m h.1)
    ]

    pub Every-lookup :
        (k : String) (m : List (String × V)) (v : V) → Every P m → lookup k m ≡ some v → P k v
    unfolding lookup
    Every-lookup k [] v h e = absurd (ground arith)
    Every-lookup k ((j, w) ∷ m) v h e = elim (Bool-cases (str_eq j k)) [
      | inl same ↦
          let key : j ≡ k = (eq_iff j k).0 same in
          let value : w ≡ v = ground arith in subst₂ P key value h.0
      | inr other ↦ Every-lookup k m v h.1 (ground arith)
    ]

  -- No key stands twice.
  abbrev pub IsMap : List (String × V) → Type 0
  IsMap [] = Unit
  IsMap ((k, v) ∷ m) = Every (λ j _. str_eq j k ≡ false) m × IsMap m

  pub IsMap-insert : (k : String) (v : V) (m : List (String × V)) → IsMap m → IsMap (insert k v m)
  unfolding insert
  IsMap-insert k v [] h = (tt, tt)
  IsMap-insert k v ((j, w) ∷ m) h = elim (Bool-cases (str_eq j k)) [
    | inl same ↦
        let key : j ≡ k = (eq_iff j k).0 same in
        rw same (subst (λ (t : String). Every (λ i _. str_eq i t ≡ false) m) key h.0, h.1)
    | inr other ↦ rw other (
      Every-insert (λ i _. str_eq i j ≡ false) k v m (ground (arith, eq_iff k j, eq_iff j k)) h.0,
      IsMap-insert k v m h.1,
    )
  ]

  pub IsMap-remove : (k : String) (m : List (String × V)) → IsMap m → IsMap (remove k m)
  unfolding remove
  IsMap-remove k [] h = tt
  IsMap-remove k ((j, w) ∷ m) h = elim (Bool-cases (str_eq j k)) [
    | inl same ↦ rw same (IsMap-remove k m h.1)
    | inr other ↦ rw other (Every-remove (λ i _. str_eq i j ≡ false) k m h.0, IsMap-remove k m h.1)
  ]

  -- A key that differs from every key of the map is missing.
  pub lookup_missing :
      (k : String) (m : List (String × V)) → Every (λ j _. str_eq j k ≡ false) m → lookup k m ≡ none
  unfolding lookup
  lookup_missing k [] h = refl
  lookup_missing k ((j, v) ∷ m) h = rw h.0 (lookup_missing k m h.1)
