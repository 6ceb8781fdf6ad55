-- ===== src/PathGuard/Reserved.antt =====
-- The absolute paths of the guards, and the reserved directories that a guard keeps.
use cryp.Prelude.{
  ◌≡◌, refl, sym, ap, ◌∙◌, subst, length, ◌==◌, true, false, some, List, [], ◌∷◌, ◌++◌, ok, or_fail,
  ◌>>=◌, >>=-elim, or_fail-eq-ok, if◌then◌else◌, arith, Bool-cases, Option-cases, inl, inr,
}
use cryp.GoText.{Text, trim_space}
use cryp.GoPath.{is_rooted, elements, clean}
use cryp.GoPath.Clean.{elements-names, clean-rooted, clean-absolute}
use cryp.GoPath.Below.{starts_with}
use cryp.PathGuard.{Machine, GuardError, within, is_reserved, abs, real_item, reserve}
use cryp.PathGuard.Inside.{within-through}

pub clean-is_rooted : (p : Text) → is_rooted p ≡ true → is_rooted (clean p) ≡ true
unfolding is_rooted
clean-is_rooted p rooted = ap (λ (t : Text). is_rooted t) (clean-rooted p rooted)

joined : (folder p : Text) → is_rooted folder ≡ true → is_rooted (folder ++ (47 ∷ p)) ≡ true
unfolding is_rooted
joined [] p h = refl
joined (c ∷ cs) p h = h

pub clean-clean : (p : Text) → is_rooted p ≡ true → clean (clean p) ≡ clean p
clean-clean p rooted =
    ap (λ (t : Text). clean t) (clean-rooted p rooted)
    ∙ clean-absolute (elements p) (elements-names p rooted)
    ∙ sym (clean-rooted p rooted)

module _ (os : Machine) where
  -- An absolute path is absolute.
  pub abs_rooted : (p a : Text) → abs os p ≡ some a → is_rooted a ≡ true
  unfolding abs
  abs_rooted p a e = elim (Bool-cases (is_rooted p)) [
    | inl rooted ↦
        let same : clean p ≡ a = ground (arith, e, rooted) in
        subst (λ (t : Text). is_rooted t ≡ true) same (clean-is_rooted p rooted)
    | inr relative ↦ elim (Option-cases os.getwd) [
      | inl nowhere ↦ absurd (ground (arith, e, relative, nowhere))
      | inr (folder, at) ↦
          let same : clean (folder ++ (47 ∷ p)) ≡ a = ground (arith, e, relative, at) in
          subst (λ (t : Text). is_rooted t ≡ true) same
            (clean-is_rooted (folder ++ (47 ∷ p)) (joined folder p (os.getwd_rooted folder at)))
    ]
  ]

  -- It is clean.
  pub clean-abs : (p a : Text) → abs os p ≡ some a → clean a ≡ a
  unfolding abs
  clean-abs p a e = elim (Bool-cases (is_rooted p)) [
    | inl rooted ↦
        let same : clean p ≡ a = ground (arith, e, rooted) in
        subst (λ (t : Text). clean t ≡ t) same (clean-clean p rooted)
    | inr relative ↦ elim (Option-cases os.getwd) [
      | inl nowhere ↦ absurd (ground (arith, e, relative, nowhere))
      | inr (folder, at) ↦
          let same : clean (folder ++ (47 ∷ p)) ≡ a = ground (arith, e, relative, at) in
          subst (λ (t : Text). clean t ≡ t) same
            (clean-clean (folder ++ (47 ∷ p)) (joined folder p (os.getwd_rooted folder at)))
    ]
  ]

  real_item_rooted : (p : Text) → is_rooted p ≡ true → is_rooted (real_item os p) ≡ true
  unfolding real_item
  real_item_rooted p rooted = elim (Option-cases (os.eval_symlinks p)) [
    | inl broken ↦ rw (broken, real_item) (clean-is_rooted p rooted)
    | inr (real, at) ↦ rw (at, real_item) (os.eval_rooted p real rooted at)
  ]

  -- A place that is not in a reserved directory: each item that is not blank stands for a place,
  -- after its links are evaluated, and if that is at or below the root, the place is neither it
  -- nor below it.
  abbrev pub IsFreeOf : Text → Text → Text → Type 0
  IsFreeOf root_real item real =
      (path : Text)
      → (length (trim_space item) == 0) ≡ false
      → abs os (trim_space item) ≡ some path
      → starts_with (elements root_real) (elements (real_item os path)) ≡ true
      → starts_with (elements (real_item os path)) (elements real) ≡ false

  abbrev pub IsFree : Text → List Text → Text → Type 0
  IsFree root_real [] real = Unit
  IsFree root_real (item ∷ items) real = IsFreeOf root_real item real × IsFree root_real items real

  module _ (root_real real : Text) (hr : is_rooted root_real ≡ true) (h : is_rooted real ≡ true)
      (inside : within root_real real ≡ true) where
    item_free :
        (item path : Text) (others : List Text)
        → abs os (trim_space item) ≡ some path
        → is_reserved
            (if within root_real (real_item os path)
              then clean (real_item os path) ∷ others
              else others)
            real
          ≡ false
        → IsFreeOf root_real item real
    unfolding is_reserved
    item_free item path others at free p full here below =
        let same : path ≡ p = ground (arith, at, here) in
        let rooted = real_item_rooted p (abs_rooted (trim_space item) p here) in
        elim (Bool-cases (starts_with (elements (real_item os p)) (elements real))) [
          | inr outside ↦ outside
          | inl under ↦
              let both =
                within-through root_real (real_item os p) real hr rooted h inside below under in
              absurd (ground (arith, same, both.0, both.1, free))
        ]

    others_free :
        (item path : Text) (others : List Text)
        → is_reserved
            (if within root_real (real_item os path)
              then clean (real_item os path) ∷ others
              else others)
            real
          ≡ false
        → is_reserved others real ≡ false
    unfolding is_reserved
    others_free item path others free = ground (arith, free)

    -- What is in none of the directories that a guard keeps is in no reserved directory.
    pub reserve-IsFree :
        (reserved items : List Text)
        → reserve os root_real reserved ≡ ok items
        → is_reserved items real ≡ false
        → IsFree root_real reserved real
    unfolding reserve
    reserve-IsFree [] items e free = tt
    reserve-IsFree (item ∷ rest) items e free = elim (Bool-cases (length (trim_space item) == 0)) [
      | inl blank ↦ (
        λ path full. absurd (ground (arith, blank, full)),
        reserve-IsFree rest items (ground (arith, e, blank)) free,
      )
      | inr full ↦
          let kept : (or_fail (abs os (trim_space item)) GuardError.unresolved >>= λ path.
          reserve os root_real rest >>= λ others. ok (
            if within root_real (real_item os path)
            then clean (real_item os path) ∷ others
            else others))
              ≡ ok items =
            ground (arith, e, full) in
          >>=-elim (or_fail (abs os (trim_space item)) GuardError.unresolved) _ kept λ path e1 h1.
            >>=-elim (reserve os root_real rest) _ h1 λ others e2 h2.
              let at = or_fail-eq-ok (abs os (trim_space item)) _ e1 in
              let same : (if within root_real (real_item os path)
                    then clean (real_item os path) ∷ others
                    else others)
                  ≡ items =
                ground (arith, h2) in
              let open_there =
                subst (λ (l : List Text). is_reserved l real ≡ false) (sym same) free in
              (
                item_free item path others at open_there,
                reserve-IsFree rest others e2 (others_free item path others open_there),
              )
    ]
