-- ===== src/Toy/Paths.antt =====
-- A machine without links, on which every path is a directory.
use cryp.Prelude.{
  ◌≡◌, sym, subst, ap, ◌∙◌, true, Option, none, some, if◌then◌else◌, arith, Bool-cases, inl, inr,
}
use cryp.GoText.{Text}
use cryp.GoPath.{is_rooted, elements, clean}
use cryp.GoPath.Clean.{elements-names, clean-rooted, clean-absolute}
use cryp.PathGuard.{directory, found, Machine}
use cryp.PathGuard.Reserved.{clean-is_rooted}

abbrev pub toy_eval : Text → Option Text
toy_eval p = if is_rooted p then some (clean p) else none

pub toy_eval_keeps_rooted :
    (p r : Text) → is_rooted p ≡ true → toy_eval p ≡ some r → is_rooted r ≡ true
toy_eval_keeps_rooted p r h e = ground (arith, e, h, clean-is_rooted p h)

pub toy_eval-clean : (p r : Text) → toy_eval p ≡ some r → clean r ≡ r
toy_eval-clean p r e = elim (Bool-cases (is_rooted p)) [
  | inr relative ↦ absurd (ground (arith, e, relative))
  | inl rooted ↦
      let again : clean (clean p) ≡ clean p =
        ap (λ (t : Text). clean t) (clean-rooted p rooted)
        ∙ clean-absolute (elements p) (elements-names p rooted)
        ∙ sym (clean-rooted p rooted) in
      let same : clean p ≡ r = ground (arith, e, rooted) in
      subst (λ (t : Text). clean t ≡ t) same again
]

abbrev pub toy_machine : Machine
toy_machine = record {
  getwd = none;
  eval_symlinks = toy_eval;
  stat = λ p. some directory;
  lstat = λ p. found directory;
  eval_rooted = toy_eval_keeps_rooted;
  eval_clean = toy_eval-clean;
  getwd_rooted = λ d e. absurd (ground (arith, e));
}
