-- ===== src/GoPath/Parent.antt =====
-- The parent and the last name of a clean absolute path.
use cryp.Prelude.{
  ◌≡◌, refl, sym, ap, ◌∙◌, ℕ, ◌<◌, true, false, ◌&&◌, not, List, [], ◌∷◌, ◌++◌, ◌==◌, length,
  if◌then◌else◌, arith, append_assoc, length-append,
}
use cryp.GoText.{Text}
use cryp.GoPath.{
  split_path, join_path, keep_element, clean_onto, reverse_onto, is_rooted, clean, up_to_slash,
  behind_slash, dir, trim_slashes, base,
}
use cryp.GoPath.Clean.{
  no_slash, is_name, all_names, all_plain, absolute, split_path-join_path, clean_onto-all,
  names-plain, elements_of_parts, clean_onto-append, clean-rooted, clean-absolute,
}

up_to_slash-none : (s : Text) → no_slash s ≡ true → up_to_slash s ≡ []
unfolding up_to_slash no_slash
up_to_slash-none [] h = refl
up_to_slash-none (c ∷ cs) h =
    let rest = up_to_slash-none cs (ground (arith, h)) in
    let other : (c == 47) ≡ false = ground (arith, h) in rw (rest, other) refl

up_to_slash-append : (t s : Text) → no_slash s ≡ true → up_to_slash (t ++ (47 ∷ s)) ≡ t ++ (47 ∷ [])
unfolding up_to_slash
up_to_slash-append [] s h = rw (up_to_slash-none s h) refl
up_to_slash-append (c ∷ t) s h = rw (up_to_slash-append t s h) (more c t)
  where
    more :
        (c : ℕ) (t : Text)
        → ◌≡◌ {A = Text}
            (if not (length (t ++ (47 ∷ [])) == 0)
              then c ∷ (t ++ (47 ∷ []))
              else if c == 47
              then c ∷ []
              else [])
            (c ∷ (t ++ (47 ∷ [])))
    more c [] = refl
    more c (d ∷ t) =
        let some_there : not (length (d ∷ t ++ (47 ∷ [])) == 0) ≡ true = ground arith in
        rw some_there refl

behind_slash-append : (t s : Text) → no_slash s ≡ true → behind_slash (t ++ (47 ∷ s)) ≡ s
unfolding behind_slash
behind_slash-append [] s h = rw (up_to_slash-none s h) refl
behind_slash-append (c ∷ t) s h =
    let there : not (length (up_to_slash (t ++ (47 ∷ s))) == 0) ≡ true =
      ground (
        arith,
        ap (λ (r : Text). length r) (up_to_slash-append t s h),
        length-append t (47 ∷ []),
      ) in
    rw there (behind_slash-append t s h)

trim_slashes-none : (s : Text) → no_slash s ≡ true → trim_slashes s ≡ s
unfolding trim_slashes no_slash
trim_slashes-none [] h = refl
trim_slashes-none (c ∷ cs) h =
    let rest = trim_slashes-none cs (ground (arith, h)) in
    let other : (c == 47) ≡ false = ground (arith, h) in rw (rest, other) refl

trim_slashes-append :
    (t s : Text) → no_slash s ≡ true → 0 < length s → trim_slashes (t ++ s) ≡ t ++ s
unfolding trim_slashes
trim_slashes-append [] s h there = trim_slashes-none s h
trim_slashes-append (c ∷ t) s h there =
    let rest = trim_slashes-append t s h there in
    let kept : (c == 47) && (length (t ++ s) == 0) ≡ false = ground (arith, length-append t s) in
    rw (rest, kept) refl

-- A last element and what stands in front of it.
absolute-append :
    (n : Text) (ns : List Text) (s : Text)
    → absolute ((n ∷ ns) ++ (s ∷ [])) ≡ absolute (n ∷ ns) ++ (47 ∷ s)
unfolding join_path
absolute-append n [] s = refl
absolute-append n (m ∷ ms) s =
    ap (λ (r : Text). 47 ∷ (n ++ r)) (absolute-append m ms s)
    ∙ ap (λ (r : Text). 47 ∷ r) (sym (append_assoc n (absolute (m ∷ ms)) (47 ∷ s)))

pub all_names-front :
    (ns : List Text) (s : Text) → all_names (ns ++ (s ∷ [])) ≡ true → all_names ns ≡ true
unfolding all_names
all_names-front [] s h = refl
all_names-front (n ∷ ns) s h = ground (arith, h, all_names-front ns s)

pub all_names-last :
    (ns : List Text) (s : Text) → all_names (ns ++ (s ∷ [])) ≡ true → is_name s ≡ true
unfolding all_names
all_names-last [] s h = ground (arith, h)
all_names-last (n ∷ ns) s h = all_names-last ns s (ground (arith, h))

plain-with_end : (ns : List Text) → all_plain ns ≡ true → all_plain (ns ++ ([] ∷ [])) ≡ true
unfolding all_plain no_slash
plain-with_end [] h = refl
plain-with_end (n ∷ ns) h = ground (arith, h, plain-with_end ns)

-- A slash at the end is cleaned away.
clean-slash_end :
    (n : Text) (ns : List Text)
    → all_names (n ∷ ns) ≡ true
    → clean (absolute (n ∷ ns) ++ (47 ∷ [])) ≡ absolute (n ∷ ns)
unfolding is_rooted split_path clean_onto keep_element
clean-slash_end n ns h =
    let path = absolute (n ∷ ns) ++ (47 ∷ []) in
    let parts : split_path path ≡ [] ∷ ((n ∷ ns) ++ ([] ∷ [])) =
      ap (λ (r : Text). split_path r) (sym (absolute-append n ns []))
      ∙ ap (λ (r : List Text). [] ∷ r)
          (split_path-join_path n (ns ++ ([] ∷ []))
            (plain-with_end (n ∷ ns) (names-plain (n ∷ ns) h))) in
    let kept : clean_onto true [] (split_path path) ≡ reverse_onto [] (n ∷ ns) =
      ap (λ (r : List Text). clean_onto true [] r) parts
      ∙ clean_onto-append [] (n ∷ ns) ([] ∷ [])
      ∙ clean_onto-all [] (n ∷ ns) h in
    clean-rooted path refl
    ∙ ap (λ (r : List Text). absolute r) (elements_of_parts path (n ∷ ns) refl kept)

pub dir-absolute :
    (ns : List Text) (s : Text)
    → all_names (ns ++ (s ∷ [])) ≡ true
    → dir (absolute (ns ++ (s ∷ []))) ≡ absolute ns
unfolding dir join_path is_name all_names
dir-absolute [] s h =
    ap (λ (r : Text). clean r) (up_to_slash-append [] s (ground (arith, all_names-last [] s h)))
    ∙ clean-absolute [] refl
dir-absolute (n ∷ ns) s h =
    ap (λ (r : Text). clean (up_to_slash r)) (absolute-append n ns s)
    ∙ ap (λ (r : Text). clean r)
        (up_to_slash-append (absolute (n ∷ ns)) s (ground (arith, all_names-last (n ∷ ns) s h)))
    ∙ clean-slash_end n ns (all_names-front (n ∷ ns) s h)

base_of : (t s : Text) → is_name s ≡ true → base (t ++ (47 ∷ s)) ≡ s
unfolding base is_name
base_of t s h =
    let plain : no_slash s ≡ true = ground (arith, h) in
    let there : 0 < length s = ground (arith, h) in
    let shape = append_assoc t (47 ∷ []) s in
    let trimmed : trim_slashes (t ++ (47 ∷ s)) ≡ t ++ (47 ∷ s) =
      ap (λ (r : Text). trim_slashes r) (sym shape)
      ∙ trim_slashes-append (t ++ (47 ∷ [])) s plain there
      ∙ shape in
    let last : behind_slash (trim_slashes (t ++ (47 ∷ s))) ≡ s =
      ap (λ (r : Text). behind_slash r) trimmed ∙ behind_slash-append t s plain in
    let some_there : (length (t ++ (47 ∷ s)) == 0) ≡ false =
      ground (arith, length-append t (47 ∷ s)) in
    let not_empty : (length s == 0) ≡ false = ground (arith, there) in
    rw (some_there, last, not_empty) refl

pub base-absolute :
    (ns : List Text) (s : Text)
    → all_names (ns ++ (s ∷ [])) ≡ true
    → base (absolute (ns ++ (s ∷ []))) ≡ s
unfolding join_path
base-absolute [] s h = base_of [] s (all_names-last [] s h)
base-absolute (n ∷ ns) s h =
    ap (λ (r : Text). base r) (absolute-append n ns s)
    ∙ base_of (absolute (n ∷ ns)) s (all_names-last (n ∷ ns) s h)
