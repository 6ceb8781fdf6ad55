-- ===== src/GoPath/Clean.antt =====
-- Clean absolute paths: their elements, parents and last names.
use cryp.Prelude.{
  ◌≡◌, refl, ap, ◌∙◌, ℕ, Bool, true, false, ◌&&◌, ◌||◌, not, List, [], ◌∷◌, ◌++◌, ◌==◌, length,
  arith, append-nil, subst,
}
use cryp.GoText.{Text}
use cryp.GoPath.{
  onto_first, split_path, join_path, is_dot, is_dot_dot, go_up, keep_element, clean_onto,
  reverse_onto, is_rooted, elements, clean,
}

-- No slash in a text.
unfoldable pub no_slash : Text → Bool
no_slash [] = true
no_slash (c ∷ cs) = let rest = no_slash cs in not (c == 47) && rest

-- An element that `filepath.Clean` keeps.
unfoldable pub is_name : Text → Bool
is_name s = no_slash s && not (length s == 0) && not (is_dot s) && not (is_dot_dot s)

unfoldable pub all_names : List Text → Bool
all_names [] = true
all_names (s ∷ ss) = let rest = all_names ss in is_name s && rest

-- The absolute path with these elements.
abbrev pub absolute : List Text → Text
absolute names = 47 ∷ join_path names

-- All elements of a split path are without slashes.
unfoldable pub all_plain : List Text → Bool
all_plain [] = true
all_plain (s ∷ ss) = let rest = all_plain ss in no_slash s && rest

onto_first-plain :
    (c : ℕ) (ss : List Text)
    → (c == 47) ≡ false
    → all_plain ss ≡ true
    → all_plain (onto_first c ss) ≡ true
unfolding onto_first all_plain no_slash
onto_first-plain c [] h p = ground (arith, h)
onto_first-plain c (s ∷ ss) h p = ground (arith, h, p)

split_path-plain : (path : Text) → all_plain (split_path path) ≡ true
unfolding split_path all_plain no_slash
split_path-plain [] = refl
split_path-plain (c ∷ cs) = ground (arith, split_path-plain cs, onto_first-plain c (split_path cs))

-- What is kept below the root is made of names.
keep_element-names :
    (kept : List Text) (s : Text)
    → all_names kept ≡ true
    → no_slash s ≡ true
    → all_names (keep_element true kept s) ≡ true
unfolding keep_element all_names is_name go_up
keep_element-names [] s h p = ground (arith, h, p)
keep_element-names (last ∷ kept) s h p = ground (arith, h, p)

clean_onto-names :
    (kept parts : List Text)
    → all_names kept ≡ true
    → all_plain parts ≡ true
    → all_names (clean_onto true kept parts) ≡ true
unfolding clean_onto all_plain
clean_onto-names kept [] h p = h
clean_onto-names kept (s ∷ rest) h p =
    clean_onto-names (keep_element true kept s) rest
      (keep_element-names kept s h (ground (arith, p))) (ground (arith, p))

reverse_onto-names :
    (out names : List Text)
    → all_names out ≡ true
    → all_names names ≡ true
    → all_names (reverse_onto out names) ≡ true
unfolding reverse_onto all_names
reverse_onto-names out [] h p = h
reverse_onto-names out (s ∷ rest) h p =
    reverse_onto-names (s ∷ out) rest (ground (arith, h, p)) (ground (arith, p))

pub elements-names : (path : Text) → is_rooted path ≡ true → all_names (elements path) ≡ true
unfolding elements all_names
elements-names path rooted =
    reverse_onto-names [] _ refl
      (rw rooted (clean_onto-names [] (split_path path) refl (split_path-plain path)))

-- A split undoes a join.
split_path-last : (s : Text) → no_slash s ≡ true → split_path s ≡ s ∷ []
unfolding split_path no_slash onto_first
split_path-last [] h = refl
split_path-last (c ∷ cs) h =
    let rest : split_path cs ≡ cs ∷ [] = split_path-last cs (ground (arith, h)) in
    let other : (c == 47) ≡ false = ground (arith, h) in rw (other, rest) refl

split_path-append : (s t : Text) → no_slash s ≡ true → split_path (s ++ (47 ∷ t)) ≡ s ∷ split_path t
unfolding split_path no_slash onto_first
split_path-append [] t h = refl
split_path-append (c ∷ cs) t h =
    let rest = split_path-append cs t (ground (arith, h)) in
    let other : (c == 47) ≡ false = ground (arith, h) in rw (other, rest) refl

pub split_path-join_path :
    (s : Text) (ss : List Text)
    → all_plain (s ∷ ss) ≡ true
    → split_path (join_path (s ∷ ss)) ≡ s ∷ ss
unfolding join_path all_plain
split_path-join_path s [] h = split_path-last s (ground (arith, h))
split_path-join_path s (t ∷ ts) h =
    split_path-append s (join_path (t ∷ ts)) (ground (arith, h))
    ∙ ap (λ (r : List Text). s ∷ r) (split_path-join_path t ts (ground (arith, h)))

-- Names are all kept.
pub clean_onto-all :
    (kept names : List Text)
    → all_names names ≡ true
    → clean_onto true kept names ≡ reverse_onto kept names
unfolding clean_onto keep_element reverse_onto all_names is_name
clean_onto-all kept [] h = refl
clean_onto-all kept (s ∷ rest) h =
    let skip : (length s == 0) || is_dot s ≡ false = ground (arith, h) in
    let up : is_dot_dot s ≡ false = ground (arith, h) in
    rw (skip, up) (clean_onto-all (s ∷ kept) rest (ground (arith, h)))

reverse_onto-reverse_onto :
    (a b names : List Text) → reverse_onto a (reverse_onto b names) ≡ reverse_onto (names ++ a) b
unfolding reverse_onto
reverse_onto-reverse_onto a b [] = refl
reverse_onto-reverse_onto a b (s ∷ rest) = reverse_onto-reverse_onto a (s ∷ b) rest

pub names-plain : (names : List Text) → all_names names ≡ true → all_plain names ≡ true
unfolding all_names all_plain is_name
names-plain [] h = refl
names-plain (s ∷ ss) h = ground (arith, h, names-plain ss)

pub elements_of_parts :
    (path : Text) (names : List Text)
    → is_rooted path ≡ true
    → clean_onto true [] (split_path path) ≡ reverse_onto [] names
    → elements path ≡ names
unfolding elements reverse_onto
elements_of_parts path names rooted e =
    rw (rooted, e) (reverse_onto-reverse_onto [] [] names ∙ append-nil names)

-- Cleaning keeps a clean absolute path, also with a slash at its end.
pub elements-absolute :
    (names : List Text) → all_names names ≡ true → elements (absolute names) ≡ names
unfolding clean_onto split_path is_rooted elements reverse_onto join_path keep_element
elements-absolute [] h = refl
elements-absolute (s ∷ ss) h = elements_of_parts (absolute (s ∷ ss)) (s ∷ ss) refl (
    ap (λ (r : List Text). clean_onto true [] r)
      (split_path-join_path s ss (names-plain (s ∷ ss) h))
    ∙ clean_onto-all [] (s ∷ ss) h)

pub clean-rooted : (path : Text) → is_rooted path ≡ true → clean path ≡ absolute (elements path)
unfolding clean
clean-rooted path rooted = rw (rooted, clean) refl

pub clean-absolute :
    (names : List Text) → all_names names ≡ true → clean (absolute names) ≡ absolute names
unfolding is_rooted
clean-absolute names h =
    clean-rooted (absolute names) refl
    ∙ ap (λ (r : List Text). absolute r) (elements-absolute names h)

-- A path with these elements.
pub clean-of_elements :
    (path : Text) (names : List Text)
    → is_rooted path ≡ true
    → elements path ≡ names
    → clean path ≡ absolute names
clean-of_elements path names rooted e =
    clean-rooted path rooted ∙ ap (λ (r : List Text). absolute r) e

pub elements-all_names :
    (path : Text) (names : List Text)
    → is_rooted path ≡ true
    → elements path ≡ names
    → all_names names ≡ true
elements-all_names path names rooted e =
    subst (λ (r : List Text). all_names r ≡ true) e (elements-names path rooted)

pub clean_onto-append :
    (kept xs ys : List Text)
    → clean_onto true kept (xs ++ ys) ≡ clean_onto true (clean_onto true kept xs) ys
unfolding clean_onto
clean_onto-append kept [] ys = refl
clean_onto-append kept (x ∷ xs) ys = clean_onto-append (keep_element true kept x) xs ys
