-- ===== src/GoPath/Below.antt =====
-- A path below another, by its characters and by its elements.
use cryp.Prelude.{
  ◌≡◌, refl, sym, ap, ◌∙◌, append-nil, ℕ, Bool, true, false, ◌&&◌, List, [], ◌∷◌, ◌++◌, ◌==◌, arith,
}
use cryp.GoText.{Text, text_eq, cut_prefix}
use cryp.GoPath.{join_path, is_cut, is_below}
use cryp.GoPath.Clean.{no_slash, is_name, all_names, absolute}

-- The first elements of a path, one by one.
unfoldable pub starts_with : List Text → List Text → Bool
starts_with [] path = true
starts_with (s ∷ ss) [] = false
starts_with (s ∷ ss) (t ∷ ts) = let rest = starts_with ss ts in text_eq t s && rest

-- What follows an element: nothing, or a slash and more.
data IsTail : Text → Type 0 where
  ends : IsTail []
  goes_on : (s : Text) → IsTail (47 ∷ s)

is_below-cons :
    (c d : ℕ) (top path : Text) → is_below (c ∷ top) (d ∷ path) ≡ ((c == d) && is_below top path)
unfolding is_below is_cut text_eq cut_prefix
is_below-cons c d top path = ground arith

-- Elements without slashes are compared as a whole.
is_below-append :
    (n m : Text) {a b : Text}
    → no_slash n ≡ true
    → no_slash m ≡ true
    → IsTail a
    → IsTail b
    → is_below (n ++ a) (m ++ b) ≡ (text_eq m n && is_below a b)
unfolding no_slash text_eq is_below is_cut cut_prefix
is_below-append [] [] hn hm ta tb = refl
is_below-append [] (d ∷ m) hn hm ends tb = ground (arith, hm)
is_below-append [] (d ∷ m) hn hm (goes_on a) tb = ground (arith, hm)
is_below-append (c ∷ n) [] hn hm ta ends = ground (arith, hn)
is_below-append (c ∷ n) [] hn hm ta (goes_on b) = ground (arith, hn)
is_below-append (c ∷ n) (d ∷ m) {a} {b} hn hm ta tb =
    is_below-cons c d (n ++ a) (m ++ b)
    ∙ ground (arith, is_below-append n m (ground (arith, hn)) (ground (arith, hm)) ta tb)

-- The elements behind the first one.
abbrev pub tail_path : List Text → Text
tail_path [] = []
tail_path (t ∷ ts) = 47 ∷ join_path (t ∷ ts)

tail_path-IsTail : (ts : List Text) → IsTail (tail_path ts)
tail_path-IsTail [] = ends
tail_path-IsTail (t ∷ ts) = goes_on (join_path (t ∷ ts))

pub join_path-cons : (t : Text) (ts : List Text) → join_path (t ∷ ts) ≡ t ++ tail_path ts
unfolding join_path
join_path-cons t [] = sym (append-nil t)
join_path-cons t (u ∷ ts) = refl

-- Nothing is below the empty path, and the empty path below no other.
is_below-nothing : (ts : List Text) → is_below [] (tail_path ts) ≡ true
unfolding is_below is_cut text_eq cut_prefix
is_below-nothing [] = refl
is_below-nothing (t ∷ ts) = refl

not_below : (n a : Text) → is_name n ≡ true → is_below (n ++ a) [] ≡ false
unfolding is_below is_cut text_eq cut_prefix is_name
not_below [] a h = absurd (ground (arith, h))
not_below (c ∷ n) a h = refl

not_below_tail : (t : Text) (ts : List Text) → is_below (tail_path (t ∷ ts)) [] ≡ false
unfolding is_below is_cut text_eq cut_prefix
not_below_tail t ts = refl

is_below-tails :
    (ns ms : List Text)
    → all_names ns ≡ true
    → all_names ms ≡ true
    → is_below (tail_path ns) (tail_path ms) ≡ starts_with ns ms
unfolding starts_with all_names is_name
is_below-tails [] ms hn hm = is_below-nothing ms
is_below-tails (n ∷ ns) [] hn hm = not_below_tail n ns
is_below-tails (n ∷ ns) (m ∷ ms) hn hm =
    is_below-cons 47 47 (join_path (n ∷ ns)) (join_path (m ∷ ms))
    ∙ rw (join_path-cons n ns, join_path-cons m ms)
        (is_below-append n m (ground (arith, hn)) (ground (arith, hm)) (tail_path-IsTail ns)
            (tail_path-IsTail ms)
          ∙ ap (λ (r : Bool). text_eq m n && r)
              (is_below-tails ns ms (ground (arith, hn)) (ground (arith, hm))))

pub is_below-absolute :
    (n : Text) (ns ms : List Text)
    → all_names (n ∷ ns) ≡ true
    → all_names ms ≡ true
    → is_below (absolute (n ∷ ns)) (absolute ms) ≡ starts_with (n ∷ ns) ms
unfolding starts_with all_names join_path
is_below-absolute n ns [] hn hm =
    is_below-cons 47 47 (join_path (n ∷ ns)) []
    ∙ ap (λ (r : Text). is_below r []) (join_path-cons n ns)
    ∙ not_below n (tail_path ns) (ground (arith, hn))
is_below-absolute n ns (m ∷ ms) hn hm = is_below-tails (n ∷ ns) (m ∷ ms) hn hm
