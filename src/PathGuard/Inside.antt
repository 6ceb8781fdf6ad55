-- ===== src/PathGuard/Inside.antt =====
-- `within` compares the elements of absolute paths.
use cryp.Prelude.{◌≡◌, refl, ap, ◌∙◌, subst, true, List, [], ◌∷◌, arith}
use cryp.GoText.{Text, text_eq, cut_prefix}
use cryp.GoPath.{is_rooted, elements, is_below, is_cut, join_path, clean}
use cryp.GoPath.Clean.{
  no_slash, is_name, all_names, absolute, elements-names, clean-rooted, clean-absolute,
}
use cryp.GoPath.Below.{starts_with, is_below-absolute}
use cryp.PathGuard.{within}

inside_names :
    (ns ms : List Text)
    → all_names ns ≡ true
    → all_names ms ≡ true
    → is_below (absolute ns) (absolute ms) ≡ true
    → starts_with ns ms ≡ true
unfolding starts_with
inside_names [] ms hn hm h = refl
inside_names (n ∷ ns) ms hn hm h = ground (arith, is_below-absolute n ns ms hn hm, h)

-- A path that `within` accepts is below the root.
pub within-starts_with :
    (root candidate : Text)
    → is_rooted root ≡ true
    → is_rooted candidate ≡ true
    → within root candidate ≡ true
    → starts_with (elements root) (elements candidate) ≡ true
unfolding within
within-starts_with root candidate h k e =
    inside_names (elements root) (elements candidate) (elements-names root h)
      (elements-names candidate k) (rw (← clean-rooted root h, ← clean-rooted candidate k) e)

-- Below the root of the file system `within` accepts the root only.
only_root :
    (ms : List Text) → all_names ms ≡ true → is_below (absolute []) (absolute ms) ≡ true → ms ≡ []
unfolding is_below is_cut text_eq cut_prefix join_path all_names is_name no_slash
only_root [] hm h = refl
only_root ([] ∷ []) hm h = absurd (ground (arith, hm))
only_root ((c ∷ cs) ∷ []) hm h = absurd (ground (arith, hm, h))
only_root ([] ∷ m ∷ ms) hm h = absurd (ground (arith, hm))
only_root ((c ∷ cs) ∷ m ∷ ms) hm h = absurd (ground (arith, hm, h))

nothing_below_root : is_below (absolute []) (absolute []) ≡ true
unfolding is_below is_cut text_eq cut_prefix join_path
nothing_below_root = refl

starts_with_nothing : (ns : List Text) → starts_with ns [] ≡ true → ns ≡ []
unfolding starts_with
starts_with_nothing [] h = refl
starts_with_nothing (n ∷ ns) h = absurd (ground (arith, h))

names_below :
    (rs is fs : List Text)
    → all_names rs ≡ true
    → all_names is ≡ true
    → all_names fs ≡ true
    → is_below (absolute rs) (absolute fs) ≡ true
    → starts_with rs is ≡ true
    → starts_with is fs ≡ true
    → (is_below (absolute rs) (absolute is) ≡ true) × (is_below (absolute is) (absolute fs) ≡ true)
unfolding starts_with
names_below [] is fs hr hi hf inside item below =
    let none_left = only_root fs hf inside in
    let empty =
      starts_with_nothing is (subst (λ (t : List Text). starts_with is t ≡ true) none_left below) in
    rw (none_left, empty) (nothing_below_root, nothing_below_root)
names_below (r ∷ rs) [] fs hr hi hf inside item below = absurd (ground (arith, item))
names_below (r ∷ rs) (i ∷ is) fs hr hi hf inside item below =
    (is_below-absolute r rs (i ∷ is) hr hi ∙ item, is_below-absolute i is fs hi hf ∙ below)

-- A folder that `within` accepts and that is below an item which is below the root: `within` finds
-- both.
pub within-through :
    (root item folder : Text)
    → is_rooted root ≡ true
    → is_rooted item ≡ true
    → is_rooted folder ≡ true
    → within root folder ≡ true
    → starts_with (elements root) (elements item) ≡ true
    → starts_with (elements item) (elements folder) ≡ true
    → (within root item ≡ true) × (within (clean item) folder ≡ true)
unfolding within
within-through root item folder hr hi hf inside below_root below_item =
    let ni = elements-names item hi in
    let cr = clean-rooted root hr in
    let ci = clean-rooted item hi in
    let cf = clean-rooted folder hf in
    let again : clean (clean item) ≡ absolute (elements item) =
      ap (λ (t : Text). clean t) ci ∙ clean-absolute (elements item) ni in
    let both =
      names_below (elements root) (elements item) (elements folder) (elements-names root hr) ni
        (elements-names folder hf) (rw (← cr, ← cf) inside) below_root below_item in
    (rw (cr, ci) both.0, rw (again, cf) both.1)
