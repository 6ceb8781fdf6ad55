-- ===== src/Hls/Within.antt =====
-- `hlsPathWithin` compares the elements of the paths.
use cryp.Prelude.{
  ◌≡◌, refl, ap, true, false, List, [], ◌∷◌, length, if◌then◌else◌, arith, length-append,
}
use cryp.GoText.{Text}
use cryp.GoPath.{join_path, is_rooted, elements, is_below}
use cryp.GoPath.Clean.{is_name, all_names, absolute, elements-names}
use cryp.GoPath.Below.{starts_with, tail_path, join_path-cons, is_below-absolute}
use cryp.Crypto.Names.Index.{is_root}
use cryp.FileIndex.Links.{normalize-rooted}
use cryp.Hls.Stop.{hls_path_within}

not_root :
    (n : Text) (ns : List Text) → all_names (n ∷ ns) ≡ true → is_root (absolute (n ∷ ns)) ≡ false
unfolding is_root all_names is_name
not_root n ns h =
    ground
      (arith, h, length-append n (tail_path ns), ap (λ (r : Text). length r) (join_path-cons n ns))

within_absolute :
    (ns ms : List Text)
    → all_names ns ≡ true
    → all_names ms ≡ true
    → (if is_root (absolute ns) then true else is_below (absolute ns) (absolute ms))
      ≡ starts_with ns ms
unfolding starts_with is_root join_path
within_absolute [] ms hn hm = refl
within_absolute (n ∷ ns) ms hn hm = rw (not_root n ns hn) (is_below-absolute n ns ms hn hm)

-- For absolute paths, clean or not, hlsPathWithin is true exactly if the clean elements of the
-- candidate begin with the clean elements of the root, element by element.
pub hls_path_within_lem :
    (root candidate : Text)
    → is_rooted root ≡ true
    → is_rooted candidate ≡ true
    → hls_path_within root candidate ≡ starts_with (elements root) (elements candidate)
unfolding hls_path_within
hls_path_within_lem root candidate h k =
    rw (normalize-rooted root h, normalize-rooted candidate k)
      (within_absolute (elements root) (elements candidate) (elements-names root h)
        (elements-names candidate k))
