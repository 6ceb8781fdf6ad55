-- ===== src/GoPath.antt =====
-- What the program uses of Go's path/filepath on a Unix system, and of strings.Split at a slash, on a
-- text as its bytes.
pub mod Clean
pub mod Parent
pub mod Below
use cryp.Prelude.{
  ℕ, Bool, true, false, ◌&&◌, ◌||◌, not, Option, none, some, List, [], ◌∷◌, ◌++◌, ◌==◌, length,
  if◌then◌else◌, codes,
}
use cryp.GoText.{Text, text_eq, cut_prefix}

-- A character in front of the first element.
unfoldable pub onto_first : ℕ → List Text → List Text
onto_first c [] = (c ∷ []) ∷ []
onto_first c (first ∷ others) = (c ∷ first) ∷ others

-- `strings.Split(s, "/")`.
unfoldable pub split_path : Text → List Text
split_path [] = [] ∷ []
split_path (c ∷ cs) = let rest = split_path cs in if c == 47 then [] ∷ rest else onto_first c rest

-- The elements with slashes between them.
unfoldable pub join_path : List Text → Text
join_path [] = []
join_path (s ∷ []) = s
join_path (s ∷ t ∷ ts) = s ++ (47 ∷ join_path (t ∷ ts))

-- The elements `.` and `..`.
unfoldable pub is_dot : Text → Bool
is_dot [] = false
is_dot (c ∷ cs) = (c == 46) && (length cs == 0)

unfoldable pub is_dot_dot : Text → Bool
is_dot_dot [] = false
is_dot_dot (c ∷ cs) = (c == 46) && is_dot cs

-- `..` behind the elements that are kept, the last one first.
unfoldable pub go_up : Bool → List Text → List Text
go_up rooted [] = if rooted then [] else codes ".." ∷ []
go_up rooted (last ∷ kept) = if is_dot_dot last then codes ".." ∷ last ∷ kept else kept

unfoldable pub keep_element : Bool → List Text → Text → List Text
keep_element rooted kept s =
    if (length s == 0) || is_dot s
    then kept
    else if is_dot_dot s
    then go_up rooted kept
    else s ∷ kept

-- The elements of `filepath.Clean`, the last one first.
unfoldable pub clean_onto : Bool → List Text → List Text → List Text
clean_onto rooted kept [] = kept
clean_onto rooted kept (s ∷ rest) = clean_onto rooted (keep_element rooted kept s) rest

unfoldable pub reverse_onto : List Text → List Text → List Text
reverse_onto out [] = out
reverse_onto out (s ∷ rest) = reverse_onto (s ∷ out) rest

unfoldable pub is_rooted : Text → Bool
is_rooted [] = false
is_rooted (c ∷ cs) = c == 47

-- The clean elements of a path.
unfoldable pub elements : Text → List Text
elements path = reverse_onto [] (clean_onto (is_rooted path) [] (split_path path))

-- `filepath.Clean`.
unfoldable pub clean : Text → Text
clean path =
    if is_rooted path
    then 47 ∷ join_path (elements path)
    else if length (join_path (elements path)) == 0
    then codes "."
    else join_path (elements path)

-- What stands up to the last slash, with it, and what stands behind it.
unfoldable pub up_to_slash : Text → Text
up_to_slash [] = []
up_to_slash (c ∷ cs) =
    let rest = up_to_slash cs in
    if not (length rest == 0) then c ∷ rest else if c == 47 then c ∷ [] else []

unfoldable pub behind_slash : Text → Text
behind_slash [] = []
behind_slash (c ∷ cs) =
    let rest = behind_slash cs in
    if not (length (up_to_slash cs) == 0) then rest else if c == 47 then cs else c ∷ cs

-- `filepath.Dir`.
unfoldable pub dir : Text → Text
dir path = clean (up_to_slash path)

-- The loop of `filepath.Base` that drops trailing slashes.
unfoldable pub trim_slashes : Text → Text
trim_slashes [] = []
trim_slashes (c ∷ cs) =
    let rest = trim_slashes cs in if (c == 47) && (length rest == 0) then [] else c ∷ rest

-- `filepath.Base`.
unfoldable pub base : Text → Text
base path =
    if length path == 0
    then codes "."
    else let last = behind_slash (trim_slashes path) in if length last == 0 then codes "/" else last

-- `strings.HasPrefix(s, prefix)`.
unfoldable pub is_cut : Text → Text → Bool
is_cut prefix s = elim (cut_prefix prefix s) [ none ↦ false | some rest ↦ true ]

-- `path == top || strings.HasPrefix(path, top+"/")`.
unfoldable pub is_below : Text → Text → Bool
is_below top path = text_eq path top || is_cut (top ++ (47 ∷ [])) path
