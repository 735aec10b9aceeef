-- ===== src/Base/Paths.antt =====
-- What the program uses of Go's package path/filepath, on Unix.
use mathlib.Core.Bool.{Bool, true, false, ◌||◌}
use mathlib.Core.List.{List, [], ◌∷◌, ◌++◌, reverse}
use kg.Base.Tests.{Text, codes, eqb, ◌==◌, if◌then◌else◌}
use kg.Base.Strings.{has_prefix, split, join}

-- `filepath.IsAbs`
unfoldable pub is_abs : Text → Bool
unfolding has_prefix
is_abs path = has_prefix path (codes "/")

-- The elements of a cleaned path, the last first, below `..`.
abbrev parent : Bool → List Text → List Text
parent true [] = []
parent false [] = codes ".." ∷ []
parent rooted (e ∷ out) = if e == codes ".." then codes ".." ∷ e ∷ out else out

abbrev enter : Bool → Text → List Text → List Text
enter rooted e out =
    if e == [] || e == codes "."
    then out
    else if e == codes ".."
    then parent rooted out
    else e ∷ out

abbrev elements : Bool → List Text → List Text → List Text
elements rooted out [] = reverse out
elements rooted out (e ∷ es) = elements rooted (enter rooted e out) es

abbrev spell : Bool → List Text → Text
spell true es = codes "/" ++ join es (codes "/")
spell false [] = codes "."
spell false (e ∷ es) = join (e ∷ es) (codes "/")

-- `filepath.Clean`
unfoldable pub clean : Text → Text
unfolding is_abs split join
clean path = spell (is_abs path) (elements (is_abs path) [] (split path b'/'))

abbrev not_empty : List Text → List Text
not_empty [] = []
not_empty (e ∷ es) = let rest = not_empty es in if e == [] then rest else e ∷ rest

abbrev join_elements : List Text → Text
join_elements [] = []
join_elements (e ∷ es) = clean (join (e ∷ es) (codes "/"))

-- `filepath.Join`
unfoldable pub join_path : List Text → Text
unfolding clean
join_path es = join_elements (not_empty es)

-- What follows the last slash; `cur` is what follows the last one so far.
abbrev last_element : Text → Text → Text
last_element cur [] = cur
last_element cur (c ∷ s) = last_element (if eqb c b'/' then [] else cur ++ c ∷ []) s

abbrev trim_slashes : Text → Text
trim_slashes [] = []
trim_slashes (c ∷ s) = if eqb c b'/' then trim_slashes s else c ∷ s

abbrev or_slash : Text → Text
or_slash [] = codes "/"
or_slash (c ∷ s) = c ∷ s

-- `filepath.Base`
unfoldable pub base_of : Text → Text
base_of [] = codes "."
base_of (c ∷ s) = or_slash (last_element [] (reverse (trim_slashes (reverse (c ∷ s)))))

-- The path up to its last slash, and the slash; `head` is the path so far.
abbrev up_to_slash : Text → Text → Text → Text
up_to_slash head found [] = found
up_to_slash head found (c ∷ s) =
    up_to_slash (head ++ c ∷ []) (if eqb c b'/' then head ++ c ∷ [] else found) s

-- `filepath.Dir`
unfoldable pub dir_path : Text → Text
unfolding clean
dir_path path = clean (up_to_slash [] [] path)
