-- ===== src/Api/Maps.antt =====
-- A Go map from strings to strings.
use kg.Base.{List, [], ◌∷◌, Option, none, some, ◌≡◌, refl, arith, Text, ◌==◌, if◌then◌else◌}

abbrev pub Labels : Type 0
Labels = List (Text × Text)

-- `m[k]`, with the zero value for a missing key.
unfoldable pub get : Text → Labels → Text
get k [] = []
get k ((j, v) ∷ m) = if j == k then v else get k m

-- `m[k] = v`
unfoldable pub put : Text → Text → Labels → Labels
put k v [] = (k, v) ∷ []
put k v ((j, w) ∷ m) = if j == k then (k, v) ∷ m else (j, w) ∷ put k v m

-- `delete(m, k)`
unfoldable pub remove : Text → Labels → Labels
remove k [] = []
remove k ((j, v) ∷ m) = if j == k then remove k m else (j, v) ∷ remove k m

-- `v, ok := m[k]`
unfoldable pub lookup : Text → Labels → Option Text
lookup k [] = none
lookup k ((j, v) ∷ m) = if j == k then some v else lookup k m

pub get-put : (k j v : Text) (m : Labels) → get j (put k v m) ≡ (if k == j then v else get j m)
unfolding get put
get-put k j v [] = refl
get-put k j v ((i, w) ∷ m) = ground (arith, get-put k j v m)

pub get-remove : (k j : Text) (m : Labels) → get j (remove k m) ≡ (if k == j then [] else get j m)
unfolding get remove
get-remove k j [] = ground arith
get-remove k j ((i, w) ∷ m) = ground (arith, get-remove k j m)

pub lookup-put :
    (k j v : Text) (m : Labels) → lookup j (put k v m) ≡ (if k == j then some v else lookup j m)
unfolding lookup put
lookup-put k j v [] = refl
lookup-put k j v ((i, w) ∷ m) = ground (arith, lookup-put k j v m)

pub lookup-remove :
    (k j : Text) (m : Labels) → lookup j (remove k m) ≡ (if k == j then none else lookup j m)
unfolding lookup remove
lookup-remove k j [] = ground arith
lookup-remove k j ((i, w) ∷ m) = ground (arith, lookup-remove k j m)
