-- ===== src/Inventory.antt =====
-- internal/inventory/order.go: the order in which the host pool is listed and handed out.
pub mod Chunks
pub mod Order
pub mod Sort
pub mod Numbers
use kg.Base.{
  ℕ, zero, suc, Bool, true, false, not, ◌&&◌, List, [], ◌∷◌, Text, ltb, leb, eqb, if◌then◌else◌,
  length,
}
use kg.Compare.{Ordering, or_else, is_less, compare_text}
use Prim.Native.Nat.{compare}

unfoldable pub is_digit : ℕ → Bool
is_digit c = leb b'0' c && leb c b'9'

-- `isDigits`: not empty, and every byte a digit.
abbrev pub all_digits : Text → Bool
all_digits [] = true
all_digits (c ∷ s) = is_digit c && all_digits s

unfoldable pub is_digits : Text → Bool
is_digits [] = false
is_digits (c ∷ s) = all_digits (c ∷ s)

abbrev pub same_kind : Bool → Bool → Bool
same_kind true b = b
same_kind false b = not b

abbrev pub push_head : ℕ → Text × Text → Text × Text
push_head c (head, rest) = (c ∷ head, rest)

-- The loop of `chunk`: the text up to the first byte of another kind, and what follows it.
unfoldable pub split_run : Bool → Text → Text × Text
split_run digits [] = ([], [])
split_run digits (c ∷ s) =
    if same_kind digits (is_digit c) then push_head c (split_run digits s) else ([], c ∷ s)

-- `chunk` indexes the first byte, so it is called on texts that are not empty.
unfoldable pub chunk : Text → Text × Text
unfolding split_run
chunk [] = ([], [])
chunk (c ∷ s) = split_run (is_digit c) (c ∷ s)

-- `strings.TrimLeft(s, "0")`
unfoldable pub trim_zeros : Text → Text
trim_zeros [] = []
trim_zeros (c ∷ s) = if eqb c b'0' then trim_zeros s else c ∷ s

unfoldable pub compare_numbers : Text → Text → Ordering
compare_numbers a b =
    let na = trim_zeros a in
    let nb = trim_zeros b in
    or_else (compare (length na) (length nb)) (or_else (compare_text na nb) (compare_text a b))

-- One round of `CompareNames` on the heads of the two names.
unfoldable pub compare_chunk : Text → Text → Ordering
compare_chunk a b = if is_digits a && is_digits b then compare_numbers a b else compare_text a b

-- The loop of `CompareNames`; each round takes at least one byte off the first name.
pub compare_loop : ℕ → Text → Text → Ordering
compare_loop fuel [] [] = Ordering.eq
compare_loop fuel [] (y ∷ b) = Ordering.lt
compare_loop fuel (x ∷ a) [] = Ordering.gt
compare_loop zero (x ∷ a) (y ∷ b) = Ordering.eq
compare_loop (suc fuel) (x ∷ a) (y ∷ b) =
    let (ahead, arest) = chunk (x ∷ a) in
    let (bhead, brest) = chunk (y ∷ b) in
    or_else (compare_chunk ahead bhead) (compare_loop fuel arest brest)

unfoldable pub compare_names : Text → Text → Ordering
unfolding compare_loop compare_chunk chunk is_digits compare_numbers trim_zeros compare_text
    is_digit
compare_names a b = compare_loop (length a) a b

-- `sort.SliceStable` by a name: an element goes before the first one that is not less than it.
module _ {ℓ} {A : Type ℓ} (name : A → Text) where
  unfoldable pub insert_by_name : A → List A → List A
  insert_by_name x [] = x ∷ []
  insert_by_name x (y ∷ ys) =
      if is_less (compare_names (name y) (name x)) then y ∷ insert_by_name x ys else x ∷ y ∷ ys

  unfoldable pub sort_by_name : List A → List A
  unfolding insert_by_name
  sort_by_name [] = []
  sort_by_name (x ∷ xs) = insert_by_name x (sort_by_name xs)
