-- ===== src/Compare.antt =====
-- Three-way comparisons, as `strings.Compare` and the functions of internal/inventory return them:
-- -1, 0 and 1 are `lt`, `eq` and `gt`.
use kg.Base.{Bool, true, false, List, [], ◌∷◌, ◌≡◌, Text, if◌then◌else◌}
pub mod Laws
use Prim.Native.Nat.{compare}
pub use Prim.Native.Nat.{Ordering}

abbrev pub flip : Ordering → Ordering
flip Ordering.lt = Ordering.gt
flip Ordering.eq = Ordering.eq
flip Ordering.gt = Ordering.lt

-- `if c := x; c != 0 { return c }; return y`
abbrev pub or_else : Ordering → Ordering → Ordering
or_else Ordering.lt y = Ordering.lt
or_else Ordering.eq y = y
or_else Ordering.gt y = Ordering.gt

abbrev pub is_less : Ordering → Bool
is_less Ordering.lt = true
is_less _ = false

-- The lexicographic comparison of two lists: the shorter of two that agree so far is the less.
module _ {ℓ} {A : Type ℓ} where
  unfoldable pub lex : (A → A → Ordering) → List A → List A → Ordering
  lex cmp [] [] = Ordering.eq
  lex cmp [] (y ∷ ys) = Ordering.lt
  lex cmp (x ∷ xs) [] = Ordering.gt
  lex cmp (x ∷ xs) (y ∷ ys) = or_else (cmp x y) (lex cmp xs ys)

-- `strings.Compare`: the bytes decide.
unfoldable pub compare_text : Text → Text → Ordering
unfolding lex
compare_text = lex compare

-- What makes a three-way comparison an order on the values that `P` holds of.
pub record IsOrder {ℓ κ} {A : Type ℓ} (P : A → Type κ) (cmp : A → A → Ordering) : Type (ℓ ⊔ κ) where
  pub swap : (a b : A) → P a → P b → cmp b a ≡ flip (cmp a b)
  pub trans :
      (a b c : A)
      → P a
      → P b
      → P c
      → cmp a b ≡ Ordering.lt
      → cmp b c ≡ Ordering.lt
      → cmp a c ≡ Ordering.lt
  pub same : (a b c : A) → P a → P b → P c → cmp a b ≡ Ordering.eq → cmp a c ≡ cmp b c

unfoldable pub insert_text : Text → List Text → List Text
insert_text s [] = s ∷ []
insert_text s (t ∷ ts) = if is_less (compare_text t s) then t ∷ insert_text s ts else s ∷ t ∷ ts

-- `sort.Strings`
unfoldable pub sort_texts : List Text → List Text
unfolding insert_text
sort_texts [] = []
sort_texts (s ∷ ss) = insert_text s (sort_texts ss)
