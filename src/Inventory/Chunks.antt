-- ===== src/Inventory/Chunks.antt =====
-- What `chunk` returns, and `CompareNames` as a comparison of lists of chunks.
use kg.Base.{
  ℕ, zero, suc, ◌≤◌, Bool, true, List, [], ◌∷◌, ◌++◌, ◌≡◌, refl, arith, Text, All, length,
}
use kg.Compare.{lex}
use kg.Inventory.{is_digit, all_digits, is_digits, split_run, chunk, compare_chunk, compare_loop}

-- A chunk is not empty, and consists of digits just if its first byte is one.
abbrev pub IsChunk : Text → Type 0
IsChunk [] = ⊥
IsChunk (c ∷ s) = is_digits (c ∷ s) ≡ is_digit c

split_run-append : (d : Bool) (s : Text) → (split_run d s).0 ++ (split_run d s).1 ≡ s
unfolding split_run
split_run-append d [] = refl
split_run-append d (c ∷ s) = ground (arith, split_run-append d s)

all_digits-split_run : (s : Text) → all_digits (split_run true s).0 ≡ true
unfolding split_run
all_digits-split_run [] = refl
all_digits-split_run (c ∷ s) = ground (arith, all_digits-split_run s)

length-split_run : (d : Bool) (s : Text) → length (split_run d s).1 ≤ length s
unfolding split_run
length-split_run d [] = omega arith
length-split_run d (c ∷ s) = ground (arith, length-split_run d s)

module _ (c : ℕ) (s : Text) where
  pub chunk-append : (chunk (c ∷ s)).0 ++ (chunk (c ∷ s)).1 ≡ c ∷ s
  unfolding chunk
  chunk-append = split_run-append (is_digit c) (c ∷ s)

  pub chunk-IsChunk : IsChunk (chunk (c ∷ s)).0
  unfolding chunk split_run is_digits
  chunk-IsChunk = ground (arith, all_digits-split_run s)

  pub length-chunk : length (chunk (c ∷ s)).1 ≤ length s
  unfolding chunk split_run
  length-chunk = ground (arith, length-split_run (is_digit c) s)

-- The chunks of a name, cut one after the other.
pub chunks : ℕ → Text → List Text
chunks zero s = []
chunks (suc fuel) [] = []
chunks (suc fuel) (c ∷ s) = (chunk (c ∷ s)).0 ∷ chunks fuel (chunk (c ∷ s)).1

pub chunks-All : (fuel : ℕ) (s : Text) → All IsChunk (chunks fuel s)
unfolding chunks
chunks-All zero s = tt
chunks-All (suc fuel) [] = tt
chunks-All (suc fuel) (c ∷ s) = (chunk-IsChunk c s, chunks-All fuel (chunk (c ∷ s)).1)

abbrev pub concat : List Text → Text
concat [] = []
concat (p ∷ ps) = p ++ concat ps

-- Nothing of a name is lost.
pub concat-chunks : (fuel : ℕ) (s : Text) → length s ≤ fuel → concat (chunks fuel s) ≡ s
unfolding chunks
concat-chunks zero [] h = refl
concat-chunks zero (c ∷ s) h = elim h [ ]
concat-chunks (suc fuel) [] h = refl
concat-chunks (suc fuel) (c ∷ s) h =
    ground (arith, chunk-append c s, length-chunk c s, concat-chunks fuel (chunk (c ∷ s)).1)

pub compare_loop-chunks :
    (f g : ℕ) (a b : Text)
    → length a ≤ f
    → length b ≤ g
    → compare_loop f a b ≡ lex compare_chunk (chunks f a) (chunks g b)
unfolding compare_loop chunks lex
compare_loop-chunks zero zero [] [] h k = refl
compare_loop-chunks zero (suc g) [] [] h k = refl
compare_loop-chunks (suc f) zero [] [] h k = refl
compare_loop-chunks (suc f) (suc g) [] [] h k = refl
compare_loop-chunks zero (suc g) [] (y ∷ b) h k = refl
compare_loop-chunks (suc f) (suc g) [] (y ∷ b) h k = refl
compare_loop-chunks f zero a (y ∷ b) h k = elim k [ ]
compare_loop-chunks zero g (x ∷ a) b h k = elim h [ ]
compare_loop-chunks (suc f) zero (x ∷ a) [] h k = refl
compare_loop-chunks (suc f) (suc g) (x ∷ a) [] h k = refl
compare_loop-chunks (suc f) (suc g) (x ∷ a) (y ∷ b) h k = ground (
  arith,
  length-chunk x a,
  length-chunk y b,
  compare_loop-chunks f g (chunk (x ∷ a)).1 (chunk (y ∷ b)).1,
)
