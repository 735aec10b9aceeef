-- ===== src/Inventory/Order.antt =====
-- `CompareNames` is a linear order, which tells all names apart.
use kg.Base.{ℕ, ◌≤◌, ◌<◌, List, [], ◌∷◌, ◌≡◌, refl, ap, ◌↔◌, arith, Text, All, length}
use kg.Compare.{Ordering, flip, lex, compare_text, IsOrder}
use kg.Compare.Laws.{
  compare-IsOrder, preimage-IsOrder, or_else-IsOrder, lex-IsOrder, compare_text-IsOrder,
  compare_text-eq,
}
use kg.Inventory.{is_digit, trim_zeros, compare_numbers, compare_chunk, compare_names}
use kg.Inventory.Chunks.{IsChunk, chunks, chunks-All, concat, concat-chunks, compare_loop-chunks}

abbrev IsAny : Text → Type 0
IsAny s = Unit {0}

compare_numbers-IsOrder : IsOrder IsAny compare_numbers
unfolding compare_numbers
compare_numbers-IsOrder =
    or_else-IsOrder (preimage-IsOrder (λ s. length (trim_zeros s)) compare-IsOrder)
      (or_else-IsOrder (preimage-IsOrder trim_zeros compare_text-IsOrder) compare_text-IsOrder)

compare_chunk-swap :
    (a b : Text) → IsChunk a → IsChunk b → compare_chunk b a ≡ flip (compare_chunk a b)
unfolding compare_chunk
compare_chunk-swap a b p q =
    ground (arith, compare_numbers-IsOrder.swap a b tt tt, compare_text-IsOrder.swap a b tt tt)

text_head : (x y : ℕ) (a b : Text) → compare_text (x ∷ a) (y ∷ b) ≡ Ordering.lt → x ≤ y
unfolding compare_text lex
text_head x y a b h = ground arith

head_text : (x y : ℕ) (a b : Text) → x < y → compare_text (x ∷ a) (y ∷ b) ≡ Ordering.lt
unfolding compare_text lex
head_text x y a b h = ground arith

-- The digits are an interval, so a chunk of digits and one without are ordered by their first bytes.
compare_chunk_trans :
    (a b c : Text)
    → IsChunk a
    → IsChunk b
    → IsChunk c
    → compare_chunk a b ≡ Ordering.lt
    → compare_chunk b c ≡ Ordering.lt
    → compare_chunk a c ≡ Ordering.lt
unfolding compare_chunk is_digit
compare_chunk_trans [] b c p q r h k = absurd p
compare_chunk_trans (x ∷ a) [] c p q r h k = absurd q
compare_chunk_trans (x ∷ a) (y ∷ b) [] p q r h k = absurd r
compare_chunk_trans (x ∷ a) (y ∷ b) (z ∷ c) p q r h k = ground (
  arith,
  compare_numbers-IsOrder.trans (x ∷ a) (y ∷ b) (z ∷ c) tt tt tt,
  compare_text-IsOrder.trans (x ∷ a) (y ∷ b) (z ∷ c) tt tt tt,
  text_head x y a b,
  text_head y z b c,
  head_text x z a c,
)

compare_numbers-eq : (a b : Text) → compare_numbers a b ≡ Ordering.eq → a ≡ b
unfolding compare_numbers
compare_numbers-eq a b h = ground (arith, compare_text-eq a b)

compare_chunk-eq : (a b : Text) → compare_chunk a b ≡ Ordering.eq → a ≡ b
unfolding compare_chunk
compare_chunk-eq a b h = ground (arith, compare_numbers-eq a b, compare_text-eq a b)

compare_chunk-IsOrder : IsOrder IsChunk compare_chunk
compare_chunk-IsOrder = record {
  swap = compare_chunk-swap;
  trans = compare_chunk_trans;
  same = λ a b c _ _ _ h. rw (compare_chunk-eq a b h);
}

cut : Text → List Text
cut a = chunks (length a) a

compare_names-cut : (a b : Text) → compare_names a b ≡ lex compare_chunk (cut a) (cut b)
unfolding compare_names cut
compare_names-cut a b = compare_loop-chunks (length a) (length b) a b (omega arith) (omega arith)

cut-All : (a : Text) → All IsChunk (cut a)
unfolding cut
cut-All a = chunks-All (length a) a

concat-cut : (a : Text) → concat (cut a) ≡ a
unfolding cut
concat-cut a = concat-chunks (length a) a (omega arith)

cuts-IsOrder : IsOrder (All IsChunk) (lex compare_chunk)
cuts-IsOrder = lex-IsOrder compare_chunk-IsOrder

lex_chunks-eq : (ps qs : List Text) → lex compare_chunk ps qs ≡ Ordering.eq → ps ≡ qs
unfolding lex
lex_chunks-eq [] [] h = refl
lex_chunks-eq [] (q ∷ qs) h = cc
lex_chunks-eq (p ∷ ps) [] h = cc
lex_chunks-eq (p ∷ ps) (q ∷ qs) h = ground (arith, compare_chunk-eq p q, lex_chunks-eq ps qs)

-- Comparing the other way round gives the opposite answer.
pub compare_names-swap : (a b : Text) → compare_names b a ≡ flip (compare_names a b)
compare_names-swap a b =
    rw (compare_names-cut a b, compare_names-cut b a)
      (cuts-IsOrder.swap (cut a) (cut b) (cut-All a) (cut-All b))

pub compare_names_trans :
    (a b c : Text)
    → compare_names a b ≡ Ordering.lt
    → compare_names b c ≡ Ordering.lt
    → compare_names a c ≡ Ordering.lt
compare_names_trans a b c h k = rw (compare_names-cut a c) (
    cuts-IsOrder.trans (cut a) (cut b) (cut c) (cut-All a) (cut-All b) (cut-All c)
      (cc (compare_names-cut a b)) (cc (compare_names-cut b c)))

-- Only a name itself compares as equal to it, leading zeros included.
pub compare_names-eq : (a b : Text) → compare_names a b ≡ Ordering.eq → a ≡ b
compare_names-eq a b h = cc (
  concat-cut a,
  concat-cut b,
  ap concat (lex_chunks-eq (cut a) (cut b) (cc (compare_names-cut a b))),
)

pub compare_names_refl : (a : Text) → compare_names a a ≡ Ordering.eq
compare_names_refl a = ground (arith, compare_names-swap a a)

-- The comparison is a linear order on names: swapping the names flips the answer, less-than is
-- transitive, and exactly equal names compare as equal.
pub compare_names_linear :
    (a b c : Text)
    → (compare_names b a ≡ flip (compare_names a b))
      × (compare_names a b ≡ Ordering.lt
          → compare_names b c ≡ Ordering.lt
          → compare_names a c ≡ Ordering.lt)
      × ((compare_names a b ≡ Ordering.eq) ↔ (a ≡ b))
compare_names_linear a b c = (
  compare_names-swap a b,
  compare_names_trans a b c,
  (compare_names-eq a b, λ e. rw e (compare_names_refl b)),
)
