-- ===== src/Compare/Laws.antt =====
-- Orders are closed under preimages, `or_else` and the lexicographic comparison.
use kg.Base.{ℕ, List, [], ◌∷◌, ◌≡◌, refl, arith, Text, All}
use Prim.Native.Nat.{compare}
use kg.Compare.{Ordering, flip, or_else, lex, compare_text, IsOrder}

pub compare-IsOrder : IsOrder (λ (n : ℕ). Unit {0}) compare
compare-IsOrder = record {
  swap = λ a b _ _. ground arith;
  trans = λ a b c _ _ _ h k. ground arith;
  same = λ a b c _ _ _ h. ground arith;
}

pub preimage-IsOrder {ℓ κ μ} :
    {A : Type ℓ} {B : Type κ} {P : B → Type μ} {cmp : B → B → Ordering} (f : A → B)
    → IsOrder P cmp
    → IsOrder (λ a. P (f a)) (λ a b. cmp (f a) (f b))
preimage-IsOrder f o = record {
  swap = λ a b. o.swap (f a) (f b);
  trans = λ a b c. o.trans (f a) (f b) (f c);
  same = λ a b c. o.same (f a) (f b) (f c);
}

same_right {ℓ κ} :
    {A : Type ℓ} {P : A → Type κ} {cmp : A → A → Ordering}
    → IsOrder P cmp
    → (a b c : A) → P a
    → P b
    → P c
    → cmp b c ≡ Ordering.eq
    → cmp a b ≡ cmp a c
same_right o a b c p q r h = ground (arith, o.same b c a q r p h, o.swap b a q p, o.swap c a r p)

module _ {ℓ κ} {A : Type ℓ} {P : A → Type κ} {c d : A → A → Ordering} (o : IsOrder P c)
    (q : IsOrder P d) where
  pub or_else-IsOrder : IsOrder P (λ a b. or_else (c a b) (d a b))
  or_else-IsOrder = record {
    swap = λ a b p r. rw (o.swap a b p r, q.swap a b p r) (ground arith);
    trans = λ x y z p r s h k. ground (
      arith,
      o.trans x y z p r s,
      q.trans x y z p r s,
      o.same x y z p r s,
      same_right o x y z p r s,
    );
    same = λ x y z p r s h. ground (arith, o.same x y z p r s, q.same x y z p r s);
  }

module _ {ℓ κ} {A : Type ℓ} {P : A → Type κ} {c : A → A → Ordering} (o : IsOrder P c) where
  lex-swap : (xs ys : List A) → All P xs → All P ys → lex c ys xs ≡ flip (lex c xs ys)
  unfolding lex
  lex-swap [] [] _ _ = refl
  lex-swap [] (y ∷ ys) _ _ = refl
  lex-swap (x ∷ xs) [] _ _ = refl
  lex-swap (x ∷ xs) (y ∷ ys) (p, ps) (r, rs) = ground (arith, o.swap x y p r, lex-swap xs ys ps rs)

  lex_same :
      (xs ys zs : List A)
      → All P xs
      → All P ys
      → All P zs
      → lex c xs ys ≡ Ordering.eq
      → lex c xs zs ≡ lex c ys zs
  unfolding lex
  lex_same [] [] zs _ _ _ h = refl
  lex_same [] (y ∷ ys) zs _ _ _ h = cc
  lex_same (x ∷ xs) [] zs _ _ _ h = cc
  lex_same (x ∷ xs) (y ∷ ys) [] _ _ _ h = refl
  lex_same (x ∷ xs) (y ∷ ys) (z ∷ zs) (p, ps) (r, rs) (s, ss) h =
      ground (arith, o.same x y z p r s, lex_same xs ys zs ps rs ss)

  lex_trans :
      (xs ys zs : List A)
      → All P xs
      → All P ys
      → All P zs
      → lex c xs ys ≡ Ordering.lt
      → lex c ys zs ≡ Ordering.lt
      → lex c xs zs ≡ Ordering.lt
  unfolding lex
  lex_trans [] [] zs _ _ _ h k = cc
  lex_trans [] (y ∷ ys) [] _ _ _ h k = cc
  lex_trans [] (y ∷ ys) (z ∷ zs) _ _ _ h k = refl
  lex_trans (x ∷ xs) [] zs _ _ _ h k = cc
  lex_trans (x ∷ xs) (y ∷ ys) [] _ _ _ h k = cc
  lex_trans (x ∷ xs) (y ∷ ys) (z ∷ zs) (p, ps) (r, rs) (s, ss) h k = ground (
    arith,
    o.trans x y z p r s,
    o.same x y z p r s,
    same_right o x y z p r s,
    lex_trans xs ys zs ps rs ss,
  )

  pub lex-IsOrder : IsOrder (All P) (lex c)
  lex-IsOrder = record { swap = lex-swap; trans = lex_trans; same = lex_same }

abbrev IsAny : ℕ → Type 0
IsAny n = Unit {0}

All-IsAny : (s : Text) → All IsAny s
All-IsAny [] = tt
All-IsAny (c ∷ s) = (tt, All-IsAny s)

pub compare_text-IsOrder : IsOrder (λ (s : Text). Unit {0}) compare_text
unfolding compare_text
compare_text-IsOrder =
    let o = lex-IsOrder compare-IsOrder in
    record {
      swap = λ a b _ _. o.swap a b (All-IsAny a) (All-IsAny b);
      trans = λ a b c _ _ _. o.trans a b c (All-IsAny a) (All-IsAny b) (All-IsAny c);
      same = λ a b c _ _ _. o.same a b c (All-IsAny a) (All-IsAny b) (All-IsAny c);
    }

-- Equal texts are those that the comparison does not tell apart.
pub compare_text-eq : (a b : Text) → compare_text a b ≡ Ordering.eq → a ≡ b
unfolding compare_text lex
compare_text-eq [] [] h = refl
compare_text-eq [] (y ∷ b) h = cc
compare_text-eq (x ∷ a) [] h = cc
compare_text-eq (x ∷ a) (y ∷ b) h = ground (arith, compare_text-eq a b)

pub compare_text_refl : (a : Text) → compare_text a a ≡ Ordering.eq
unfolding compare_text lex
compare_text_refl [] = refl
compare_text_refl (x ∷ a) = ground (arith, compare_text_refl a)
