-- ===== src/Inventory/Sort.antt =====
-- `SortHosts`: the order of the pool depends on the hosts alone, not on the order they arrive in.
use kg.Base.{
  true, false, subst, List, [], ◌∷◌, ◌≡◌, ◌≢◌, refl, sym, ◌∙◌, ap, arith, Text, All, Bool-cases,
  inl, inr,
}
use kg.Compare.{Ordering, is_less}
use kg.Inventory.{compare_names, insert_by_name, sort_by_name}
use kg.Inventory.Order.{compare_names-swap, compare_names_trans, compare_names-eq}
use mathlib.Core.List.{Perm, Permᴰ}
use mathlib.Core.List.Perm
use mathlib.Core.Path.{ap₂}

-- What is not less than `b` has everything above `b` above it.
not_less_trans :
    (a b c : Text)
    → compare_names a b ≢ Ordering.lt
    → compare_names c b ≡ Ordering.lt
    → compare_names c a ≡ Ordering.lt
not_less_trans a b c h k =
    ground (arith, compare_names-swap a b, compare_names_trans c b a, compare_names-eq a b)

less_of_not_less :
    (a b c : Text)
    → compare_names b a ≢ Ordering.lt
    → compare_names b c ≡ Ordering.lt
    → compare_names a c ≡ Ordering.lt
less_of_not_less a b c h k =
    ground (arith, compare_names-swap b a, compare_names_trans a b c, compare_names-eq b a)

module _ {ℓ} {A : Type ℓ} (name : A → Text) where
  -- No later element is less than an earlier one.
  abbrev pub IsSorted : List A → Type ℓ
  IsSorted [] = Unit
  IsSorted (x ∷ xs) = All (λ y. compare_names (name y) (name x) ≢ Ordering.lt) xs × IsSorted xs

  insert-perm : (x : A) (xs : List A) → Perm (x ∷ xs) (insert_by_name name x xs)
  unfolding insert_by_name
  insert-perm x [] = Perm.rfl
  insert-perm x (y ∷ ys) = elim (Bool-cases (is_less (compare_names (name y) (name x)))) [
    | inl h ↦ rw h (Perm.trans (Perm.swap y x ys) (Perm.cons y (insert-perm x ys)))
    | inr h ↦ rw h Perm.rfl
  ]

  pub sort-perm : (xs : List A) → Perm xs (sort_by_name name xs)
  unfolding sort_by_name
  sort-perm [] = Perm.rfl
  sort-perm (x ∷ xs) =
      Perm.trans (Perm.cons x (sort-perm xs)) (insert-perm x (sort_by_name name xs))

  insert-All {κ} :
      (P : A → Type κ) (x : A) (xs : List A) → P x → All P xs → All P (insert_by_name name x xs)
  unfolding insert_by_name
  insert-All P x [] p ps = (p, tt)
  insert-All P x (y ∷ ys) p ps = ground (arith, insert-All P x ys p)

  later_not_less :
      (x y : A) (ys : List A)
      → compare_names (name y) (name x) ≢ Ordering.lt
      → All (λ z. compare_names (name z) (name y) ≢ Ordering.lt) ys
      → All (λ z. compare_names (name z) (name x) ≢ Ordering.lt) ys
  later_not_less x y [] h hs = tt
  later_not_less x y (z ∷ ys) h (k, ks) =
      (λ e. k (not_less_trans (name y) (name x) (name z) h e), later_not_less x y ys h ks)

  insert-IsSorted : (x : A) (xs : List A) → IsSorted xs → IsSorted (insert_by_name name x xs)
  unfolding insert_by_name
  insert-IsSorted x [] h = (tt, tt)
  insert-IsSorted x (y ∷ ys) (h, hs) =
      elim (Bool-cases (is_less (compare_names (name y) (name x)))) [
        | inl e ↦ rw e (
          insert-All _ x ys (ground (arith, compare_names-swap (name y) (name x))) h,
          insert-IsSorted x ys hs,
        )
        | inr e ↦ rw e ((ground arith, later_not_less x y ys (ground arith) h), (h, hs))
      ]

  pub sort-IsSorted : (xs : List A) → IsSorted (sort_by_name name xs)
  unfolding sort_by_name
  sort-IsSorted [] = tt
  sort-IsSorted (x ∷ xs) = insert-IsSorted x (sort_by_name name xs) (sort-IsSorted xs)

  insert_past :
      (x y : A) (ys : List A)
      → is_less (compare_names (name y) (name x)) ≡ true
      → insert_by_name name x (y ∷ ys) ≡ y ∷ insert_by_name name x ys
  unfolding insert_by_name
  insert_past x y ys h = rw h

  insert_here :
      (x y : A) (ys : List A)
      → is_less (compare_names (name y) (name x)) ≡ false
      → insert_by_name name x (y ∷ ys) ≡ x ∷ y ∷ ys
  unfolding insert_by_name
  insert_here x y ys h = rw h

  insert_nil : (x : A) → insert_by_name name x [] ≡ x ∷ []
  unfolding insert_by_name
  insert_nil x = refl

  insert_comm :
      (x y : A) (l : List A)
      → name x ≢ name y
      → insert_by_name name x (insert_by_name name y l)
        ≡ insert_by_name name y (insert_by_name name x l)
  insert_comm x y [] h = ground (
    arith,
    insert_nil x,
    insert_nil y,
    compare_names-swap (name x) (name y),
    compare_names-eq (name x) (name y),
    insert_past x y [],
    insert_here x y [],
    insert_past y x [],
    insert_here y x [],
  )
  insert_comm x y (z ∷ l) h = ground (
    arith,
    compare_names-swap (name x) (name y),
    compare_names-eq (name x) (name y),
    less_of_not_less (name x) (name z) (name y),
    less_of_not_less (name y) (name z) (name x),
    insert_past x z l,
    insert_here x z l,
    insert_past y z l,
    insert_here y z l,
    insert_past x z (insert_by_name name y l),
    insert_past y z (insert_by_name name x l),
    insert_here x z (insert_by_name name y l),
    insert_here y z (insert_by_name name x l),
    insert_past x y (z ∷ l),
    insert_here x y (z ∷ l),
    insert_past y x (z ∷ l),
    insert_here y x (z ∷ l),
    insert_comm x y l h,
  )

  -- No two elements have one name.
  abbrev pub HasDistinctNames : List A → Type ℓ
  HasDistinctNames [] = Unit
  HasDistinctNames (x ∷ xs) = All (λ y. name x ≢ name y) xs × HasDistinctNames xs

  All-perm {κ} : (P : A → Type κ) {xs ys : List A} → Permᴰ xs ys → All P xs → All P ys
  All-perm P Permᴰ.nil h = tt
  All-perm P (Permᴰ.cons e p) (h, hs) = (subst P e h, All-perm P p hs)
  All-perm P (Permᴰ.swap e f) (h, (k, hs)) = (subst P f k, (subst P e h, hs))
  All-perm P (Permᴰ.trans p q) h = All-perm P q (All-perm P p h)

  HasDistinctNames-perm : {xs ys : List A} → Permᴰ xs ys → HasDistinctNames xs → HasDistinctNames ys
  HasDistinctNames-perm Permᴰ.nil h = tt
  HasDistinctNames-perm (Permᴰ.cons {l₂ = l} e p) (h, hs) =
      (subst (λ c. All (λ y. name c ≢ name y) l) e (All-perm _ p h), HasDistinctNames-perm p hs)
  HasDistinctNames-perm (Permᴰ.swap {l = l} e f) ((n, h), (k, hs)) = (
    (λ q. n (ap name e ∙ sym q ∙ sym (ap name f)), subst (λ c. All (λ y. name c ≢ name y) l) f k),
    (subst (λ c. All (λ y. name c ≢ name y) l) e h, hs),
  )
  HasDistinctNames-perm (Permᴰ.trans p q) h = HasDistinctNames-perm q (HasDistinctNames-perm p h)

  -- Lists of the same hosts are sorted into the same list, if no two of them have one name.
  pub sort_unique :
      {xs ys : List A}
      → Permᴰ xs ys
      → HasDistinctNames xs
      → sort_by_name name xs ≡ sort_by_name name ys
  unfolding sort_by_name
  sort_unique Permᴰ.nil h = refl
  sort_unique (Permᴰ.cons e p) (_, hs) = ap₂ (insert_by_name name) e (sort_unique p hs)
  sort_unique (Permᴰ.swap {a = a} {b = b} {l = l} e f) ((n, _), _) =
      insert_comm a b (sort_by_name name l) n
      ∙ ap₂ (λ x y. insert_by_name name x (insert_by_name name y (sort_by_name name l))) f e
  sort_unique (Permᴰ.trans p q) h = sort_unique p h ∙ sort_unique q (HasDistinctNames-perm p h)

  insert_All {κ} :
      (P : A → Type κ) (x : A) (xs : List A) → All P (insert_by_name name x xs) → P x × All P xs
  unfolding insert_by_name
  insert_All P x [] h = h
  insert_All P x (y ∷ ys) h = ground (arith, insert_All P x ys)

  -- What holds of all of the sorted hosts holds of all hosts.
  pub All-sort {κ} : (P : A → Type κ) (xs : List A) → All P (sort_by_name name xs) → All P xs
  unfolding sort_by_name
  All-sort P [] h = tt
  All-sort P (x ∷ xs) h =
      let (p, ps) = insert_All P x (sort_by_name name xs) h in (p, All-sort P xs ps)

  pub sort-All {κ} : (P : A → Type κ) (xs : List A) → All P xs → All P (sort_by_name name xs)
  unfolding sort_by_name
  sort-All P [] h = tt
  sort-All P (x ∷ xs) (p, ps) = insert-All P x (sort_by_name name xs) p (sort-All P xs ps)
