-- ===== src/Config/Validate/Fresh.antt =====
-- Lists of messages that are empty, and texts that a loop has not seen before.
use kg.Base.{false, List, [], ◌∷◌, ◌++◌, Text, ◌≡◌, ◌≢◌, refl, arith, All}
use kg.Inventory.Sort.{HasDistinctNames}
use kg.Config.Checks.{member}

pub append-nil-inv : (xs ys : List Text) → xs ++ ys ≡ [] → (xs ≡ []) × (ys ≡ [])
append-nil-inv [] ys h = (refl, h)
append-nil-inv (x ∷ xs) ys h = cc

-- Each part of a list that is empty is empty.
pub nil_3 : (a b c : List Text) → a ++ b ++ c ≡ [] → (a ≡ []) × (b ≡ []) × (c ≡ [])
nil_3 a b c e =
    let (e2, x2) = append-nil-inv (a ++ b) c e in
    let (e1, x1) = append-nil-inv a b e2 in (e1, x1, x2)

pub nil_4 :
    (a b c d : List Text) → a ++ b ++ c ++ d ≡ [] → (a ≡ []) × (b ≡ []) × (c ≡ []) × (d ≡ [])
nil_4 a b c d e =
    let (e3, x3) = append-nil-inv (a ++ b ++ c) d e in
    let (e2, x2) = append-nil-inv (a ++ b) c e3 in
    let (e1, x1) = append-nil-inv a b e2 in (e1, x1, x2, x3)

pub nil_7 :
    (a b c d f g h : List Text)
    → a ++ b ++ c ++ d ++ f ++ g ++ h ≡ []
    → (a ≡ []) × (b ≡ []) × (c ≡ []) × (d ≡ []) × (f ≡ []) × (g ≡ []) × (h ≡ [])
nil_7 a b c d f g h e =
    let (e6, x6) = append-nil-inv (a ++ b ++ c ++ d ++ f ++ g) h e in
    let (e5, x5) = append-nil-inv (a ++ b ++ c ++ d ++ f) g e6 in
    let (e4, x4) = append-nil-inv (a ++ b ++ c ++ d) f e5 in
    let (y0, y1, y2, y3) = nil_4 a b c d e4 in (y0, y1, y2, y3, x4, x5, x6)

pub nil_11 :
    (a b c d f g h i j k l : List Text)
    → a ++ b ++ c ++ d ++ f ++ g ++ h ++ i ++ j ++ k ++ l ≡ []
    → (a ≡ [])
      × (b ≡ [])
      × (c ≡ [])
      × (d ≡ [])
      × (f ≡ [])
      × (g ≡ [])
      × (h ≡ [])
      × (i ≡ [])
      × (j ≡ [])
      × (k ≡ [])
      × (l ≡ [])
nil_11 a b c d f g h i j k l e =
    let (e10, x10) = append-nil-inv (a ++ b ++ c ++ d ++ f ++ g ++ h ++ i ++ j ++ k) l e in
    let (e9, x9) = append-nil-inv (a ++ b ++ c ++ d ++ f ++ g ++ h ++ i ++ j) k e10 in
    let (e8, x8) = append-nil-inv (a ++ b ++ c ++ d ++ f ++ g ++ h ++ i) j e9 in
    let (e7, x7) = append-nil-inv (a ++ b ++ c ++ d ++ f ++ g ++ h) i e8 in
    let (y0, y1, y2, y3, y4, y5, y6) = nil_7 a b c d f g h e7 in
    (y0, y1, y2, y3, y4, y5, y6, x7, x8, x9, x10)

-- The texts of a list are new, one after the other.
abbrev pub IsFresh {ℓ} : {A : Type ℓ} → (A → Text) → List Text → List A → Type 0
IsFresh f seen [] = Unit
IsFresh f seen (x ∷ xs) = (member (f x) seen ≡ false) × IsFresh f (f x ∷ seen) xs

module _ {A : Type 0} (f : A → Text) where
  All-older :
      (x : A) (seen : List Text) (xs : List A)
      → All (λ y. member (f y) (f x ∷ seen) ≡ false) xs
      → All (λ y. member (f y) seen ≡ false) xs
  All-older x seen [] h = tt
  All-older x seen (y ∷ ys) (h, hs) = (ground arith, All-older x seen ys hs)

  All-other :
      (x : A) (seen : List Text) (xs : List A)
      → All (λ y. member (f y) (f x ∷ seen) ≡ false) xs
      → All (λ y. f x ≢ f y) xs
  All-other x seen [] h = tt
  All-other x seen (y ∷ ys) (h, hs) = (λ same. ground arith, All-other x seen ys hs)

  IsFresh-All :
      (seen : List Text) (xs : List A) → IsFresh f seen xs → All (λ x. member (f x) seen ≡ false) xs
  IsFresh-All seen [] h = tt
  IsFresh-All seen (x ∷ xs) (h, hs) = (h, All-older x seen xs (IsFresh-All (f x ∷ seen) xs hs))

  pub IsFresh-HasDistinctNames :
      (seen : List Text) (xs : List A) → IsFresh f seen xs → HasDistinctNames f xs
  IsFresh-HasDistinctNames seen [] h = tt
  IsFresh-HasDistinctNames seen (x ∷ xs) (h, hs) = (
    All-other x seen xs (IsFresh-All (f x ∷ seen) xs hs),
    IsFresh-HasDistinctNames (f x ∷ seen) xs hs,
  )
