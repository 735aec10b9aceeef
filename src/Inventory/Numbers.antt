-- ===== src/Inventory/Numbers.antt =====
-- A run of digits counts as the number that it writes.
use Prim.Native.Nat.{compare}
use kg.Base.{
  ℕ, zero, suc, ◌+◌, ◌-◌, ◌*◌, ◌≤◌, ◌<◌, true, [], ◌∷◌, Text, length, All, ◌≡◌, ◌⊎◌, inl, inr, refl,
  ap, arith, eqb, Bool-cases,
}
use kg.Compare.{Ordering, compare_text, lex}
use kg.Inventory.{is_digit, is_digits, all_digits, trim_zeros, compare_numbers, compare_chunk}

pow10 : ℕ → ℕ
pow10 zero = 1
pow10 (suc n) = 10 * pow10 n

times : ℕ → ℕ → ℕ
times zero p = 0
times (suc d) p = p + times d p

-- The number that a text of digits writes in base ten.
unfoldable pub number : Text → ℕ
unfolding times pow10
number [] = 0
number (c ∷ s) = times (c - b'0') (pow10 (length s)) + number s

times_lt : (a b p : ℕ) → a < b → times a p + p ≤ times b p
unfolding times
times_lt a zero p h = omega (arith, h)
times_lt zero (suc b) p h = omega arith
times_lt (suc a) (suc b) p h = omega (arith, times_lt a b p (omega (arith, h)))

times_ten : (d p : ℕ) → d ≤ 9 → times d p + p ≤ 10 * p
unfolding times
times_ten d p h = omega (arith, times_lt d 10 p (omega (arith, h)))

pow10_pos : (n : ℕ) → 1 ≤ pow10 n
unfolding pow10
pow10_pos zero = omega arith
pow10_pos (suc n) = omega (arith, pow10_pos n)

pow10_mono : (m n : ℕ) → m ≤ n → pow10 m ≤ pow10 n
unfolding pow10
pow10_mono zero n h = pow10_pos n
pow10_mono (suc m) zero h = absurd (omega (arith, h))
pow10_mono (suc m) (suc n) h = omega (arith, pow10_mono m n (omega (arith, h)))

abbrev IsDigit : ℕ → Type 0
IsDigit c = (b'0' ≤ c) × (c ≤ b'9')

all_digits-All : (s : Text) → all_digits s ≡ true → All IsDigit s
unfolding is_digit
all_digits-All [] h = tt
all_digits-All (c ∷ s) h = ((ground arith, ground arith), all_digits-All s (ground arith))

number_lt : (s : Text) → All IsDigit s → number s < pow10 (length s)
unfolding number pow10
number_lt [] h = omega arith
number_lt (c ∷ s) ((low, high), hs) =
    omega (arith, number_lt s hs, times_ten (c - b'0') (pow10 (length s)) (omega (arith, high)))

number_zero : (c : ℕ) (s : Text) → c ≡ b'0' → number (c ∷ s) ≡ number s
unfolding number times
number_zero c s e = rw e (omega arith)

-- A first digit that is not 0 makes the number as large as its place.
number_first : (c : ℕ) (s : Text) → b'0' < c → pow10 (length s) ≤ number (c ∷ s)
unfolding number times
number_first c s h = omega (arith, times_lt 0 (c - b'0') (pow10 (length s)) (omega (arith, h)))

pow10-suc : (n : ℕ) → pow10 (suc n) ≡ 10 * pow10 n
unfolding pow10
pow10-suc n = refl

-- Leading zeros count for nothing, and a text without them writes a number of its length.
trim_zeros-number :
    (s : Text)
    → All IsDigit s
    → (number (trim_zeros s) ≡ number s)
      × All IsDigit (trim_zeros s)
      × ((trim_zeros s ≡ []) ⊎ (pow10 (length (trim_zeros s)) ≤ 10 * number s))
unfolding trim_zeros
trim_zeros-number [] h = (refl, tt, inl refl)
trim_zeros-number (c ∷ s) ((low, high), hs) = elim (Bool-cases (eqb c b'0')) [
  | inl z ↦
      let (same, digits, large) = trim_zeros-number s hs in
      let count = number_zero c s (ground arith) in
      (rw (z, count) same, rw z digits, rw (z, count) large)
  | inr nz ↦ (
    rw nz refl,
    rw nz ((low, high), hs),
    inr (rw (nz, pow10-suc (length s)) (omega (arith, number_first c s (ground arith)))),
  )
]

trichotomy : (m n : ℕ) → (m < n) ⊎ ((m ≡ n) ⊎ (n < m))
trichotomy m n = ground arith

compare_lt : (m n : ℕ) → m < n → compare m n ≡ Ordering.lt
compare_lt m n h = ground arith

compare_refl : (n : ℕ) → compare n n ≡ Ordering.eq
compare_refl n = ground arith

number_tail :
    (c d : ℕ) (a b : Text)
    → c ≡ d
    → length a ≡ length b
    → number (c ∷ a) < number (d ∷ b)
    → number a < number b
unfolding number
number_tail c d a b e same less = omega (
  arith,
  less,
  ap (λ n. times (c - b'0') (pow10 n)) same,
  ap (λ x. times (x - b'0') (pow10 (length b))) e,
)

number_above :
    (c d : ℕ) (a b : Text)
    → All IsDigit a
    → c < d
    → length b ≡ length a
    → b'0' ≤ c
    → ¬ (number (d ∷ b) < number (c ∷ a))
unfolding number
number_above c d a b ha below same low less = omega (
  arith,
  less,
  ap (λ n. times (d - b'0') (pow10 n)) same,
  number_lt a ha,
  times_lt (c - b'0') (d - b'0') (pow10 (length a)) (omega (arith, below, low)),
)

-- Of two texts of one length, the one that writes the smaller number is the smaller text.
lex-number :
    (a b : Text)
    → All IsDigit a
    → All IsDigit b
    → length a ≡ length b
    → number a < number b
    → lex compare a b ≡ Ordering.lt
unfolding lex number
lex-number [] [] ha hb same less = absurd (omega (arith, less))
lex-number [] (d ∷ b) ha hb same less = refl
lex-number (c ∷ a) [] ha hb same less = absurd (omega (arith, same))
lex-number (c ∷ a) (d ∷ b) ((lc, hc), ha) ((ld, hd), hb) same less = elim (trichotomy c d) [
  | inl below ↦ rw (compare_lt c d below) refl
  | inr (inl equal) ↦
      rw (equal, compare_refl d)
        (lex-number a b ha hb (omega (arith, same))
          (number_tail c d a b equal (omega (arith, same)) less))
  | inr (inr above) ↦ absurd (number_above d c b a hb above (omega (arith, same)) ld less)
]

is_digits-All : (s : Text) → is_digits s ≡ true → All IsDigit s
unfolding is_digits
is_digits-All [] h = tt
is_digits-All (c ∷ s) h = all_digits-All (c ∷ s) h

-- A longer text without leading zeros does not write a smaller number.
longer_number :
    (a b : Text) (n : ℕ)
    → All IsDigit b
    → length b < length a
    → (a ≡ []) ⊎ (pow10 (length a) ≤ 10 * n)
    → ¬ (n < number b)
longer_number a b n hb longer (inl e) less = omega (arith, longer, ap length e)
longer_number a b n hb longer (inr large) less = omega (
  arith,
  less,
  large,
  number_lt b hb,
  pow10-suc (length b),
  pow10_mono (suc (length b)) (length a) longer,
)

-- Of two runs of digits, with whatever leading zeros, the one that writes the smaller number comes
-- first.
pub compare_chunk-number :
    (a b : Text)
    → is_digits a ≡ true
    → is_digits b ≡ true
    → number a < number b
    → compare_chunk a b ≡ Ordering.lt
unfolding compare_chunk compare_numbers compare_text is_digits
compare_chunk-number a b da db less =
    let (same_a, digits_a, large) = trim_zeros-number a (is_digits-All a da) in
    let (same_b, digits_b, _) = trim_zeros-number b (is_digits-All b db) in
    let na = trim_zeros a in
    let nb = trim_zeros b in
    rw (da, db)
      (elim (trichotomy (length na) (length nb)) [
        | inl shorter ↦ rw (compare_lt (length na) (length nb) shorter) refl
        | inr (inl equal) ↦
            rw (equal, compare_refl (length nb))
              (rw (lex-number na nb digits_a digits_b equal (omega (arith, same_a, same_b, less)))
                refl)
        | inr (inr longer) ↦
            absurd
              (longer_number na nb (number a) digits_b longer large (omega (arith, same_b, less)))
      ])
