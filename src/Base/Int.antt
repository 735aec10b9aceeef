-- ===== src/Base/Int.antt =====
-- Signed integers over the native numbers, the wrap-around of int32, and `strconv.Atoi`.
use Prim.Native.Nat.{ℕ, zero, suc, ◌+◌, ◌-◌, ◌*◌, ◌/◌, ◌^◌, ◌%◌, ◌≤◌}
use mathlib.Core.Bool.{Bool, ◌&&◌}
use mathlib.Core.Option.{Option, none, some}
use mathlib.Core.List.{[], ◌∷◌}
use kg.Base.Tests.{Text, ltb, leb, eqb, if◌then◌else◌}

-- `negsuc n` is -(n + 1).
pub data ℤ : Type 0 where
  pos : ℕ → ℤ
  negsuc : ℕ → ℤ

abbrev pub pos_part : ℤ → ℕ
pos_part (pos n) = n
pos_part (negsuc n) = 0

abbrev pub neg_part : ℤ → ℕ
neg_part (pos n) = 0
neg_part (negsuc n) = suc n

-- a - b, as an integer.
abbrev pub sub_ℕ : ℕ → ℕ → ℤ
sub_ℕ a b = if leb b a then pos (a - b) else negsuc (b - a - 1)

abbrev pub ltb_ℤ : ℤ → ℤ → Bool
ltb_ℤ a b = ltb (pos_part a + neg_part b) (pos_part b + neg_part a)

infixl 65 ◌+ℤ◌
infix 50 ◌≤ℤ◌
unfoldable pub ◌+ℤ◌ : ℤ → ℤ → ℤ
a +ℤ b = sub_ℕ (pos_part a + pos_part b) (neg_part a + neg_part b)

abbrev pub ◌≤ℤ◌ : ℤ → ℤ → Type 0
a ≤ℤ b = pos_part a + neg_part b ≤ pos_part b + neg_part a

-- The int32 with the bit pattern `n`.
abbrev pub of_bits : ℕ → ℤ
of_bits n = if ltb n (2 ^ 31) then pos n else negsuc (2 ^ 32 - 1 - n)

-- The bit pattern of an integer in 32 bits.
abbrev pub bits : ℤ → ℕ
bits (pos n) = n % 2 ^ 32
bits (negsuc n) = 2 ^ 32 - 1 - n % 2 ^ 32

-- `int32(x)`, and the sum of two int32 values.
unfoldable pub int32 : ℤ → ℤ
int32 x = of_bits (bits x)

unfoldable pub add_int32 : ℤ → ℤ → ℤ
add_int32 a b = of_bits ((bits a + bits b) % 2 ^ 32)

abbrev is_digit : ℕ → Bool
is_digit c = leb b'0' c && leb c b'9'

abbrev read_digits : ℕ → Text → Option ℕ
read_digits n [] = some n
read_digits n (c ∷ s) =
    let rest = read_digits (n * 10 + (c - b'0')) s in if is_digit c then rest else none

abbrev read_number : Text → Option ℕ
read_number [] = none
read_number (c ∷ s) = read_digits 0 (c ∷ s)

abbrev negate : ℕ → ℤ
negate zero = pos 0
negate (suc n) = negsuc n

abbrev in_range : (ℕ → ℤ) → ℕ → Option ℕ → Option ℤ
in_range sign bound none = none
in_range sign bound (some n) = if leb n bound then some (sign n) else none

-- `strconv.ParseInt(s, 10, bits)`: a sign, then decimal digits.
unfoldable pub parse_int : ℕ → Text → Option ℤ
parse_int width [] = none
parse_int width (c ∷ s) =
    if eqb c b'-'
    then in_range negate (2 ^ (width - 1)) (read_number s)
    else if eqb c b'+'
    then in_range pos (2 ^ (width - 1) - 1) (read_number s)
    else in_range pos (2 ^ (width - 1) - 1) (read_number (c ∷ s))

-- `strconv.Atoi`, where an int has 64 bits.
unfoldable pub atoi : Text → Option ℤ
unfolding parse_int
atoi s = parse_int 64 s

-- `a / b` for a positive `b`: Go truncates towards zero.
unfoldable pub quotient : ℤ → ℕ → ℤ
quotient (pos n) b = pos (n / b)
quotient (negsuc n) b = negate ((n + 1) / b)
