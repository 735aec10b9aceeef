-- ===== src/Base/Strings.antt =====
-- What the program uses of Go's packages strings, strconv and net, on the bytes of UTF-8 texts.
use Prim.Native.Nat.{ℕ, zero, suc, ◌+◌, ◌/◌, ◌%◌}
use mathlib.Core.Bool.{Bool, true, false, ◌&&◌, ◌||◌}
use mathlib.Core.Option.{Option, none, some}
use mathlib.Core.List.{List, [], ◌∷◌, ◌++◌, reverse}
use kg.Base.Int.{ℤ, pos, negsuc}
use kg.Base.Tests.{Text, codes, leb, eqb, if◌then◌else◌}

unfoldable pub is_space : ℕ → Bool
is_space c = eqb c b' ' || (leb 9 c && leb c 13)

-- The white space of `unicode.IsSpace` that takes two bytes: U+0085 and U+00A0.
abbrev is_space_2 : ℕ → ℕ → Bool
is_space_2 a b = eqb a 194 && (eqb b 133 || eqb b 160)

-- That of three bytes: U+1680, U+2000 to U+200A, U+2028, U+2029, U+202F, U+205F and U+3000.
abbrev is_space_3 : ℕ → ℕ → ℕ → Bool
is_space_3 a b c =
    (eqb a 225 && eqb b 154 && eqb c 128)
    || (eqb a 226 && eqb b 128 && ((leb 128 c && leb c 138) || eqb c 168 || eqb c 169 || eqb c 175))
    || (eqb a 226 && eqb b 129 && eqb c 159)
    || (eqb a 227 && eqb b 128 && eqb c 128)

-- How many bytes of white space a text begins with: those of one character, or 0.
abbrev first_three : ℕ → ℕ → Text → ℕ
first_three a b [] = 0
first_three a b (c ∷ s) = if is_space_3 a b c then 3 else 0

abbrev first_two : ℕ → Text → ℕ
first_two a [] = 0
first_two a (b ∷ s) = if is_space_2 a b then 2 else first_three a b s

unfoldable pub first_space : Text → ℕ
first_space [] = 0
first_space (a ∷ s) = if is_space a then 1 else first_two a s

-- The same of the end of a text that is written backwards.
abbrev last_three : ℕ → ℕ → Text → ℕ
last_three c b [] = 0
last_three c b (a ∷ s) = if is_space_3 a b c then 3 else 0

abbrev last_two : ℕ → Text → ℕ
last_two b [] = 0
last_two b (a ∷ s) = if is_space_2 a b then 2 else last_three b a s

unfoldable pub last_space : Text → ℕ
last_space [] = 0
last_space (c ∷ s) = if is_space c then 1 else last_two c s

-- Passes over `n` bytes, and then over the white space that `width` measures.
unfoldable pub trim_front : (Text → ℕ) → ℕ → Text → Text
trim_front width n [] = []
trim_front width (suc n) (c ∷ s) = trim_front width n s
trim_front width zero (c ∷ s) = elim (width (c ∷ s)) [ zero ↦ c ∷ s | suc n ↦ trim_front width n s ]

-- `strings.TrimSpace`
unfoldable pub trim_space : Text → Text
unfolding trim_front is_space first_space last_space
trim_space s = reverse (trim_front last_space 0 (reverse (trim_front first_space 0 s)))

-- `strings.HasPrefix` and `strings.TrimPrefix`
unfoldable pub has_prefix : Text → Text → Bool
has_prefix s [] = true
has_prefix [] (p ∷ ps) = false
has_prefix (c ∷ s) (p ∷ ps) = eqb c p && has_prefix s ps

abbrev drop_prefix : Text → Text → Text
drop_prefix s [] = s
drop_prefix [] (p ∷ ps) = []
drop_prefix (c ∷ s) (p ∷ ps) = drop_prefix s ps

unfoldable pub trim_prefix : Text → Text → Text
unfolding has_prefix
trim_prefix s p = if has_prefix s p then drop_prefix s p else s

-- `strings.HasSuffix`
unfoldable pub has_suffix : Text → Text → Bool
unfolding has_prefix
has_suffix s p = has_prefix (reverse s) (reverse p)

abbrev close_word : Text → List Text → List Text
close_word [] words = words
close_word (c ∷ cur) words = (c ∷ cur) ∷ words

-- `strings.Fields`; `cur` is the word that the text stands in.
unfoldable pub fields_from : Text → Text → List Text
fields_from cur [] = close_word cur []
fields_from cur (c ∷ s) =
    let closed = close_word cur (fields_from [] s) in
    let longer = fields_from (cur ++ c ∷ []) s in if is_space c then closed else longer

unfoldable pub fields : Text → List Text
unfolding fields_from is_space
fields s = fields_from [] s

-- `strings.Join`
unfoldable pub join : List Text → Text → Text
join [] sep = []
join (p ∷ []) sep = p
join (p ∷ q ∷ ps) sep = p ++ sep ++ join (q ∷ ps) sep

-- `strings.Contains` of one byte
unfoldable pub contains_byte : Text → ℕ → Bool
contains_byte [] b = false
contains_byte (c ∷ s) b = eqb c b || contains_byte s b

-- `strconv.Itoa` of a number that is not negative; a number has fewer digits than its value has
-- units, so `n` rounds are enough.
print_digits : ℕ → ℕ → Text → Text
print_digits zero n out = out
print_digits (suc fuel) n out =
    let next = print_digits fuel (n / 10) ((b'0' + n % 10) ∷ out) in if eqb n 0 then out else next

unfoldable pub itoa : ℕ → Text
unfolding print_digits
itoa n = if eqb n 0 then codes "0" else print_digits n n []

-- `%d` of an integer
unfoldable pub print_int : ℤ → Text
unfolding itoa
print_int (pos n) = itoa n
print_int (negsuc n) = codes "-" ++ itoa (n + 1)

-- `%q` of a text of printable ASCII, line breaks and tabs.
abbrev quote_byte : ℕ → Text
quote_byte c =
    if eqb c b'"' || eqb c b'\\'
    then b'\\' ∷ c ∷ []
    else if eqb c b'\n'
    then codes "\\n"
    else if eqb c b'\t'
    then codes "\\t"
    else c ∷ []

abbrev quote_bytes : Text → Text
quote_bytes [] = []
quote_bytes (c ∷ s) = quote_byte c ++ quote_bytes s

unfoldable pub go_quote : Text → Text
go_quote s = b'"' ∷ (quote_bytes s ++ b'"' ∷ [])

-- `net.JoinHostPort`: an address with a colon stands in brackets.
unfoldable pub join_host_port : Text → Text → Text
unfolding contains_byte
join_host_port host port =
    if contains_byte host b':'
    then codes "[" ++ host ++ codes "]:" ++ port
    else host ++ codes ":" ++ port

-- `strings.Split` by one byte; `cur` is the part that the text stands in.
unfoldable pub split_from : ℕ → Text → Text → List Text
split_from sep cur [] = cur ∷ []
split_from sep cur (c ∷ s) =
    let closed = cur ∷ split_from sep [] s in
    let longer = split_from sep (cur ++ c ∷ []) s in if eqb c sep then closed else longer

unfoldable pub split : Text → ℕ → List Text
unfolding split_from
split s sep = split_from sep [] s

abbrev cons_head : ℕ → Option (Text × Text) → Option (Text × Text)
cons_head c none = none
cons_head c (some (head, rest)) = some (c ∷ head, rest)

-- `strings.Cut` at one byte; nothing where the byte does not occur.
unfoldable pub cut : Text → ℕ → Option (Text × Text)
cut [] sep = none
cut (c ∷ s) sep = if eqb c sep then some ([], s) else cons_head c (cut s sep)

-- `strings.ToLower` of ASCII letters
unfoldable pub to_lower : Text → Text
to_lower [] = []
to_lower (c ∷ s) = (if leb b'A' c && leb c b'Z' then c + 32 else c) ∷ to_lower s

-- `strings.TrimSuffix`
unfoldable pub trim_suffix : Text → Text → Text
unfolding trim_prefix
trim_suffix s suffix = reverse (trim_prefix (reverse s) (reverse suffix))
