-- ===== src/Cloudinit/Script/Lines.antt =====
-- The lines of `wrapBase64`: none is too long, and the encoded text is what they hold.
use kg.Base.{
  ℕ, zero, suc, ◌-◌, ◌≤◌, Bool, true, false, ◌&&◌, [], ◌∷◌, ◌++◌, append_assoc, append-nil, inl,
  inr, Text, eqb, leb, ◌≡◌, refl, arith, if◌then◌else◌, take, drop, length, Bool-cases,
}
use kg.Base.Strings.{contains_byte}
use kg.Cloudinit.Script.{wrap_lines, wrap_encoded, width}

-- The text less its line breaks.
unfoldable pub unwrapped : Text → Text
unwrapped [] = []
unwrapped (c ∷ s) = let rest = unwrapped s in if eqb c b'\n' then rest else c ∷ rest

-- No line has more than `w` bytes, and the first no more than `room`.
unfoldable pub fits : ℕ → ℕ → Text → Bool
fits w room [] = true
fits w zero (c ∷ s) = eqb c b'\n' && fits w w s
fits w (suc room) (c ∷ s) =
    let next = fits w w s in let same = fits w room s in if eqb c b'\n' then next else same

fits-append :
    (w room : ℕ) (line rest : Text)
    → contains_byte line b'\n' ≡ false
    → length line ≤ room
    → fits w room (line ++ b'\n' ∷ rest) ≡ fits w w rest
unfolding fits contains_byte
fits-append w zero [] rest h l = refl
fits-append w (suc room) [] rest h l = refl
fits-append w zero (c ∷ line) rest h l = absurd (omega arith)
fits-append w (suc room) (c ∷ line) rest h l = ground (arith, fits-append w room line rest)

unwrapped-append :
    (line rest : Text)
    → contains_byte line b'\n' ≡ false
    → unwrapped (line ++ b'\n' ∷ rest) ≡ line ++ unwrapped rest
unfolding unwrapped contains_byte
unwrapped-append [] rest h = refl
unwrapped-append (c ∷ line) rest h = ground (arith, unwrapped-append line rest)

contains_byte-take :
    (n : ℕ) (s : Text) (b : ℕ) → contains_byte s b ≡ false → contains_byte (take n s) b ≡ false
unfolding contains_byte
contains_byte-take zero s b h = refl
contains_byte-take (suc n) [] b h = refl
contains_byte-take (suc n) (c ∷ s) b h = ground (arith, contains_byte-take n s b)

contains_byte-drop :
    (n : ℕ) (s : Text) (b : ℕ) → contains_byte s b ≡ false → contains_byte (drop n s) b ≡ false
unfolding contains_byte
contains_byte-drop zero s b h = h
contains_byte-drop (suc n) [] b h = refl
contains_byte-drop (suc n) (c ∷ s) b h = ground (arith, contains_byte-drop n s b)

take-drop : (n : ℕ) (s : Text) → take n s ++ drop n s ≡ s
take-drop zero s = refl
take-drop (suc n) [] = refl
take-drop (suc n) (c ∷ s) = rw (take-drop n s) refl

length-take : (n : ℕ) (s : Text) → length (take n s) ≤ n
length-take zero s = omega arith
length-take (suc n) [] = omega arith
length-take (suc n) (c ∷ s) = omega (arith, length-take n s)

length-drop : (n : ℕ) (s : Text) → length (drop (suc n) s) ≤ length s - 1
length-drop n [] = omega arith
length-drop zero (c ∷ s) = omega arith
length-drop (suc n) (c ∷ s) = omega (arith, length-drop n s)

leb_le : (a b : ℕ) → leb a b ≡ true → a ≤ b
leb_le a b h = ground arith

-- One round of the loop takes a line off.
wrap_lines-step :
    (fuel : ℕ) (encoded : Text)
    → wrap_lines (suc fuel) encoded ≡ (
        if leb (length encoded) width
        then encoded ++ b'\n' ∷ []
        else take width encoded ++ b'\n' ∷ wrap_lines fuel (drop width encoded))
unfolding wrap_lines
wrap_lines-step fuel encoded =
    ground
      (arith, append_assoc (take width encoded) (b'\n' ∷ []) (wrap_lines fuel (drop width encoded)))

-- The three facts of a round: what it takes is a line, what it leaves is shorter, and neither has a
-- line break.
round :
    (fuel : ℕ) (encoded : Text)
    → length encoded ≤ suc fuel
    → contains_byte encoded b'\n' ≡ false
    → (length (drop width encoded) ≤ fuel)
      × (contains_byte (drop width encoded) b'\n' ≡ false)
      × (length (take width encoded) ≤ width)
      × (contains_byte (take width encoded) b'\n' ≡ false)
round fuel encoded enough clean = (
  omega (arith, length-drop 75 encoded),
  contains_byte-drop width encoded b'\n' clean,
  length-take width encoded,
  contains_byte-take width encoded b'\n' clean,
)

wrap_lines-fits :
    (fuel : ℕ) (encoded : Text)
    → length encoded ≤ fuel
    → contains_byte encoded b'\n' ≡ false
    → fits width width (wrap_lines fuel encoded) ≡ true
unfolding wrap_lines fits
wrap_lines-fits zero [] enough clean = refl
wrap_lines-fits zero (c ∷ s) enough clean = absurd (omega arith)
wrap_lines-fits (suc fuel) encoded enough clean =
    let (less, clean', short, clean_line) = round fuel encoded enough clean in
    elim (Bool-cases (leb (length encoded) width)) [
      | inl last ↦
          rw (wrap_lines-step fuel encoded, last)
            (fits-append width width encoded [] clean (leb_le (length encoded) width last))
      | inr more ↦
          rw (wrap_lines-step fuel encoded, more)
            (rw
              (fits-append width width (take width encoded) (wrap_lines fuel (drop width encoded))
                clean_line short)
              (wrap_lines-fits fuel (drop width encoded) less clean'))
    ]

wrap_lines-unwrapped :
    (fuel : ℕ) (encoded : Text)
    → length encoded ≤ fuel
    → contains_byte encoded b'\n' ≡ false
    → unwrapped (wrap_lines fuel encoded) ≡ encoded
unfolding wrap_lines unwrapped
wrap_lines-unwrapped zero [] enough clean = refl
wrap_lines-unwrapped zero (c ∷ s) enough clean = absurd (omega arith)
wrap_lines-unwrapped (suc fuel) encoded enough clean =
    let (less, clean', short, clean_line) = round fuel encoded enough clean in
    elim (Bool-cases (leb (length encoded) width)) [
      | inl last ↦
          rw (wrap_lines-step fuel encoded, last, unwrapped-append encoded [] clean)
            (append-nil encoded)
      | inr more ↦
          rw
            (
              wrap_lines-step fuel encoded,
              more,
              unwrapped-append (take width encoded) (wrap_lines fuel (drop width encoded))
                  clean_line,
              wrap_lines-unwrapped fuel (drop width encoded) less clean',
            )
            (take-drop width encoded)
    ]

-- The loop of `wrapBase64` writes every byte of the encoded text, in order, in lines of no more than
-- 76 bytes: less its line breaks, the wrapped text is the encoded one, which has none. The rounds
-- that the model gives the loop are enough.
pub wrap_encoded-fits :
    (encoded : Text)
    → contains_byte encoded b'\n' ≡ false
    → (fits width width (wrap_encoded encoded) ≡ true)
      × (unwrapped (wrap_encoded encoded) ≡ encoded)
unfolding wrap_encoded
wrap_encoded-fits encoded clean = (
  wrap_lines-fits (length encoded) encoded (omega arith) clean,
  wrap_lines-unwrapped (length encoded) encoded (omega arith) clean,
)
