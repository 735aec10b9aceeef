-- ===== src/Shell/Quoting.antt =====
-- How a POSIX shell reads a quoted word, and that it reads what was meant.
use kg.Base.{
  ℕ, Bool, true, false, ◌||◌, [], ◌∷◌, ◌++◌, append_assoc, append-nil, Option, none, some, ◌≡◌,
  arith, Text, eqb, if◌then◌else◌,
}
use kg.Shell.{quote, backslash, escape_quotes, shell_quote}

-- Bytes that end an unquoted word.
abbrev is_blank : ℕ → Bool
is_blank c = eqb c b' ' || eqb c b'\n'

pub data Mode : Type 0 where
  plain single escaped : Mode

-- One shell word: the bytes that it stands for, and the rest. Between single quotes every byte
-- stands for itself; outside, a backslash quotes the next byte and a blank ends the word.
pub shell_word : Mode → Text → Text → Option (Text × Text)
shell_word plain out [] = some (out, [])
shell_word single out [] = none
shell_word escaped out [] = none
shell_word single out (c ∷ s) = elim (eqb c quote) [
  | true ↦ shell_word plain out s
  | false ↦ shell_word single (out ++ c ∷ []) s
]
shell_word escaped out (c ∷ s) = shell_word plain (out ++ c ∷ []) s
shell_word plain out (c ∷ s) =
    let open_quote = shell_word single out s in
    let escape = shell_word escaped out s in
    let next = shell_word plain (out ++ c ∷ []) s in
    if is_blank c
    then some (out, c ∷ s)
    else if eqb c quote
    then open_quote
    else if eqb c backslash
    then escape
    else next

pub read_word : Text → Option (Text × Text)
read_word s = shell_word plain [] s

single-escape :
    (s out rest : Text)
    → shell_word single out (escape_quotes s ++ rest) ≡ shell_word single (out ++ s) rest
unfolding shell_word escape_quotes
single-escape [] out rest = rw append-nil
single-escape (c ∷ s) out rest =
    ground (arith, single-escape s (out ++ c ∷ []) rest, append_assoc out (c ∷ []) s)

-- A quoted text, followed by a blank, is read back as the one word that it quotes, whatever bytes
-- it holds, and nothing behind it is taken.
pub read-shell_quote :
    (s : Text) (rest : Text) → read_word (shell_quote s ++ b' ' ∷ rest) ≡ some (s, b' ' ∷ rest)
unfolding read_word shell_word shell_quote
read-shell_quote s rest =
    rw (append_assoc (escape_quotes s), single-escape s [] (quote ∷ b' ' ∷ rest))

-- The same where the line ends behind the word.
pub read-shell_quote_last :
    (s : Text) (rest : Text) → read_word (shell_quote s ++ b'\n' ∷ rest) ≡ some (s, b'\n' ∷ rest)
unfolding read_word shell_word shell_quote
read-shell_quote_last s rest =
    rw (append_assoc (escape_quotes s), single-escape s [] (quote ∷ b'\n' ∷ rest))
