-- ===== src/Shell.antt =====
-- `shellQuote` and `dirOf`, which internal/ssh/client.go and internal/cloudinit/cloudinit.go both
-- declare, in the same words.
pub mod Quoting
use kg.Base.{
  ℕ, zero, suc, List, [], ◌∷◌, ◌++◌, Option, none, some, Text, codes, eqb, leb, if◌then◌else◌,
}

abbrev pub quote : ℕ
quote = b'\''

abbrev pub backslash : ℕ
backslash = b'\\'

-- `strings.ReplaceAll(s, "'", "'\\''")`
unfoldable pub escape_quotes : Text → Text
escape_quotes [] = []
escape_quotes (c ∷ s) =
    (if eqb c quote then quote ∷ backslash ∷ quote ∷ quote ∷ [] else c ∷ []) ++ escape_quotes s

unfoldable pub shell_quote : Text → Text
unfolding escape_quotes
shell_quote s = quote ∷ (escape_quotes s ++ quote ∷ [])

-- `path[:strings.LastIndex(path, "/")]`: what stands before the last slash, if there is one.
unfoldable pub before_last_slash : Text → Option Text
before_last_slash [] = none
before_last_slash (c ∷ s) = elim (before_last_slash s) [
  | some head ↦ some (c ∷ head)
  | none ↦ if eqb c b'/' then some [] else none
]

abbrev pub or_root : Option Text → Text
or_root none = codes "/"
or_root (some []) = codes "/"
or_root (some (c ∷ s)) = c ∷ s

unfoldable pub dir_of : Text → Text
unfolding before_last_slash
dir_of path = or_root (before_last_slash path)
