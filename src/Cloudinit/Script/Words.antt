-- ===== src/Cloudinit/Script/Words.antt =====
-- A command that is an argument vector reaches the program it names word for word.
use kg.Base.{
  ℕ, zero, suc, List, [], ◌∷◌, ◌++◌, append_assoc, Option, none, some, ok, Text, codes, eqb, ◌≡◌,
  refl, if◌then◌else◌, length, map, ap,
}
use kg.Base.Strings.{join}
use kg.Platform.Codec.{Codec}
use kg.Shell.{shell_quote}
use kg.Shell.Quoting.{read_word, read-shell_quote, read-shell_quote_last}
use kg.Yaml.{Items, text, list, no_items, item}
use kg.Cloudinit.Script.{CloudConfig, quote_words, render_command}

-- The words of a line, as a shell reads them, up to the end of the line; `n` words are read at most.
abbrev behind : Text → Text → Option (List Text) → Option (List Text)
behind w [] later = none
behind w (c ∷ s) (some ws) = if eqb c b'\n' then some (w ∷ []) else some (w ∷ ws)
behind w (c ∷ s) none = if eqb c b'\n' then some (w ∷ []) else none

abbrev less_first : Text → Text
less_first [] = []
less_first (c ∷ s) = s

abbrev following : (Text → Option (List Text)) → Option (Text × Text) → Option (List Text)
following next none = none
following next (some (w, rest)) = behind w rest (next (less_first rest))

unfoldable pub read_words : ℕ → Text → Option (List Text)
read_words zero s = none
read_words (suc n) s = following (read_words n) (read_word s)

abbrev pub argv : List Text → Items
argv [] = no_items
argv (w ∷ ws) = item (text w) (argv ws)

quote_words-argv :
    (codec : Codec CloudConfig) (ws : List Text)
    → quote_words codec (argv ws) ≡ ok (map shell_quote ws)
unfolding quote_words
quote_words-argv codec [] = refl
quote_words-argv codec (w ∷ ws) = rw (quote_words-argv codec ws) refl

read_words-step :
    (n : ℕ) (s w rest : Text)
    → read_word s ≡ some (w, rest)
    → read_words (suc n) s ≡ behind w rest (read_words n (less_first rest))
unfolding read_words
read_words-step n s w rest h = ap (following (read_words n)) h

read_words-join :
    (w : Text) (ws : List Text) (rest : Text)
    → read_words (suc (length ws)) (join (map shell_quote (w ∷ ws)) (codes " ") ++ b'\n' ∷ rest)
      ≡ some (w ∷ ws)
unfolding join read_words
read_words-join w [] rest =
    rw (read_words-step 0 _ w (b'\n' ∷ rest) (read-shell_quote_last w rest)) refl
read_words-join w (v ∷ ws) rest =
    let later = join (map shell_quote (v ∷ ws)) (codes " ") ++ b'\n' ∷ rest in
    rw
      (
        append_assoc (shell_quote w ++ codes " ") (join (map shell_quote (v ∷ ws)) (codes " "))
            (b'\n' ∷ rest),
        append_assoc (shell_quote w) (codes " ") later,
        read_words-step (suc (length ws)) _ w (b' ' ∷ later) (read-shell_quote w later),
        read_words-join v ws rest,
      )
      refl

-- A command that is a list of texts, the program and its arguments, is always rendered, and a shell
-- that reads the line up to its end finds these words, whatever bytes they hold.
pub read_words-render_command :
    (codec : Codec CloudConfig) (w : Text) (ws : List Text) (rest : Text)
    → (line : Text) × (render_command codec (list (argv (w ∷ ws))) ≡ ok line)
      × (read_words (suc (length ws)) (line ++ b'\n' ∷ rest) ≡ some (w ∷ ws))
unfolding render_command
read_words-render_command codec w ws rest = (
  join (map shell_quote (w ∷ ws)) (codes " "),
  rw (quote_words-argv codec (w ∷ ws)) refl,
  read_words-join w ws rest,
)
