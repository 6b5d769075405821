-- ===== src/Quote/Shell.antt =====
-- How a POSIX shell splits a line into words, as far as `quote_bytes` uses its quoting: single
-- quotes, and a backslash outside them. A character with another meaning to the shell, outside
-- quotes, is an error, and so is a quote that is not closed.
use mathlib.Core.Option
use sudowhat.Prelude.{
  ℕ, ◌≡◌, refl, Bool, true, false, ◌||◌, Option, none, some, List, [], ◌∷◌, ◌++◌, ltb, ◌==◌, Text,
  codes,
}

pub data Mode : Type 0 where
  blank : Mode
  word : Text → Mode
  in_quotes : Text → Mode
  after_backslash : Text → Mode

is_member : ℕ → Text → Bool
is_member c [] = false
is_member c (d ∷ t) = c == d || is_member c t

-- The characters that a shell does not take literally outside quotes, controls among them.
unfoldable pub is_special : ℕ → Bool
unfolding is_member
is_special c = ltb c b' ' || is_member c (codes "|&;<>()$`\"*?[]#~!{}^")

-- A character outside quotes and blanks, behind the characters of the word so far.
abbrev pub word_char : Text → ℕ → (Mode → Option (List Text)) → Option (List Text)
word_char cur c rest = elim (c == b'\'') [
  | true ↦ rest (in_quotes cur)
  | false ↦ elim (c == b'\\') [
    | true ↦ rest (after_backslash cur)
    | false ↦ elim (is_special c) [ true ↦ none | false ↦ rest (word (cur ++ c ∷ [])) ]
  ]
]

abbrev pub shell_char : Mode → ℕ → (Mode → Option (List Text)) → Option (List Text)
shell_char blank c rest = elim (c == b' ') [ true ↦ rest blank | false ↦ word_char [] c rest ]
shell_char (word cur) c rest = elim (c == b' ') [
  | true ↦ Option.map (λ words. cur ∷ words) (rest blank)
  | false ↦ word_char cur c rest
]
shell_char (in_quotes cur) c rest = elim (c == b'\'') [
  | true ↦ rest (word cur)
  | false ↦ rest (in_quotes (cur ++ c ∷ []))
]
shell_char (after_backslash cur) c rest = rest (word (cur ++ c ∷ []))

abbrev pub shell_end : Mode → Option (List Text)
shell_end blank = some []
shell_end (word cur) = some (cur ∷ [])
shell_end _ = none

unfoldable pub shell_from : Text → Mode → Option (List Text)
shell_from [] m = shell_end m
shell_from (c ∷ t) m = shell_char m c (shell_from t)

unfoldable pub shell_words : Text → Option (List Text)
unfolding shell_from
shell_words t = shell_from t blank

shell_words_quotes :
    shell_words (codes "a 'b c' 'd'\\''e' ''")
    ≡ some (codes "a" ∷ codes "b c" ∷ codes "d'e" ∷ [] ∷ [])
unfolding shell_words is_special
shell_words_quotes = refl
