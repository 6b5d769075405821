-- ===== src/Gate/ReadBack.antt =====
-- `sw_pam_lines` reads back what a file was written with, whatever white space, comments and blank
-- lines stand around it.

use sudowhat.Gate.Lines.{
  is_whitespace, is_newline, split_on, begins_comment, line_tokens, lines_of, pam_lines,
}
use sudowhat.Gate.Written.{
  IsSpace, IsWord, split_on-append, words, spaced, AreSpaced, tokens, words-spaced, trim-spaces,
  trim-blank, words-trim_back,
}
use sudowhat.Prelude.{
  refl, ℕ, [], ◌∷◌, ◌++◌, ◌≡◌, ap, ◌∙◌, true, false, some, none, Text, List, All, All-append,
  All-map, ◌==◌, arith,
}

-- A line as it is written.
pub data Line : Type 0 where
  blank : Text → Line
  comment : Text → Text → Line
  entry : Text → List (Text × Text) → Line

abbrev pub line_text : Line → Text
line_text (blank pad) = pad
line_text (comment pad body) = pad ++ b'#' ∷ body
line_text (entry pad ts) = pad ++ spaced is_whitespace ts

-- The tokens of the first entry do not make it a comment.
abbrev pub Begins : List (Text × Text) → Type 0
Begins [] = ⊥
Begins ((t, gap) ∷ ts) = begins_comment t ≡ false

-- No line feed stands within a line.
abbrev pub OneLine : Text → Type 0
OneLine = All (IsWord is_newline)

abbrev pub IsLine : Line → Type 0
IsLine (blank pad) = All (IsSpace is_whitespace) pad
IsLine (comment pad body) = All (IsSpace is_whitespace) pad × OneLine body
IsLine (entry pad ts) =
    All (IsSpace is_whitespace) pad
    × AreSpaced is_whitespace ts
    × Begins ts
    × All (λ p. OneLine p.0) ts

abbrev pub entries : List Line → List (List Text)
entries [] = []
entries (blank pad ∷ lines) = entries lines
entries (comment pad body ∷ lines) = entries lines
entries (entry pad ts ∷ lines) = tokens is_whitespace ts ∷ entries lines

abbrev pub file_text : List Line → Text
file_text [] = []
file_text (l ∷ lines) = line_text l ++ b'\n' ∷ file_text lines

hash_word : is_whitespace b'#' ≡ false
unfolding is_whitespace
hash_word = refl

space_one_line : (c : ℕ) → is_whitespace c ≡ true → is_newline c ≡ false
unfolding is_whitespace
space_one_line c h = ground arith

spaces-OneLine : (pad : Text) → All (IsSpace is_whitespace) pad → OneLine pad
spaces-OneLine pad h = All-map space_one_line pad h

spaced-OneLine :
    (ts : List (Text × Text))
    → AreSpaced is_whitespace ts
    → All (λ p. OneLine p.0) ts
    → OneLine (spaced is_whitespace ts)
spaced-OneLine [] h k = tt
spaced-OneLine ((t, gap) ∷ ts) (some_token, word, space, end, rest) (one, k) =
    All-append (IsWord is_newline) t _ one
      (All-append (IsWord is_newline) gap _ (spaces-OneLine gap space) (spaced-OneLine ts rest k))

line_text-OneLine : (l : Line) → IsLine l → OneLine (line_text l)
line_text-OneLine (blank pad) h = spaces-OneLine pad h
line_text-OneLine (comment pad body) (h, k) =
    All-append (IsWord is_newline) pad _ (spaces-OneLine pad h) (refl, k)
line_text-OneLine (entry pad ts) (h, s, b, k) =
    All-append (IsWord is_newline) pad _ (spaces-OneLine pad h) (spaced-OneLine ts s k)

line_tokens-blank : (pad : Text) → All (IsSpace is_whitespace) pad → line_tokens pad ≡ none
unfolding line_tokens
line_tokens-blank pad h = rw (trim-blank is_whitespace pad h) refl

line_tokens-comment :
    (pad body : Text) → All (IsSpace is_whitespace) pad → line_tokens (pad ++ b'#' ∷ body) ≡ none
unfolding line_tokens
line_tokens-comment pad body h = rw (trim-spaces is_whitespace pad b'#' body h hash_word) refl

line_tokens-word :
    (pad : Text) (c : ℕ) (s : Text)
    → All (IsSpace is_whitespace) pad
    → is_whitespace c ≡ false
    → (c == b'#') ≡ false
    → line_tokens (pad ++ c ∷ s) ≡ some (words is_whitespace (c ∷ s))
unfolding line_tokens
line_tokens-word pad c s h e plain =
    rw (trim-spaces is_whitespace pad c s h e, plain)
      (ap some (words-trim_back is_whitespace c s e))

line_tokens-entry :
    (pad : Text) (ts : List (Text × Text))
    → All (IsSpace is_whitespace) pad
    → AreSpaced is_whitespace ts
    → Begins ts
    → line_tokens (pad ++ spaced is_whitespace ts) ≡ some (tokens is_whitespace ts)
line_tokens-entry pad [] h s b = absurd b
line_tokens-entry pad (([], gap) ∷ ts) h s b = absurd (s.0 refl)
line_tokens-entry pad ((c ∷ t, gap) ∷ ts) h s b =
    line_tokens-word pad c (t ++ (gap ++ spaced is_whitespace ts)) h (s.1.0) b
    ∙ ap some (words-spaced is_whitespace ((c ∷ t, gap) ∷ ts) s)

lines_of-none :
    (raw : Text) (rest : List Text) → line_tokens raw ≡ none → lines_of (raw ∷ rest) ≡ lines_of rest
unfolding lines_of
lines_of-none raw rest e = rw (lines_of, e) refl

lines_of-some :
    (raw : Text) (rest : List Text) (f : List Text)
    → line_tokens raw ≡ some f
    → lines_of (raw ∷ rest) ≡ f ∷ lines_of rest
unfolding lines_of
lines_of-some raw rest f e = rw (lines_of, e) refl

lines_of-line :
    (l : Line) (lines : List Line) (rest : List Text)
    → IsLine l
    → lines_of rest ≡ entries lines
    → lines_of (line_text l ∷ rest) ≡ entries (l ∷ lines)
lines_of-line (blank pad) lines rest h e = lines_of-none pad rest (line_tokens-blank pad h) ∙ e
lines_of-line (comment pad body) lines rest (h, k) e =
    lines_of-none (line_text (comment pad body)) rest (line_tokens-comment pad body h) ∙ e
lines_of-line (entry pad ts) lines rest (h, s, b, k) e =
    lines_of-some (line_text (entry pad ts)) rest (tokens is_whitespace ts)
      (line_tokens-entry pad ts h s b)
    ∙ ap (λ fs. tokens is_whitespace ts ∷ fs) e

lines_of-file_text :
    (lines : List Line)
    → All IsLine lines
    → lines_of (split_on is_newline (file_text lines)) ≡ entries lines
unfolding lines_of split_on
lines_of-file_text [] h = lines_of-none [] [] (line_tokens-blank [] tt)
lines_of-file_text (l ∷ lines) (hl, h) =
    ap lines_of (
      split_on-append is_newline (line_text l) b'\n' (file_text lines) (line_text-OneLine l hl)
        refl)
    ∙ lines_of-line l lines (split_on is_newline (file_text lines)) hl (lines_of-file_text lines h)

-- The tokens of a file are read back as they were written: each line's tokens in order, with any
-- white space in front, between and behind, and nothing for comments and blank lines. No token is
-- empty or has white space or a line feed in it, and no line's first begins with a number sign.
pub pam_lines-file_text :
    (lines : List Line)
    → All IsLine lines
    → pam_lines (some (file_text lines)) ≡ some (entries lines)
unfolding pam_lines
pam_lines-file_text lines h = ap some (lines_of-file_text lines h)
