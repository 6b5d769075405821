-- ===== src/Escape/Reader.antt =====
-- A reader of the display, independent of the code that writes it: an introducer, `\u{` or `\x`
-- and a hexadecimal digit, begins an escape, and every other character is itself. The header of
-- shared/escape_core/src/lib.rs promises that the display can be read so.
use sudowhat.Hex.{is_ascii_hexdigit, digit_value}
use sudowhat.Prelude.{ℕ, ◌+◌, ◌*◌, ◌≡◌, refl, true, false, List, [], ◌∷◌, ◌==◌, Text, codes}
use sudowhat.Utf8.{Decoded, ok, err}

-- What was read of an escape, or of a text that may begin one.
pub data Mode : Type 0 where
  plain after_backslash after_u after_x : Mode
  in_braces : ℕ → Mode
  second_digit : ℕ → Mode

-- A character outside an escape.
abbrev pub read_plain : ℕ → (Mode → List Decoded) → List Decoded
read_plain c rest = elim (c == b'\\') [ true ↦ rest after_backslash | false ↦ ok c ∷ rest plain ]

-- One character in a mode; `rest` reads the characters behind it.
abbrev pub read_char : Mode → ℕ → (Mode → List Decoded) → List Decoded
read_char plain c rest = read_plain c rest
read_char after_backslash c rest = elim (c == b'u') [
  | true ↦ rest after_u
  | false ↦ elim (c == b'x') [ true ↦ rest after_x | false ↦ ok b'\\' ∷ read_plain c rest ]
]
read_char after_u c rest = elim (c == b'{') [
  | true ↦ rest (in_braces 0)
  | false ↦ ok b'\\' ∷ ok b'u' ∷ read_plain c rest
]
read_char after_x c rest = elim (is_ascii_hexdigit c) [
  | true ↦ rest (second_digit (digit_value c))
  | false ↦ ok b'\\' ∷ ok b'x' ∷ read_plain c rest
]
read_char (in_braces n) c rest = elim (c == b'}') [
  | true ↦ ok n ∷ rest plain
  | false ↦ rest (in_braces (n * 16 + digit_value c))
]
read_char (second_digit n) c rest = err (n * 16 + digit_value c) ∷ rest plain

-- What the end of the text leaves over.
abbrev pub read_end : Mode → List Decoded
read_end after_backslash = ok b'\\' ∷ []
read_end after_u = ok b'\\' ∷ ok b'u' ∷ []
read_end after_x = ok b'\\' ∷ ok b'x' ∷ []
read_end _ = []

unfoldable pub read_from : Text → Mode → List Decoded
read_from [] m = read_end m
read_from (c ∷ t) m = read_char m c (read_from t)

unfoldable pub read : Text → List Decoded
unfolding read_from
read t = read_from t plain

read_escapes :
    read (codes "a\\u{202E}\\xFF\\\\x")
    ≡ ok b'a' ∷ ok 0x202E ∷ err 0xFF ∷ ok b'\\' ∷ ok b'\\' ∷ ok b'x' ∷ []
unfolding read is_ascii_hexdigit
read_escapes = refl
