-- ===== src/Gate/Lines.antt =====
-- The lines of a configuration file: `sw_pam_lines` of plugin/sudowhat_approval.m, and the loop of
-- pam/SudoConfChecker.m. A file that cannot be read is `none`.
use sudowhat.Prelude.{
  [], ◌∷◌, true, false, some, none, Text, ℕ, List, Bool, Option, ◌==◌, ◌||◌, ◌&&◌, within,
  if◌then◌else◌, is_empty, bytes_eq, codes,
}

-- `whitespaceCharacterSet`: Unicode's general category Zs, and TAB.
unfoldable pub is_whitespace : ℕ → Bool
is_whitespace c =
    c == 0x09
    || c == 0x20
    || c == 0xA0
    || c == 0x1680
    || within 0x2000 0x200A c
    || c == 0x202F
    || c == 0x205F
    || c == 0x3000

abbrev pub is_newline : ℕ → Bool
is_newline c = c == b'\n'

-- A character in front of the first component.
abbrev pub push_front : ℕ → List Text → List Text
push_front c [] = (c ∷ []) ∷ []
push_front c (s ∷ parts) = (c ∷ s) ∷ parts

-- `componentsSeparatedBy…`: what stands between the separators, empty components included.
unfoldable pub split_on : (ℕ → Bool) → Text → List Text
split_on f [] = [] ∷ []
split_on f (c ∷ s) = let rest = split_on f s in if f c then [] ∷ rest else push_front c rest

-- `stringByTrimmingCharactersInSet`.
unfoldable pub trim_front : (ℕ → Bool) → Text → Text
trim_front f [] = []
trim_front f (c ∷ s) = let rest = trim_front f s in if f c then rest else c ∷ s

unfoldable pub trim_back : (ℕ → Bool) → Text → Text
trim_back f [] = []
trim_back f (c ∷ s) = let rest = trim_back f s in if f c && is_empty rest then [] else c ∷ rest

unfoldable pub trim : (ℕ → Bool) → Text → Text
unfolding trim_front trim_back
trim f s = trim_back f (trim_front f s)

abbrev pub begins_comment : Text → Bool
begins_comment [] = false
begins_comment (c ∷ s) = c == b'#'

-- The components that are not empty.
unfoldable pub tokens_of : List Text → List Text
tokens_of [] = []
tokens_of (tok ∷ parts) = let rest = tokens_of parts in if is_empty tok then rest else tok ∷ rest

-- One round of the loop: the tokens of a line, or nothing for a comment and a blank line.
unfoldable pub line_tokens : Text → Option (List Text)
unfolding trim split_on tokens_of is_whitespace
line_tokens raw_line =
    let line = trim is_whitespace raw_line in
    if is_empty line || begins_comment line
    then none
    else some (tokens_of (split_on is_whitespace line))

unfoldable pub lines_of : List Text → List (List Text)
unfolding line_tokens
lines_of [] = []
lines_of (raw_line ∷ raw_lines) =
    let lines = lines_of raw_lines in
    elim (line_tokens raw_line) [ some f ↦ f ∷ lines | none ↦ lines ]

-- `sw_pam_lines`.
unfoldable pub pam_lines : Option Text → Option (List (List Text))
unfolding split_on lines_of
pam_lines none = none
pam_lines (some content) = some (lines_of (split_on is_newline content))

-- The three tests of `verifyConfPath`: a `Plugin` line of the symbol at the path.
abbrev pub is_plugin_line : Text → Text → List Text → Bool
is_plugin_line symbol path (a ∷ b ∷ c ∷ options) =
    bytes_eq a (codes "Plugin") && bytes_eq b symbol && bytes_eq c path
is_plugin_line symbol path f = false

unfoldable pub has_plugin_line : Text → Text → List Text → Bool
unfolding line_tokens
has_plugin_line symbol path [] = false
has_plugin_line symbol path (raw_line ∷ raw_lines) =
    let rest = has_plugin_line symbol path raw_lines in
    elim (line_tokens raw_line) [
      | some f ↦ if is_plugin_line symbol path f then true else rest
      | none ↦ rest
    ]

-- `verifyConfPath`.
unfoldable pub verify_conf : Option Text → Text → Text → Bool
unfolding split_on has_plugin_line
verify_conf none symbol path = false
verify_conf (some content) symbol path = has_plugin_line symbol path (split_on is_newline content)
