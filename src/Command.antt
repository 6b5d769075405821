-- ===== src/Command.antt =====
-- The command line of shared/escape_core/src/lib.rs: `last_path_component`, `command_tokens` and
-- `full_command_line_bytes`. A slice is a list, and an index a number.
pub mod Words
pub mod Basename
pub mod Tokens
pub mod Visible
use sudowhat.Escape.{is_hidden}
use sudowhat.Prelude.{
  ℕ, zero, suc, ◌+◌, ◌≡◌, refl, Bool, false, not, ◌&&◌, ◌||◌, none, some, List, [], ◌∷◌, map, ltb,
  ◌==◌, if◌then◌else◌, Bytes, Text, take, drop, get_elem?, rposition, bytes_eq, is_empty, length,
  push, codes,
}
use sudowhat.Quote.{quote_bytes}
use sudowhat.Utf8.{decode, as_bytes}

abbrev pub is_slash_byte : ℕ → Bool
is_slash_byte b = b == b'/'

-- `p[i] == b'/'`; the code reads within bounds only.
abbrev slash_at : Bytes → ℕ → Bool
slash_at p i = elim (get_elem? p i) [ some b ↦ b == b'/' | none ↦ false ]

-- `while end > 0 && p[end - 1] == b'/' { end -= 1 }`.
unfoldable pub trim_end : Bytes → ℕ → ℕ
trim_end p zero = zero
trim_end p (suc e) = let rest = trim_end p e in if slash_at p e then rest else suc e

-- The segment of `&p[..end]` behind its last slash.
unfoldable pub last_segment : Bytes → Bytes
unfolding rposition
last_segment trimmed = elim (rposition is_slash_byte trimmed) [
  | some idx ↦ drop (idx + 1) trimmed
  | none ↦ trimmed
]

unfoldable pub last_path_component : Bytes → Bytes
unfolding trim_end last_segment
last_path_component p =
    if is_empty p
    then []
    else (let end = trim_end p (length p) in
        if end == 0 then b'/' ∷ [] else last_segment (take end p))

-- Whether `argv[0]` repeats the path or its last component.
unfoldable pub repeats_path : Bytes → Bytes → Bool
repeats_path path a0 =
    let basename = last_path_component path in
    bytes_eq a0 path || (not (is_empty basename) && bytes_eq a0 basename)

-- `start` in `command_tokens`.
unfoldable pub argv_start : Bytes → List Bytes → ℕ
unfolding repeats_path
argv_start path [] = 0
argv_start path (a0 ∷ _) = if repeats_path path a0 then 1 else 0

unfoldable pub command_tokens : Bytes → List Bytes → List Bytes
unfolding argv_start
command_tokens path argv = path ∷ drop (argv_start path argv) argv

-- The loop over the enumerated tokens.
unfoldable pub push_tokens : ℕ → List Bytes → Text → Text
unfolding quote_bytes
push_tokens i [] out = out
push_tokens i (tok ∷ toks) out =
    push_tokens (i + 1) toks (quote_bytes tok (if ltb 0 i then push out b' ' else out))

unfoldable pub full_command_line_bytes : Bytes → List Bytes → Text → Text
unfolding command_tokens push_tokens last_path_component
full_command_line_bytes path argv out = push_tokens 0 (command_tokens path argv) out

unfoldable pub full_command_line : Text → List Text → Text → Text
unfolding full_command_line_bytes
full_command_line path argv out = full_command_line_bytes (as_bytes path) (map as_bytes argv) out

full_command :
    full_command_line (codes "/bin/echo") (codes "echo" ∷ codes "a b" ∷ []) []
    ≡ codes "/bin/echo 'a b'"
unfolding full_command_line as_bytes decode is_hidden
full_command = refl
