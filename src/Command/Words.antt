-- ===== src/Command/Words.antt =====
-- A shell reads the command line as its tokens, and a reader of the words gets their bytes back.
use mathlib.Core.Option
use sudowhat.Command.{argv_start, command_tokens, push_tokens, full_command_line_bytes}
use sudowhat.Escape.Reader.{read}
use sudowhat.Escape.RoundTrip.{source_bytes-read-escape_bytes}
use sudowhat.Escape.{escape_bytes}
use sudowhat.Prelude.{
  list_laws, ℕ, ◌≡◌, refl, sym, ap, ap₂, ◌∙◌, List, [], ◌∷◌, ◌++◌, map, append-nil, append_assoc,
  Bytes, Text, arith, All, IsBytes, Option, some, ◌<◌, All-drop, ◌+◌, lt→ltb,
}
use sudowhat.Quote.Shape.{shown, quote_bytes-append}
use sudowhat.Quote.Shell.{word, shell_from, shell_words}
use sudowhat.Quote.Words.{shell_from-render_token}
use sudowhat.Quote.{render_token}
use sudowhat.Utf8.{source_bytes}

-- The tokens behind the first one, each behind a space.
abbrev pub spaced : List Bytes → Text
spaced [] = []
spaced (t ∷ ts) = b' ' ∷ (shown (render_token t) ++ spaced ts)

abbrev pub line_text : Bytes → List Bytes → Text
line_text t ts = shown (render_token t) ++ spaced ts

push_tokens-spaced :
    (i : ℕ) (ts : List Bytes) (out : Text) → 0 < i → push_tokens i ts out ≡ out ++ spaced ts
unfolding push_tokens
push_tokens-spaced i [] out h = sym (append-nil out)
push_tokens-spaced i (t ∷ ts) out h =
    rw (push_tokens-spaced (i + 1) ts _ (omega arith), quote_bytes-append, lt→ltb 0 i h)
      (simp list_laws)

pub push_tokens-line_text :
    (t : Bytes) (ts : List Bytes) (out : Text) → push_tokens 0 (t ∷ ts) out ≡ out ++ line_text t ts
unfolding push_tokens
push_tokens-line_text t ts out =
    rw (push_tokens-spaced 1 ts _ (omega arith), quote_bytes-append) (append_assoc out _ _)

-- The text that is shown for a token, with no quotes.
abbrev pub escaped : Bytes → Text
escaped s = escape_bytes s []

shell_from-spaced :
    (ts : List Bytes) (cur : Text)
    → All IsBytes ts
    → shell_from (spaced ts) (word cur) ≡ some (cur ∷ map escaped ts)
unfolding shell_from
shell_from-spaced [] cur h = refl
shell_from-spaced (t ∷ ts) cur h =
    rw (shell_from-render_token t (spaced ts) h.0, shell_from-spaced ts (escaped t) h.1)

pub shell_words-line_text :
    (t : Bytes) (ts : List Bytes)
    → All IsBytes (t ∷ ts)
    → shell_words (line_text t ts) ≡ some (map escaped (t ∷ ts))
unfolding shell_words
shell_words-line_text t ts h =
    shell_from-render_token t (spaced ts) h.0 ∙ shell_from-spaced ts (escaped t) h.1

pub command_tokens-IsBytes :
    (path : Bytes) (argv : List Bytes)
    → IsBytes path
    → All IsBytes argv
    → All IsBytes (command_tokens path argv)
unfolding command_tokens
command_tokens-IsBytes path argv hp ha = (hp, All-drop IsBytes (argv_start path argv) argv ha)

-- A shell splits the command line into one word for each token, each word the escaped text of
-- its token: no token runs into another, and none falls apart.
pub shell_words-full_command_line_bytes :
    (path : Bytes) (argv : List Bytes)
    → IsBytes path
    → All IsBytes argv
    → shell_words (full_command_line_bytes path argv [])
      ≡ some (map escaped (command_tokens path argv))
unfolding full_command_line_bytes command_tokens
shell_words-full_command_line_bytes path argv hp ha =
    rw push_tokens-line_text (shell_words-line_text path _ (command_tokens-IsBytes path argv hp ha))

-- The tokens of a command line: its words, each read back to the bytes that it shows.
unfoldable pub read_tokens : Text → Option (List Bytes)
read_tokens t = Option.map (map (λ w. source_bytes (read w))) (shell_words t)

map-read :
    (ts : List Bytes) → All IsBytes ts → map (λ w. source_bytes (read w)) (map escaped ts) ≡ ts
map-read [] h = refl
map-read (t ∷ ts) h = ap₂ ◌∷◌ (source_bytes-read-escape_bytes t h.0) (map-read ts h.1)

-- The command line determines its tokens, byte for byte: two commands that are shown alike have
-- the same tokens.
pub read_tokens-full_command_line_bytes :
    (path : Bytes) (argv : List Bytes)
    → IsBytes path
    → All IsBytes argv
    → read_tokens (full_command_line_bytes path argv []) ≡ some (command_tokens path argv)
unfolding read_tokens
read_tokens-full_command_line_bytes path argv hp ha =
    rw (shell_words-full_command_line_bytes path argv hp ha)
      (ap some (map-read _ (command_tokens-IsBytes path argv hp ha)))
