-- ===== src/Command/Visible.antt =====
-- The command line holds visible characters only.
use sudowhat.Quote.Shape.{quote_bytes-append, shown}
use sudowhat.Quote.{quote_bytes, render_token, Rendered}
use sudowhat.Prelude.{[], ◌∷◌, Bytes, Text, IsBytes, List, All, arith, All-append, drop, All-drop}
use sudowhat.Command.{argv_start, full_command_line_bytes, command_tokens}
use sudowhat.Command.Words.{line_text, spaced, push_tokens-line_text}
use sudowhat.Quote.Visible.{IsDrawnPart, render_token-IsDrawnPart}
use sudowhat.Escape.Clean.{IsVisible, IsDrawn, IsDrawn-IsVisible, ascii-IsDrawn}

shown-IsDrawn : (r : Rendered) → All IsDrawnPart r → All IsDrawn (shown r)
shown-IsDrawn [] h = tt
shown-IsDrawn ((t, _) ∷ r) h = All-append IsDrawn t (shown r) h.0 (shown-IsDrawn r h.1)

token-IsDrawn : (s : Bytes) → IsBytes s → All IsDrawn (shown (render_token s))
token-IsDrawn s h = shown-IsDrawn (render_token s) (render_token-IsDrawnPart s h)

spaced-IsDrawn : (ts : List Bytes) → All IsBytes ts → All IsDrawn (spaced ts)
spaced-IsDrawn [] h = tt
spaced-IsDrawn (t ∷ ts) h = (
  ascii-IsDrawn b' ' (omega arith) (omega arith),
  All-append IsDrawn _ _ (token-IsDrawn t h.0) (spaced-IsDrawn ts h.1),
)

line_text-IsDrawn :
    (path : Bytes) (argv : List Bytes)
    → IsBytes path
    → All IsBytes argv
    → All IsDrawn (line_text path (drop (argv_start path argv) argv))
line_text-IsDrawn path argv hp ha =
    All-append IsDrawn _ _ (token-IsDrawn path hp)
      (spaced-IsDrawn _ (All-drop IsBytes (argv_start path argv) argv ha))

-- The command line holds scalar values that are drawn as themselves.
pub full_command_line_bytes-IsDrawn :
    (path : Bytes) (argv : List Bytes)
    → IsBytes path
    → All IsBytes argv
    → All IsDrawn (full_command_line_bytes path argv [])
unfolding full_command_line_bytes command_tokens
full_command_line_bytes-IsDrawn path argv hp ha =
    rw push_tokens-line_text (line_text-IsDrawn path argv hp ha)

-- Whatever the path and argv are, the command line holds no hidden character.
pub full_command_line_bytes-IsVisible :
    (path : Bytes) (argv : List Bytes) (out : Text)
    → IsBytes path
    → All IsBytes argv
    → All IsVisible out
    → All IsVisible (full_command_line_bytes path argv out)
unfolding full_command_line_bytes command_tokens
full_command_line_bytes-IsVisible path argv out hp ha ho =
    rw push_tokens-line_text
      (All-append IsVisible out _ ho (IsDrawn-IsVisible _ (line_text-IsDrawn path argv hp ha)))

pub quote_bytes-IsVisible : (s : Bytes) → IsBytes s → All IsVisible (quote_bytes s [])
quote_bytes-IsVisible s h = rw quote_bytes-append (IsDrawn-IsVisible _ (token-IsDrawn s h))
