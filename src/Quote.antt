-- ===== src/Quote.antt =====
-- The quoting of shared/escape_core/src/lib.rs: `is_safe`, the marked parts of a rendered token
-- (`Mark`, `Part`, `Rendered`, `render_token`, `push_rendered`) and `quote_bytes`.
pub mod Shape
pub mod Shell
pub mod Words
pub mod Visible
use sudowhat.Escape.{is_hidden, Piece, char, byte, backslash, pieces, text}
use sudowhat.Prelude.{
  ℕ, ◌≡◌, refl, Bool, true, false, ◌&&◌, ◌||◌, List, [], ◌∷◌, ◌++◌, map, within, ◌==◌,
  if◌then◌else◌, Bytes, Text, push_str, codes,
}
use sudowhat.Utf8.{decode, as_bytes}

unfoldable pub is_safe : ℕ → Bool
is_safe c =
    within b'A' b'Z' c
    || within b'a' b'z' c
    || within b'0' b'9' c
    || c == b'+'
    || c == b'_'
    || c == b'.'
    || c == b'/'
    || c == b':'
    || c == b'='
    || c == b'@'
    || c == b'%'
    || c == b','
    || c == b'-'

pub data Mark : Type 0 where
  plain : Mark
  ours : Mark
  meta : Mark
  hidden : Mark

abbrev pub Part : Type 0
Part = Text × Mark

abbrev pub Rendered : Type 0
Rendered = List Part

-- The closure `ours` of `render_token`.
abbrev pub our_quote : Part
our_quote = (b'\'' ∷ [], ours)

-- `matches!(p, Piece::Char(c) if is_safe(*c))`, and `all` of it.
unfoldable pub is_safe_piece : Piece → Bool
unfolding is_safe
is_safe_piece (char c) = is_safe c
is_safe_piece _ = false

unfoldable pub all_safe : List Piece → Bool
unfolding is_safe_piece
all_safe [] = true
all_safe (p ∷ ps) = is_safe_piece p && all_safe ps

-- What one round of the loop of `render_token` pushes.
unfoldable pub render_piece : Piece → Rendered
unfolding text
render_piece (char c) =
    if c == b'\''
    then our_quote ∷ (b'\\' ∷ [], plain) ∷ (b'\'' ∷ [], meta) ∷ our_quote ∷ []
    else if c == b'"' || c == b'`'
    then (c ∷ [], meta) ∷ []
    else (text (char c), plain) ∷ []
render_piece (Piece.hidden u) = (text (Piece.hidden u), Mark.hidden) ∷ []
render_piece (byte b) = (text (byte b), plain) ∷ []
render_piece backslash = (text backslash, plain) ∷ []

unfoldable pub render_pieces : List Piece → Rendered → Rendered
unfolding render_piece
render_pieces [] r = r
render_pieces (p ∷ ps) r = render_pieces ps (r ++ render_piece p)

unfoldable pub render_token : Bytes → Rendered
unfolding pieces all_safe render_pieces text
render_token [] = our_quote ∷ our_quote ∷ []
render_token (b ∷ raw) =
    let ps = pieces (b ∷ raw) in
    if all_safe ps
    then map (λ p. (text p, plain)) ps
    else render_pieces ps (our_quote ∷ []) ++ our_quote ∷ []

unfoldable pub push_rendered : Rendered → Text → Text
push_rendered [] out = out
push_rendered ((t, _) ∷ r) out = push_rendered r (push_str out t)

unfoldable pub quote_bytes : Bytes → Text → Text
unfolding render_token push_rendered
quote_bytes input out = push_rendered (render_token input) out

unfoldable pub quote_token : Text → Text → Text
unfolding quote_bytes
quote_token input out = quote_bytes (as_bytes input) out

quote_idiom : quote_token (codes "a'b") [] ≡ codes "'a'\\''b'"
unfolding quote_token as_bytes decode is_hidden
quote_idiom = refl
