-- ===== src/Quote/Visible.antt =====
-- The parts of a rendered token hold visible characters only.
use sudowhat.Escape.Clean.{
  IsVisible, IsPiece, pieces-IsPiece, IsDrawn, IsDrawn-IsVisible, piece_text-IsDrawn, ascii-IsDrawn,
}
use sudowhat.Escape.Shape.{text-piece_text}
use sudowhat.Escape.{Piece, char, byte, backslash, pieces, text}
use sudowhat.Prelude.{
  List, [], ◌∷◌, map, Bytes, arith, All, All-append, IsBytes, Bool-cases, inl, inr, ◌==◌, ◌||◌,
  All-map,
}
use sudowhat.Quote.Shape.{rendered, render_pieces-append}
use sudowhat.Quote.{Part, our_quote, plain, all_safe, render_piece, render_token}

abbrev pub IsDrawnPart : Part → Type 0
IsDrawnPart p = All IsDrawn p.0

abbrev pub IsVisiblePart : Part → Type 0
IsVisiblePart p = All IsVisible p.0

quote-IsDrawn : IsDrawn b'\''
quote-IsDrawn = ascii-IsDrawn b'\'' (omega arith) (omega arith)

backslash-IsDrawn : IsDrawn b'\\'
backslash-IsDrawn = ascii-IsDrawn b'\\' (omega arith) (omega arith)

our_quote-IsDrawnPart : IsDrawnPart our_quote
our_quote-IsDrawnPart = (quote-IsDrawn, tt)

text-IsDrawn : (p : Piece) → IsPiece p → All IsDrawn (text p)
text-IsDrawn p h = rw (text-piece_text p) (piece_text-IsDrawn p h)

render_piece-IsDrawnPart : (p : Piece) → IsPiece p → All IsDrawnPart (render_piece p)
unfolding render_piece
render_piece-IsDrawnPart (char c) h = elim (Bool-cases (c == b'\'')) [
  | inl e ↦ rw e (
    our_quote-IsDrawnPart,
    ((backslash-IsDrawn, tt), (our_quote-IsDrawnPart, (our_quote-IsDrawnPart, tt))),
  )
  | inr e ↦ rw e (elim (Bool-cases (c == b'"' || c == b'`')) [
    | inl f ↦ rw f ((h, tt), tt)
    | inr f ↦ rw f (text-IsDrawn (char c) h, tt)
  ])
]
render_piece-IsDrawnPart (Piece.hidden u) h = (text-IsDrawn (Piece.hidden u) h, tt)
render_piece-IsDrawnPart (byte b) h = (text-IsDrawn (byte b) h, tt)
render_piece-IsDrawnPart backslash h = (text-IsDrawn backslash h, tt)

rendered-IsDrawnPart : (ps : List Piece) → All IsPiece ps → All IsDrawnPart (rendered ps)
rendered-IsDrawnPart [] h = tt
rendered-IsDrawnPart (p ∷ ps) h =
    All-append IsDrawnPart (render_piece p) _ (render_piece-IsDrawnPart p h.0)
      (rendered-IsDrawnPart ps h.1)

map-IsDrawnPart :
    (ps : List Piece) → All IsPiece ps → All IsDrawnPart (map (λ p. (text p, plain)) ps)
map-IsDrawnPart [] h = tt
map-IsDrawnPart (p ∷ ps) h = (text-IsDrawn p h.0, map-IsDrawnPart ps h.1)

-- A rendered token, part by part.
pub render_token-IsDrawnPart : (s : Bytes) → IsBytes s → All IsDrawnPart (render_token s)
unfolding render_token
render_token-IsDrawnPart [] h = (our_quote-IsDrawnPart, (our_quote-IsDrawnPart, tt))
render_token-IsDrawnPart (b ∷ s) h = elim (Bool-cases (all_safe (pieces (b ∷ s)))) [
  | inl e ↦ rw e (map-IsDrawnPart _ (pieces-IsPiece (b ∷ s) h))
  | inr e ↦ rw e (
      rw render_pieces-append (
        our_quote-IsDrawnPart,
        All-append IsDrawnPart (rendered (pieces (b ∷ s))) _
            (rendered-IsDrawnPart _ (pieces-IsPiece (b ∷ s) h)) (our_quote-IsDrawnPart, tt),
      ))
]

-- No part of a rendered token holds a hidden character, whatever bytes the token has.
pub render_token-IsVisiblePart : (s : Bytes) → IsBytes s → All IsVisiblePart (render_token s)
render_token-IsVisiblePart s h =
    All-map {P = IsDrawnPart} (λ p d. IsDrawn-IsVisible p.0 d) (render_token s)
      (render_token-IsDrawnPart s h)
