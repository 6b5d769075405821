-- ===== src/Quote/Shape.antt =====
-- The text of a rendered token, with no accumulator.
use sudowhat.Escape.Shape.{texts, text-piece_text}
use sudowhat.Escape.{Piece, pieces, text}
use sudowhat.Prelude.{
  ℕ, ◌≡◌, refl, sym, ◌∙◌, List, [], ◌∷◌, ◌++◌, map, append-nil, append_assoc, Bytes, Text,
  if◌then◌else◌, ap₂, Bool-cases, inl, inr,
}
use sudowhat.Quote.{
  Rendered, plain, our_quote, all_safe, render_piece, render_pieces, render_token, push_rendered,
  quote_bytes,
}

-- The texts of the parts, one behind another.
abbrev pub shown : Rendered → Text
shown [] = []
shown ((t, _) ∷ r) = t ++ shown r

pub shown-append : (r s : Rendered) → shown (r ++ s) ≡ shown r ++ shown s
shown-append [] s = refl
shown-append ((t, _) ∷ r) s = rw (shown-append r s) (sym (append_assoc t (shown r) (shown s)))

pub push_rendered-append : (r : Rendered) (out : Text) → push_rendered r out ≡ out ++ shown r
unfolding push_rendered
push_rendered-append [] out = sym (append-nil out)
push_rendered-append ((t, _) ∷ r) out =
    push_rendered-append r (out ++ t) ∙ append_assoc out t (shown r)

-- The parts of the pieces, with no accumulator.
abbrev pub rendered : List Piece → Rendered
rendered [] = []
rendered (p ∷ ps) = render_piece p ++ rendered ps

pub render_pieces-append : (ps : List Piece) (r : Rendered) → render_pieces ps r ≡ r ++ rendered ps
unfolding render_pieces
render_pieces-append [] r = sym (append-nil r)
render_pieces-append (p ∷ ps) r =
    render_pieces-append ps (r ++ render_piece p) ∙ append_assoc r (render_piece p) (rendered ps)

-- The text of a quoted token: its quotes, and between them the parts of its pieces.
abbrev pub quoted_text : List Piece → Text
quoted_text ps = b'\'' ∷ (shown (rendered ps) ++ b'\'' ∷ [])

pub shown-render_token :
    (b : ℕ) (s : Bytes)
    → shown (render_token (b ∷ s))
      ≡ (if all_safe (pieces (b ∷ s)) then texts (pieces (b ∷ s)) else quoted_text (pieces (b ∷ s)))
unfolding render_token
shown-render_token b s = elim (Bool-cases (all_safe (pieces (b ∷ s)))) [
  | inl e ↦ rw e (shown-map (pieces (b ∷ s)))
  | inr e ↦ rw e (rw render_pieces-append (shown-append (our_quote ∷ rendered (pieces (b ∷ s))) _))
]
  where
    shown-map : (ps : List Piece) → shown (map (λ p. (text p, plain)) ps) ≡ texts ps
    shown-map [] = refl
    shown-map (p ∷ ps) = ap₂ ◌++◌ (text-piece_text p) (shown-map ps)

pub quote_bytes-append :
    (s : Bytes) (out : Text) → quote_bytes s out ≡ out ++ shown (render_token s)
unfolding quote_bytes
quote_bytes-append s out = push_rendered-append (render_token s) out
