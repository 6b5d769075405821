-- ===== src/Escape/Shape.antt =====
-- What the functions of Escape append, with no accumulator.
use sudowhat.Escape.{
  Piece, char, hidden, byte, backslash, push_code_point, push_text, text, pieces, push_pieces,
  escape_bytes,
}
use sudowhat.Hex.{format_hex, format_hex2}
use sudowhat.Prelude.{
  list_laws, ℕ, ◌≡◌, refl, sym, ◌∙◌, ap, List, [], ◌∷◌, ◌++◌, append-nil, append_assoc, Text, Bytes,
}

-- The escape of a code point, and of a byte.
abbrev pub code_point_text : ℕ → Text
code_point_text u = b'\\' ∷ b'u' ∷ b'{' ∷ (format_hex u ++ b'}' ∷ [])

abbrev pub byte_text : ℕ → Text
byte_text b = b'\\' ∷ b'x' ∷ format_hex2 b

abbrev pub piece_text : Piece → Text
piece_text (char c) = c ∷ []
piece_text (hidden u) = code_point_text u
piece_text (byte b) = byte_text b
piece_text backslash = code_point_text b'\\'

-- What is drawn for a list of pieces.
abbrev pub texts : List Piece → Text
texts [] = []
texts (p ∷ ps) = piece_text p ++ texts ps

push_code_point-append : (out : Text) (u : ℕ) → push_code_point out u ≡ out ++ code_point_text u
unfolding push_code_point
push_code_point-append out u = simp list_laws

pub push_text-append : (p : Piece) (out : Text) → push_text p out ≡ out ++ piece_text p
unfolding push_text
push_text-append (char c) out = refl
push_text-append (hidden u) out = push_code_point-append out u
push_text-append (byte b) out = refl
push_text-append backslash out = push_code_point-append out b'\\'

pub text-piece_text : (p : Piece) → text p ≡ piece_text p
unfolding text
text-piece_text p = push_text-append p []

pub push_pieces-append : (ps : List Piece) (out : Text) → push_pieces ps out ≡ out ++ texts ps
unfolding push_pieces
push_pieces-append [] out = sym (append-nil out)
push_pieces-append (p ∷ ps) out =
    push_pieces-append ps _
    ∙ ap (λ t. t ++ texts ps) (push_text-append p out)
    ∙ append_assoc out _ _

-- Escaping appends the texts of the pieces.
pub escape_bytes-append : (s : Bytes) (out : Text) → escape_bytes s out ≡ out ++ texts (pieces s)
unfolding escape_bytes
escape_bytes-append s out = push_pieces-append (pieces s) out
