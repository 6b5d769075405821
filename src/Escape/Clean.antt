-- ===== src/Escape/Clean.antt =====
-- No hidden character reaches the display.
use sudowhat.Escape.Shape.{code_point_text, piece_text, texts, escape_bytes-append}
use sudowhat.Escape.{
  is_hidden, Piece, char, hidden, byte, backslash, begins_escape, piece, pieces_of, pieces,
  escape_bytes,
}
use sudowhat.Hex.{
  format_hex, format_hex-IsHexDigit, format_hex2-IsHexDigit, IsHexDigit, is_ascii_hexdigit,
}
use sudowhat.Prelude.{
  ◌==◌, ◌&&◌, Bool-cases, inl, inr, ℕ, ◌≡◌, ◌≤◌, ◌<◌, true, false, List, [], ◌∷◌, arith, All,
  All-append, All-map, Text, Bytes, IsBytes,
}
use sudowhat.Utf8.RoundTrip.{decode-IsDecoded}
use sudowhat.Utf8.{IsScalar, Decoded, ok, err, IsDecoded, decode}

-- The character is drawn as itself.
abbrev pub IsVisible : ℕ → Type 0
IsVisible c = is_hidden c ≡ false

-- The character is a scalar value that is drawn as itself.
abbrev pub IsDrawn : ℕ → Type 0
IsDrawn c = IsVisible c × IsScalar c

pub IsDrawn-IsVisible : (t : Text) → All IsDrawn t → All IsVisible t
IsDrawn-IsVisible t = All-map {P = IsDrawn} (λ c h. h.0) t

-- Every printable ASCII character is drawn as itself.
pub ascii-IsVisible : (c : ℕ) → 0x20 ≤ c → c < 0x7F → IsVisible c
unfolding is_hidden
ascii-IsVisible c lo hi = ground arith

pub ascii-IsDrawn : (c : ℕ) → 0x20 ≤ c → c < 0x7F → IsDrawn c
ascii-IsDrawn c lo hi = (ascii-IsVisible c lo hi, inl (omega arith))

IsHexDigit-bounds : (c : ℕ) → IsHexDigit c → (0x30 ≤ c) × (c < 0x67)
unfolding is_ascii_hexdigit
IsHexDigit-bounds c h = ground arith

pub IsHexDigit-IsVisible : (c : ℕ) → IsHexDigit c → IsVisible c
IsHexDigit-IsVisible c h =
    let (lo, hi) = IsHexDigit-bounds c h in ascii-IsVisible c (omega arith) (omega arith)

-- A visible character is no control character, of the ASCII ones or of those behind DEL.
pub IsVisible-ne_control : (c : ℕ) → IsVisible c → (0x20 ≤ c) × ((0x7F ≤ c) → 0xA0 < c)
unfolding is_hidden
IsVisible-ne_control c h = ground arith

-- What `pieces` makes of decoded values.
abbrev pub IsPiece : Piece → Type 0
IsPiece (char c) = IsVisible c × IsScalar c
IsPiece (hidden u) = (is_hidden u ≡ true) × IsScalar u
IsPiece (byte b) = (0x80 ≤ b) × (b < 256)
IsPiece backslash = Unit

piece-IsPiece : (d : Decoded) (rest : List Decoded) → IsDecoded d → IsPiece (piece d rest)
unfolding piece
piece-IsPiece (err b) rest h = h
piece-IsPiece (ok c) rest h = elim (Bool-cases (is_hidden c)) [
  | inl e ↦ rw e (e, h)
  | inr e ↦ rw e (elim (Bool-cases (c == b'\\' && begins_escape rest)) [
    | inl f ↦ rw f tt
    | inr f ↦ rw f (e, h)
  ])
]

pub pieces_of-IsPiece : (ds : List Decoded) → All IsDecoded ds → All IsPiece (pieces_of ds)
unfolding pieces_of
pieces_of-IsPiece [] h = tt
pieces_of-IsPiece (d ∷ ds) h = (piece-IsPiece d ds h.0, pieces_of-IsPiece ds h.1)

pub pieces-IsPiece : (s : Bytes) → IsBytes s → All IsPiece (pieces s)
unfolding pieces
pieces-IsPiece s h = pieces_of-IsPiece (decode s) (decode-IsDecoded s h)

IsHexDigit-IsDrawn : (c : ℕ) → IsHexDigit c → IsDrawn c
IsHexDigit-IsDrawn c h =
    let (lo, hi) = IsHexDigit-bounds c h in ascii-IsDrawn c (omega arith) (omega arith)

code_point_text-IsDrawn : (u : ℕ) → All IsDrawn (code_point_text u)
code_point_text-IsDrawn u = (
  ascii-IsDrawn b'\\' (omega arith) (omega arith),
  (
    ascii-IsDrawn b'u' (omega arith) (omega arith),
    (
      ascii-IsDrawn b'{' (omega arith) (omega arith),
      All-append IsDrawn (format_hex u) _ (All-map IsHexDigit-IsDrawn _ (format_hex-IsHexDigit u))
          (ascii-IsDrawn b'}' (omega arith) (omega arith), tt),
    ),
  ),
)

pub piece_text-IsDrawn : (p : Piece) → IsPiece p → All IsDrawn (piece_text p)
piece_text-IsDrawn (char c) h = (h, tt)
piece_text-IsDrawn (hidden u) h = code_point_text-IsDrawn u
piece_text-IsDrawn (byte b) h = (
  ascii-IsDrawn b'\\' (omega arith) (omega arith),
  (
    ascii-IsDrawn b'x' (omega arith) (omega arith),
    All-map IsHexDigit-IsDrawn _ (format_hex2-IsHexDigit b h.1),
  ),
)
piece_text-IsDrawn backslash h = code_point_text-IsDrawn b'\\'

texts-IsDrawn : (ps : List Piece) → All IsPiece ps → All IsDrawn (texts ps)
texts-IsDrawn [] h = tt
texts-IsDrawn (p ∷ ps) h =
    All-append IsDrawn (piece_text p) _ (piece_text-IsDrawn p h.0) (texts-IsDrawn ps h.1)

-- Escaping appends characters that are drawn as themselves, and no surrogate.
pub escape_bytes-IsDrawn :
    (s : Bytes) (out : Text) → IsBytes s → All IsDrawn out → All IsDrawn (escape_bytes s out)
escape_bytes-IsDrawn s out h clean =
    rw escape_bytes-append
      (All-append IsDrawn out _ clean (texts-IsDrawn (pieces s) (pieces-IsPiece s h)))

-- Whatever the bytes are, escaping them appends visible characters only: no character of the
-- hidden list, so no control character, line feed or ESC, gets into a text that had none.
pub escape_bytes-IsVisible :
    (s : Bytes) (out : Text) → IsBytes s → All IsVisible out → All IsVisible (escape_bytes s out)
escape_bytes-IsVisible s out h clean = rw escape_bytes-append (
    All-append IsVisible out _ clean
      (IsDrawn-IsVisible _ (texts-IsDrawn (pieces s) (pieces-IsPiece s h))))
