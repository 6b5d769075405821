-- ===== src/Escape.antt =====
-- The escaping of shared/escape_core/src/lib.rs: `is_hidden`, `Piece`, `pieces` and `escape_bytes`.
-- `&mut String` is passed and returned as the text so far.
pub mod Shape
pub mod Clean
pub mod Reader
mod Opens
pub mod RoundTrip
use sudowhat.Hex.{format_hex, format_hex2, is_ascii_hexdigit}
use sudowhat.Prelude.{
  ℕ, Bool, true, false, ◌&&◌, ◌||◌, List, [], ◌∷◌, within, ◌==◌, if◌then◌else◌, Bytes, Text, push,
  push_str,
}
use sudowhat.Utf8.{Decoded, ok, err, decode, as_bytes}

unfoldable pub is_hidden : ℕ → Bool
is_hidden u =
    within 0x0000 0x001F u
    || within 0x007F 0x009F u
    || u == 0x00A0
    || u == 0x00AD
    || u == 0x034F
    || u == 0x061C
    || within 0x115F 0x1160 u
    || within 0x17B4 0x17B5 u
    || within 0x180B 0x180E u
    || within 0x2000 0x200F u
    || within 0x2028 0x202F u
    || within 0x205F 0x206F u
    || u == 0x3000
    || u == 0x3164
    || within 0xFE00 0xFE0F u
    || u == 0xFEFF
    || u == 0xFFA0
    || within 0xFFF9 0xFFFB u
    || within 0xE0000 0xE007F u
    || within 0xE0100 0xE01EF u

pub data Piece : Type 0 where
  char : ℕ → Piece
  hidden : ℕ → Piece
  byte : ℕ → Piece
  backslash : Piece

unfoldable pub push_code_point : Text → ℕ → Text
push_code_point out u =
    let opened = push (push (push out b'\\') b'u') b'{' in
    push (push_str opened (format_hex u)) b'}'

unfoldable pub push_byte : Text → ℕ → Text
push_byte out b = push_str out (b'\\' ∷ b'x' ∷ format_hex2 b)

unfoldable pub push_text : Piece → Text → Text
unfolding push_code_point push_byte
push_text (char c) out = push out c
push_text (hidden u) out = push_code_point out u
push_text (byte b) out = push_byte out b
push_text backslash out = push_code_point out b'\\'

unfoldable pub text : Piece → Text
unfolding push_text
text p = push_text p []

unfoldable pub begins_escape : List Decoded → Bool
begins_escape (ok a ∷ ok h ∷ _) =
    if a == b'u' && h == b'{' then true else if a == b'x' then is_ascii_hexdigit h else false
begins_escape _ = false

-- The `match` on one decoded value and the values behind it.
unfoldable pub piece : Decoded → List Decoded → Piece
piece (err b) rest = Piece.byte b
piece (ok c) rest =
    if is_hidden c
    then Piece.hidden c
    else if c == b'\\' && begins_escape rest
    then backslash
    else Piece.char c

-- The loop over the decoded values.
unfoldable pub pieces_of : List Decoded → List Piece
unfolding piece
pieces_of [] = []
pieces_of (d ∷ ds) = piece d ds ∷ pieces_of ds

unfoldable pub pieces : Bytes → List Piece
unfolding pieces_of
pieces bytes = pieces_of (decode bytes)

-- The loop of `escape_bytes`.
unfoldable pub push_pieces : List Piece → Text → Text
unfolding push_text
push_pieces [] out = out
push_pieces (p ∷ ps) out = push_pieces ps (push_text p out)

unfoldable pub escape_bytes : Bytes → Text → Text
unfolding pieces push_pieces
escape_bytes input out = push_pieces (pieces input) out

unfoldable pub escape_control : Text → Text → Text
unfolding escape_bytes
escape_control input out = escape_bytes (as_bytes input) out
