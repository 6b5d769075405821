-- ===== src/Escape/RoundTrip.antt =====
-- The escapes of shared/escape_core/src/lib.rs and the reader, together.

use sudowhat.Utf8.RoundTrip.{source_bytes-decode, decode-IsDecoded}
use sudowhat.Escape.Opens.{is_backslash, opens, opens-texts}
use sudowhat.Escape.{escape_bytes, pieces, is_hidden, begins_escape, piece, pieces_of}
use sudowhat.Escape.Reader.{read, plain, after_backslash, after_x, in_braces, read_from}
use sudowhat.Escape.Shape.{escape_bytes-append, piece_text, texts, code_point_text, byte_text}
use sudowhat.Hex.{
  digit_value, format_hex2_pair, format_hex, format_hex-IsHexDigit, format_hex2-IsHexDigit,
  hex_value-format_hex, hex_value-format_hex2, IsHexDigit, is_ascii_hexdigit, hex_value,
}
use sudowhat.Prelude.{
  ◌==◌, ◌&&◌, ◌∙◌, ap, append_assoc, ℕ, ◌≡◌, refl, ◌<◌, ◌^◌, false, [], ◌∷◌, ◌++◌, arith, All, Text,
  List, ◌*◌, ◌+◌, Bool-cases, inl, inr, Bytes, IsBytes,
}
use sudowhat.Utf8.{decode, source_bytes, IsDecoded, Decoded, ok, err}

IsHexDigit-ne_brace : (c : ℕ) → IsHexDigit c → (c == b'}') ≡ false
unfolding is_ascii_hexdigit
IsHexDigit-ne_brace c h = ground arith

-- Digits up to the closing brace.
read_from-in_braces :
    (t rest : Text) (n : ℕ)
    → All IsHexDigit t
    → read_from (t ++ b'}' ∷ rest) (in_braces n) ≡ ok (hex_value n t) ∷ read_from rest plain
unfolding read_from
read_from-in_braces [] rest n h = refl
read_from-in_braces (c ∷ t) rest n h =
    ground
      (arith, IsHexDigit-ne_brace c h.0, read_from-in_braces t rest (n * 16 + digit_value c) h.1)

read_from-code_point_text :
    (u : ℕ) (rest : Text)
    → u < 2 ^ 32
    → read_from (code_point_text u ++ rest) plain ≡ ok u ∷ read_from rest plain
unfolding read_from
read_from-code_point_text u rest h = rw append_assoc (
    read_from-in_braces (format_hex u) rest 0 (format_hex-IsHexDigit u)
    ∙ ap (λ n. ok n ∷ read_from rest plain) (hex_value-format_hex u h))

read_from-digits :
    (h l : ℕ) (rest : Text)
    → IsHexDigit h
    → read_from (h ∷ l ∷ rest) after_x ≡ err (hex_value 0 (h ∷ l ∷ [])) ∷ read_from rest plain
unfolding read_from
read_from-digits h l rest d = ground arith

read_from-byte_text :
    (b : ℕ) (rest : Text)
    → b < 256
    → read_from (byte_text b ++ rest) plain ≡ err b ∷ read_from rest plain
unfolding read_from
read_from-byte_text b rest h =
    let (d, l, e) = format_hex2_pair b in
    let digits = rw e at (format_hex2-IsHexDigit b h) in
    let value = rw e at (hex_value-format_hex2 b h) in
    rw e (read_from-digits d l rest digits.0 ∙ ap (λ n. err n ∷ read_from rest plain) value)

read_from-backslash :
    (t : Text) → opens t ≡ false → read_from t after_backslash ≡ ok b'\\' ∷ read_from t plain
unfolding read_from
read_from-backslash [] h = refl
read_from-backslash (a ∷ []) h = ground arith
read_from-backslash (a ∷ c ∷ t) h = ground arith

read_from-char :
    (c : ℕ) (ds : List Decoded)
    → (c == b'\\' && begins_escape ds) ≡ false
    → read_from (c ∷ texts (pieces_of ds)) plain ≡ ok c ∷ read_from (texts (pieces_of ds)) plain
unfolding read_from
read_from-char c ds h = ground (arith, opens-texts ds, read_from-backslash (texts (pieces_of ds)))

-- One piece is read as the value that it was made of.
read_from-piece :
    (d : Decoded) (ds : List Decoded)
    → IsDecoded d
    → read_from (piece_text (piece d ds) ++ texts (pieces_of ds)) plain
      ≡ d ∷ read_from (texts (pieces_of ds)) plain
unfolding piece
read_from-piece (err b) ds h = read_from-byte_text b _ h.1
read_from-piece (ok c) ds h = elim (Bool-cases (is_hidden c)) [
  | inl e ↦ rw e (read_from-code_point_text c _ (omega arith))
  | inr e ↦ rw e (elim (Bool-cases (c == b'\\' && begins_escape ds)) [
    | inl f ↦
        rw (f, is_backslash c (begins_escape ds) f)
          (read_from-code_point_text b'\\' _ (omega arith))
    | inr f ↦ rw f (read_from-char c ds f)
  ])
]

-- The reader meets one decoded value for each that was written.
read_from-texts :
    (ds : List Decoded) → All IsDecoded ds → read_from (texts (pieces_of ds)) plain ≡ ds
unfolding pieces_of read_from
read_from-texts [] h = refl
read_from-texts (d ∷ ds) h = read_from-piece d ds h.0 ∙ ap (λ r. d ∷ r) (read_from-texts ds h.1)

-- Reading what is shown for some bytes gives the bytes back.
pub source_bytes-read-escape_bytes :
    (s : Bytes) → IsBytes s → source_bytes (read (escape_bytes s [])) ≡ s
unfolding read pieces
source_bytes-read-escape_bytes s h =
    rw (escape_bytes-append, read_from-texts (decode s) (decode-IsDecoded s h))
      (source_bytes-decode s h)
