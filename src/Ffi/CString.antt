-- ===== src/Ffi/CString.antt =====
-- C strings, and the texts whose bytes are one.

use sudowhat.Prelude.{
  [], ◌∷◌, ◌≡◌, true, false, refl, Bytes, Text, ℕ, if◌then◌else◌, All, ◌==◌, ◌++◌, All-append, ◌<◌,
  ◌+◌, arith, ap, ltb, Bool, ◌/◌, ◌%◌, All-map,
}
use sudowhat.Utf8.{as_bytes, encode_char}
use sudowhat.Escape.Clean.{IsVisible, IsVisible-ne_control}
use sudowhat.Color.NoNul.{IsNonzero}

-- The bytes of a C string, up to its NUL.
unfoldable pub c_string : Bytes → Bytes
c_string [] = []
c_string (b ∷ memory) = let rest = c_string memory in if b == 0 then [] else b ∷ rest

pub c_string-append : (s memory : Bytes) → All IsNonzero s → c_string (s ++ 0 ∷ memory) ≡ s
unfolding c_string
c_string-append [] memory h = refl
c_string-append (b ∷ s) memory h = rw nonzero (ap (λ r. b ∷ r) (c_string-append s memory h.1))
  where
    nonzero : (b == 0) ≡ false
    nonzero = ground (arith, h.0)

encode_char-IsNonzero : (c : ℕ) → 0 < c → All IsNonzero (encode_char c)
unfolding encode_char
encode_char-IsNonzero c h = sized (ltb c 0x80) (ltb c 0x800) (ltb c 0x10000)
  where
    sized :
        (one two three : Bool)
        → All IsNonzero (
            if one
            then c ∷ []
            else if two
            then (0xC0 + c / 64) ∷ (0x80 + c % 64) ∷ []
            else if three
            then (0xE0 + c / 4096) ∷ (0x80 + c / 64 % 64) ∷ (0x80 + c % 64) ∷ []
            else (0xF0 + c / 262144)
              ∷ (0x80 + c / 4096 % 64)
              ∷ (0x80 + c / 64 % 64)
              ∷ (0x80 + c % 64)
              ∷ [])
    sized true two three = (omega (arith, h), tt)
    sized false true three = (omega arith, (omega arith, tt))
    sized false false true = (omega arith, (omega arith, (omega arith, tt)))
    sized false false false = (omega arith, (omega arith, (omega arith, (omega arith, tt))))

pub as_bytes-IsNonzero : (t : Text) → All IsNonzero t → All IsNonzero (as_bytes t)
unfolding as_bytes
as_bytes-IsNonzero [] h = tt
as_bytes-IsNonzero (c ∷ t) h =
    All-append IsNonzero (encode_char c) (as_bytes t) (encode_char-IsNonzero c h.0)
      (as_bytes-IsNonzero t h.1)

pub IsVisible-IsNonzero : (t : Text) → All IsVisible t → All IsNonzero t
IsVisible-IsNonzero t =
    All-map {P = IsVisible} (λ c h. omega (arith, (IsVisible-ne_control c h).0)) t
