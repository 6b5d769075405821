-- ===== src/Utf8.antt =====
-- The part of Rust's `core::str` on which shared/escape_core/src/lib.rs stands: `utf8_chunks`,
-- `chars` and `as_bytes`, after their documentation. The valid characters of the chunks and the
-- invalid bytes, in the order in which `pieces` collects them, are one list.
pub mod RoundTrip
use sudowhat.Prelude.{
  ℕ, zero, suc, ◌+◌, ◌-◌, ◌*◌, ◌/◌, ◌%◌, ◌≤◌, ◌<◌, ◌≡◌, refl, ◌⊎◌, Bool, true, false, ◌&&◌, List,
  [], ◌∷◌, ◌++◌, ltb, within, ◌==◌, if◌then◌else◌, Bytes, Text,
}

-- `Result<char, u8>`: a character of a valid sequence, or a byte that is not part of one.
pub data Decoded : Type 0 where
  ok : ℕ → Decoded
  err : ℕ → Decoded

-- A continuation byte.
abbrev is_continuation : ℕ → Bool
is_continuation b = within 0x80 0xBF b

-- The second byte of a sequence of three or four: no overlong form, no surrogate, no code point
-- above U+10FFFF.
second_fits : ℕ → ℕ → Bool
second_fits a b =
    if a == 0xE0
    then within 0xA0 0xBF b
    else if a == 0xED
    then within 0x80 0x9F b
    else if a == 0xF0
    then within 0x90 0xBF b
    else if a == 0xF4
    then within 0x80 0x8F b
    else is_continuation b

-- What stands at a byte and the bytes behind it, and how many of those it takes.
scan_two : ℕ → Bytes → Decoded × ℕ
scan_two a (b ∷ _) =
    if is_continuation b then (ok ((a - 0xC0) * 64 + (b - 0x80)), 1) else (err a, 0)
scan_two a [] = (err a, 0)

scan_three : ℕ → Bytes → Decoded × ℕ
scan_three a (b ∷ c ∷ _) =
    if second_fits a b && is_continuation c
    then (ok ((a - 0xE0) * 4096 + (b - 0x80) * 64 + (c - 0x80)), 2)
    else (err a, 0)
scan_three a _ = (err a, 0)

scan_four : ℕ → Bytes → Decoded × ℕ
scan_four a (b ∷ c ∷ d ∷ _) =
    if second_fits a b && is_continuation c && is_continuation d
    then (ok ((a - 0xF0) * 262144 + (b - 0x80) * 4096 + (c - 0x80) * 64 + (d - 0x80)), 3)
    else (err a, 0)
scan_four a _ = (err a, 0)

scan : ℕ → Bytes → Decoded × ℕ
scan a s =
    if ltb a 0x80
    then (ok a, 0)
    else if within 0xC2 0xDF a
    then scan_two a s
    else if within 0xE0 0xEF a
    then scan_three a s
    else if within 0xF0 0xF4 a
    then scan_four a s
    else (err a, 0)

-- The count is of the bytes that a sequence already took.
decode_from : ℕ → Bytes → List Decoded
decode_from n [] = []
decode_from zero (a ∷ s) = (scan a s).0 ∷ decode_from (scan a s).1 s
decode_from (suc n) (a ∷ s) = decode_from n s

unfoldable pub decode : Bytes → List Decoded
unfolding decode_from scan scan_two scan_three scan_four second_fits
decode s = decode_from 0 s

-- `char::encode_utf8`.
unfoldable pub encode_char : ℕ → Bytes
encode_char c =
    if ltb c 0x80
    then c ∷ []
    else if ltb c 0x800
    then (0xC0 + c / 64) ∷ (0x80 + c % 64) ∷ []
    else if ltb c 0x10000
    then (0xE0 + c / 4096) ∷ (0x80 + c / 64 % 64) ∷ (0x80 + c % 64) ∷ []
    else (0xF0 + c / 262144) ∷ (0x80 + c / 4096 % 64) ∷ (0x80 + c / 64 % 64) ∷ (0x80 + c % 64) ∷ []

-- `str::as_bytes`.
unfoldable pub as_bytes : Text → Bytes
unfolding encode_char
as_bytes [] = []
as_bytes (c ∷ t) = encode_char c ++ as_bytes t

-- A `char`: a code point that is no surrogate.
abbrev pub IsScalar : ℕ → Type 0
IsScalar c = (c < 0xD800) ⊎ ((0xE000 ≤ c) × (c < 0x110000))

-- The bytes that a decoded value stands for.
unfoldable pub source_bytes : List Decoded → Bytes
unfolding encode_char
source_bytes [] = []
source_bytes (ok c ∷ ds) = encode_char c ++ source_bytes ds
source_bytes (err b ∷ ds) = b ∷ source_bytes ds

abbrev pub IsDecoded : Decoded → Type 0
IsDecoded (ok c) = IsScalar c
IsDecoded (err b) = (0x80 ≤ b) × (b < 256)

decode_mixed :
    decode (0xC3 ∷ 0xA9 ∷ 0xFF ∷ 0xE2 ∷ 0x82 ∷ 0x41 ∷ [])
    ≡ ok 0xE9 ∷ err 0xFF ∷ err 0xE2 ∷ err 0x82 ∷ ok 0x41 ∷ []
unfolding decode
decode_mixed = refl
