-- ===== src/Hex.antt =====
-- The hexadecimal formats of Rust's `core::fmt` that shared/escape_core/src/lib.rs uses: `{u:X}`
-- in `push_code_point` and `{b:02X}` in `push_byte`.

use native.Mathlib.Nat.{pow-suc}
use sudowhat.Prelude.{
  ℕ, zero, suc, ◌+◌, ◌-◌, ◌*◌, ◌/◌, ◌%◌, ◌^◌, ◌<◌, ◌≡◌, refl, Bool, true, ◌||◌, [], ◌∷◌, arith, ltb,
  within, if◌then◌else◌, Text, All, codes,
}

hex_digit : ℕ → ℕ
hex_digit d = if ltb d 10 then b'0' + d else b'A' + (d - 10)

-- Digits from the last to the first, until the rest is zero.
hex_loop : ℕ → ℕ → Text → Text
hex_loop zero n out = out
hex_loop (suc f) n out =
    let out' = hex_digit (n % 16) ∷ out in
    let rest = hex_loop f (n / 16) out' in if ltb n 16 then out' else rest

-- `{u:X}` for a `u32`: at most eight digits.
unfoldable pub format_hex : ℕ → Text
unfolding hex_loop hex_digit
format_hex n = hex_loop 8 n []

-- `{b:02X}` for a `u8`.
unfoldable pub format_hex2 : ℕ → Text
unfolding hex_digit
format_hex2 b = hex_digit (b / 16) ∷ hex_digit (b % 16) ∷ []

-- `char::is_ascii_hexdigit`.
unfoldable pub is_ascii_hexdigit : ℕ → Bool
is_ascii_hexdigit c = within b'0' b'9' c || within b'A' b'F' c || within b'a' b'f' c

-- The value of an uppercase digit, and of digits read behind a number.
abbrev pub digit_value : ℕ → ℕ
digit_value c = if ltb c b'A' then c - b'0' else c - b'A' + 10

abbrev pub hex_value : ℕ → Text → ℕ
hex_value n [] = n
hex_value n (c ∷ t) = hex_value (n * 16 + digit_value c) t

abbrev pub IsHexDigit : ℕ → Type 0
IsHexDigit c = is_ascii_hexdigit c ≡ true

digit_value-hex_digit : (d : ℕ) → d < 16 → digit_value (hex_digit d) ≡ d
unfolding hex_digit
digit_value-hex_digit d h = ground arith

hex_digit-IsHexDigit : (d : ℕ) → d < 16 → IsHexDigit (hex_digit d)
unfolding hex_digit is_ascii_hexdigit
hex_digit-IsHexDigit d h = ground arith

hex_value-hex_loop :
    (f n : ℕ) (out : Text) → n < 16 ^ f → hex_value 0 (hex_loop f n out) ≡ hex_value n out
unfolding hex_loop
hex_value-hex_loop zero n out h = let e : n ≡ 0 = omega arith in rw e
hex_value-hex_loop (suc f) n out h = ground (
  arith,
  digit_value-hex_digit (n % 16),
  pow-suc 16 f,
  hex_value-hex_loop f (n / 16) (hex_digit (n % 16) ∷ out),
)

hex_loop-IsHexDigit :
    (f n : ℕ) (out : Text) → All IsHexDigit out → All IsHexDigit (hex_loop f n out)
unfolding hex_loop
hex_loop-IsHexDigit zero n out h = h
hex_loop-IsHexDigit (suc f) n out h = ground (
  arith,
  hex_digit-IsHexDigit (n % 16),
  hex_loop-IsHexDigit f (n / 16) (hex_digit (n % 16) ∷ out),
)

-- The digits of a `u32` spell it.
pub hex_value-format_hex : (n : ℕ) → n < 2 ^ 32 → hex_value 0 (format_hex n) ≡ n
unfolding format_hex
hex_value-format_hex n h = hex_value-hex_loop 8 n [] h

pub format_hex-IsHexDigit : (n : ℕ) → All IsHexDigit (format_hex n)
unfolding format_hex
format_hex-IsHexDigit n = hex_loop-IsHexDigit 8 n [] tt

pub hex_value-format_hex2 : (b : ℕ) → b < 256 → hex_value 0 (format_hex2 b) ≡ b
unfolding format_hex2
hex_value-format_hex2 b h =
    ground (arith, digit_value-hex_digit (b / 16), digit_value-hex_digit (b % 16))

pub format_hex2-IsHexDigit : (b : ℕ) → b < 256 → All IsHexDigit (format_hex2 b)
unfolding format_hex2
format_hex2-IsHexDigit b h =
    (hex_digit-IsHexDigit (b / 16) (omega arith), (hex_digit-IsHexDigit (b % 16) (omega arith), tt))

pub format_hex2_pair : (b : ℕ) → (h : ℕ) × (l : ℕ) × (format_hex2 b ≡ h ∷ l ∷ [])
unfolding format_hex2
format_hex2_pair b = (_, _, refl)

format_hex_bidi : format_hex 0x202E ≡ codes "202E"
unfolding format_hex
format_hex_bidi = refl
