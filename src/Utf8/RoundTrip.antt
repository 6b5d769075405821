-- ===== src/Utf8/RoundTrip.antt =====
-- Decoding loses nothing, and what it yields is well formed.
use sudowhat.Prelude.{
  ℕ, zero, suc, ◌+◌, ◌-◌, ◌*◌, ◌≤◌, ◌≡◌, refl, ap, ◌∙◌, List, [], ◌∷◌, ◌++◌, map, arith, ◌<◌, All,
  drop, Bytes, Text, IsBytes, true, inl, ◌/◌, ◌%◌,
}
use sudowhat.Utf8.{
  Decoded, ok, err, second_fits, scan_two, scan_three, scan_four, scan, decode_from, decode,
  encode_char, as_bytes, IsScalar, source_bytes, IsDecoded,
}

-- The bytes of one decoded value.
abbrev bytes_of : Decoded → Bytes
bytes_of (ok c) = encode_char c
bytes_of (err b) = b ∷ []

encode_two :
    (x y : ℕ) → 2 ≤ x → x < 32 → y < 64 → encode_char (x * 64 + y) ≡ (0xC0 + x) ∷ (0x80 + y) ∷ []
unfolding encode_char
encode_two x y hx hx' hy = ground arith

encode_three :
    (x y z : ℕ)
    → x < 16
    → y < 64
    → z < 64
    → 0x800 ≤ x * 4096 + y * 64 + z
    → encode_char (x * 4096 + y * 64 + z) ≡ (0xE0 + x) ∷ (0x80 + y) ∷ (0x80 + z) ∷ []
unfolding encode_char
encode_three x y z hx hy hz h = ground arith

encode_four :
    (x y z w : ℕ)
    → x < 8
    → y < 64
    → z < 64
    → w < 64
    → 0x10000 ≤ x * 262144 + y * 4096 + z * 64 + w
    → encode_char (x * 262144 + y * 4096 + z * 64 + w)
      ≡ (0xF0 + x) ∷ (0x80 + y) ∷ (0x80 + z) ∷ (0x80 + w) ∷ []
unfolding encode_char
encode_four x y z w hx hy hz hw h = ground arith

second_fits_bounds :
    (a b : ℕ)
    → second_fits a b ≡ true
    → (0x80 ≤ b)
      × (b < 0xC0)
      × (a ≡ 0xE0 → 0xA0 ≤ b)
      × (a ≡ 0xED → b < 0xA0)
      × (a ≡ 0xF0 → 0x90 ≤ b)
      × (a ≡ 0xF4 → b < 0x90)
unfolding second_fits
second_fits_bounds a b h = ground arith

-- What `scan` yields at a byte: the value is well formed, and its bytes stand there.
record Scanned (a : ℕ) (s : Bytes) (r : Decoded × ℕ) : Type 0 where
  bytes : bytes_of r.0 ++ drop r.1 s ≡ a ∷ s
  decoded : IsDecoded r.0

module _ (a : ℕ) (small : a < 256) where
  Scanned-err : (s : Bytes) → 0x80 ≤ a → Scanned a s (err a, 0)
  Scanned-err s h = record { bytes = refl; decoded = (h, small) }

  Scanned-ok : (s : Bytes) → a < 0x80 → Scanned a s (ok a, 0)
  unfolding encode_char
  Scanned-ok s h = record { bytes = ground arith; decoded = inl (omega arith) }

  scan_two-Scanned : (s : Bytes) → 0xC2 ≤ a → a < 0xE0 → Scanned a s (scan_two a s)
  unfolding scan_two
  scan_two-Scanned [] lo hi = Scanned-err _ (omega arith)
  scan_two-Scanned (b ∷ s) lo hi = ground (arith, encode_two (a - 0xC0) (b - 0x80))

  scan_three-Scanned : (s : Bytes) → 0xE0 ≤ a → a < 0xF0 → Scanned a s (scan_three a s)
  unfolding scan_three
  scan_three-Scanned [] lo hi = Scanned-err _ (omega arith)
  scan_three-Scanned (b ∷ []) lo hi = Scanned-err _ (omega arith)
  scan_three-Scanned (b ∷ c ∷ s) lo hi =
      ground (arith, second_fits_bounds a b, encode_three (a - 0xE0) (b - 0x80) (c - 0x80))

  scan_four-Scanned : (s : Bytes) → 0xF0 ≤ a → a < 0xF5 → Scanned a s (scan_four a s)
  unfolding scan_four
  scan_four-Scanned [] lo hi = Scanned-err _ (omega arith)
  scan_four-Scanned (b ∷ []) lo hi = Scanned-err _ (omega arith)
  scan_four-Scanned (b ∷ c ∷ []) lo hi = Scanned-err _ (omega arith)
  scan_four-Scanned (b ∷ c ∷ d ∷ s) lo hi =
      ground
        (arith, second_fits_bounds a b, encode_four (a - 0xF0) (b - 0x80) (c - 0x80) (d - 0x80))

  scan-Scanned : (s : Bytes) → Scanned a s (scan a s)
  unfolding scan
  scan-Scanned s = ground (
    arith,
    Scanned-ok s,
    Scanned-err s,
    scan_two-Scanned s,
    scan_three-Scanned s,
    scan_four-Scanned s,
  )

source_bytes-cons :
    (d : Decoded) (ds : List Decoded) → source_bytes (d ∷ ds) ≡ bytes_of d ++ source_bytes ds
unfolding source_bytes
source_bytes-cons (ok c) ds = refl
source_bytes-cons (err b) ds = refl

source_bytes-decode_from :
    (n : ℕ) (s : Bytes) → IsBytes s → source_bytes (decode_from n s) ≡ drop n s
unfolding decode_from
source_bytes-decode_from zero [] h = unfold source_bytes in refl
source_bytes-decode_from (suc n) [] h = unfold source_bytes in refl
source_bytes-decode_from zero (a ∷ s) h =
    rw source_bytes-cons
      (rw (source_bytes-decode_from (scan a s).1 s h.1) (scan-Scanned a h.0 s).bytes)
source_bytes-decode_from (suc n) (a ∷ s) h = source_bytes-decode_from n s h.1

decode_from-IsDecoded : (n : ℕ) (s : Bytes) → IsBytes s → All IsDecoded (decode_from n s)
unfolding decode_from
decode_from-IsDecoded zero [] h = tt
decode_from-IsDecoded (suc n) [] h = tt
decode_from-IsDecoded zero (a ∷ s) h =
    ((scan-Scanned a h.0 s).decoded, decode_from-IsDecoded (scan a s).1 s h.1)
decode_from-IsDecoded (suc n) (a ∷ s) h = decode_from-IsDecoded n s h.1

-- The decoded values spell the bytes that were read, all of them and in order.
pub source_bytes-decode : (s : Bytes) → IsBytes s → source_bytes (decode s) ≡ s
unfolding decode
source_bytes-decode = source_bytes-decode_from 0

-- What is decoded is a scalar value, or a byte that is no ASCII character.
pub decode-IsDecoded : (s : Bytes) → IsBytes s → All IsDecoded (decode s)
unfolding decode
decode-IsDecoded = decode_from-IsDecoded 0

scan_ascii : (c : ℕ) (s : Bytes) → c < 0x80 → scan c s ≡ (ok c, 0)
unfolding scan
scan_ascii c s h = ground arith

scan_encoded_two :
    (x y : ℕ) (s : Bytes)
    → 2 ≤ x
    → x < 32
    → y < 64
    → scan (0xC0 + x) ((0x80 + y) ∷ s) ≡ (ok (x * 64 + y), 1)
unfolding scan scan_two
scan_encoded_two x y s hx hx' hy = ground arith

scan_encoded_three :
    (x y z : ℕ) (s : Bytes)
    → x < 16
    → y < 64
    → z < 64
    → 0x800 ≤ x * 4096 + y * 64 + z
    → IsScalar (x * 4096 + y * 64 + z)
    → scan (0xE0 + x) ((0x80 + y) ∷ (0x80 + z) ∷ s) ≡ (ok (x * 4096 + y * 64 + z), 2)
unfolding scan scan_three second_fits
scan_encoded_three x y z s hx hy hz lo h = ground arith

scan_encoded_four :
    (x y z w : ℕ) (s : Bytes)
    → y < 64
    → z < 64
    → w < 64
    → 0x10000 ≤ x * 262144 + y * 4096 + z * 64 + w
    → x * 262144 + y * 4096 + z * 64 + w < 0x110000
    → scan (0xF0 + x) ((0x80 + y) ∷ (0x80 + z) ∷ (0x80 + w) ∷ s)
      ≡ (ok (x * 262144 + y * 4096 + z * 64 + w), 3)
unfolding scan scan_four second_fits
scan_encoded_four x y z w s hy hz hw lo hi = ground arith

decode_from-encode_char :
    (c : ℕ) (s : Bytes) → IsScalar c → decode_from 0 (encode_char c ++ s) ≡ ok c ∷ decode_from 0 s
unfolding decode_from encode_char
decode_from-encode_char c s h = ground (
  arith,
  scan_ascii c s,
  scan_encoded_two (c / 64) (c % 64) s,
  scan_encoded_three (c / 4096) (c / 64 % 64) (c % 64) s,
  scan_encoded_four (c / 262144) (c / 4096 % 64) (c / 64 % 64) (c % 64) s,
)

-- The bytes of a `&str` decode to its characters: none is invalid.
pub decode-as_bytes : (t : Text) → All IsScalar t → decode (as_bytes t) ≡ map ok t
unfolding decode as_bytes
decode-as_bytes [] h = refl
decode-as_bytes (c ∷ t) h =
    decode_from-encode_char c _ h.0 ∙ ap (λ ds. ok c ∷ ds) (decode-as_bytes t h.1)
