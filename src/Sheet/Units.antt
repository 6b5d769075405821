-- ===== src/Sheet/Units.antt =====
-- What plugin/PromptFormatter.m uses of Foundation's `NSString`: its characters are the code units
-- of UTF-16, which `length` counts, and `NSUTF8StringEncoding` decodes valid UTF-8 only.
use sudowhat.Utf8.{Decoded, ok, err, decode, as_bytes, IsScalar}
use sudowhat.Utf8.RoundTrip.{decode-as_bytes}
use mathlib.Core.Option
use sudowhat.Prelude.{
  ℕ, zero, suc, ◌+◌, ◌-◌, ◌*◌, ◌/◌, ◌%◌, ◌≡◌, refl, ap, ◌∙◌, List, [], ◌∷◌, ◌++◌, map, ltb, within,
  Bytes, Text, if◌then◌else◌, All, arith, Option, none, some,
}

-- An `NSString`, as its code units.
abbrev pub Units : Type 0
Units = List ℕ

unfoldable pub units : ℕ → Units
units c =
    if ltb c 0x10000
    then c ∷ []
    else (0xD800 + (c - 0x10000) / 1024) ∷ (0xDC00 + (c - 0x10000) % 1024) ∷ []

unfoldable pub utf16 : Text → Units
unfolding units
utf16 [] = []
utf16 (c ∷ t) = units c ++ utf16 t

-- The characters, if no byte is invalid.
unfoldable pub valid_text : List Decoded → Option Text
valid_text [] = some []
valid_text (err b ∷ ds) = none
valid_text (ok c ∷ ds) = Option.map (λ t. c ∷ t) (valid_text ds)

-- `initWithBytes:length:encoding:` with `NSUTF8StringEncoding`.
unfoldable pub utf8_string : Bytes → Option Units
unfolding valid_text utf16
utf8_string s = Option.map utf16 (valid_text (decode s))

valid_text-ok : (t : Text) → valid_text (map ok t) ≡ some t
unfolding valid_text
valid_text-ok [] = refl
valid_text-ok (c ∷ t) = ap (Option.map (λ u. c ∷ u)) (valid_text-ok t)

-- What Rust encodes is decoded whole.
pub utf8_string-as_bytes : (t : Text) → All IsScalar t → utf8_string (as_bytes t) ≡ some (utf16 t)
unfolding utf8_string
utf8_string-as_bytes t h =
    ap (λ ds. Option.map utf16 (valid_text ds)) (decode-as_bytes t h)
    ∙ ap (Option.map utf16) (valid_text-ok t)

-- The character at a unit and the units behind it, and how many of those it takes.
scan_unit : ℕ → Units → ℕ × ℕ
scan_unit u [] = (u, 0)
scan_unit u (v ∷ us) =
    if within 0xD800 0xDBFF u then (0x10000 + (u - 0xD800) * 1024 + (v - 0xDC00), 1) else (u, 0)

-- The count is of the units that a character already took.
characters_from : ℕ → Units → Text
characters_from n [] = []
characters_from zero (u ∷ us) = (scan_unit u us).0 ∷ characters_from (scan_unit u us).1 us
characters_from (suc n) (u ∷ us) = characters_from n us

-- The text that the units are of.
unfoldable pub characters : Units → Text
unfolding characters_from scan_unit
characters us = characters_from 0 us

characters_from-units :
    (c : ℕ) (us : Units) → IsScalar c → characters_from 0 (units c ++ us) ≡ c ∷ characters_from 0 us
unfolding characters_from scan_unit units
characters_from-units c [] h = ground arith
characters_from-units c (v ∷ us) h = ground arith

-- The units determine the text.
pub characters-utf16 : (t : Text) → All IsScalar t → characters (utf16 t) ≡ t
unfolding characters utf16
characters-utf16 [] h = refl
characters-utf16 (c ∷ t) h =
    characters_from-units c (utf16 t) h.0 ∙ ap (λ u. c ∷ u) (characters-utf16 t h.1)
