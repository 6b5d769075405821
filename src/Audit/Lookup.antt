-- ===== src/Audit/Lookup.antt =====
-- Which entry `find_kv` answers with, and which number `parse_uid` reads.
use mathlib.Core.Option.{none-ne-some}
use sudowhat.Prelude.{
  [], ◌∷◌, refl, some, none, true, false, ◌≡◌, Bytes, Text, ◌≢◌, ◌∷◌, ℕ, ◌++◌, some, ==_self, ◌*◌,
  ◌≤◌, ◌+◌, ◌-◌, Option-cases, sym, inl, Bool-cases, ◌==◌, inr, ap₂, ==_iff, arith, All, List, ◌⊎◌,
  ap, ◌∙◌, IsBytes, Option, Every,
}
use sudowhat.Audit.Context.{
  is_ascii_digit, strip_prefix, entry_value, find_kv, saturate, parse_digits, parse_uid,
}
use sudowhat.Utf8.{as_bytes}

-- The entry that gives the key a value.
abbrev pub entry_of : Text → Bytes → Bytes
entry_of key value = as_bytes key ++ b'=' ∷ value

-- The entry gives the key no value.
abbrev pub Lacks : Text → Bytes → Type 0
Lacks key entry = (value : Bytes) → entry ≢ entry_of key value

pub strip_prefix-append : (p s : Bytes) → strip_prefix p (p ++ s) ≡ some s
strip_prefix-append [] s = refl
strip_prefix-append (b ∷ p) s = rw (==_self b) (strip_prefix-append p s)

strip_prefix-some : (p s rest : Bytes) → strip_prefix p s ≡ some rest → s ≡ p ++ rest
strip_prefix-some [] s rest h = sym (cc)
strip_prefix-some (b ∷ p) [] rest h = cc
strip_prefix-some (b ∷ p) (c ∷ s) rest h = elim (Bool-cases (b == c)) [
  | inl e ↦ ap₂ ◌∷◌ (sym ((==_iff b c).0 e)) (strip_prefix-some p s rest (rw e at h))
  | inr e ↦ cc
]

entry_value-entry_of : (key value : Bytes) → entry_value key (entry_of key value) ≡ some value
unfolding entry_value
entry_value-entry_of key value =
    rw (strip_prefix-append (as_bytes key) (b'=' ∷ value), entry_value) refl

entry_value-some :
    (key : Text) (entry value : Bytes)
    → entry_value key entry ≡ some value
    → entry ≡ entry_of key value
unfolding entry_value
entry_value-some key entry value h = elim (Option-cases (strip_prefix (as_bytes key) entry)) [
  | inl e ↦ absurd (none-ne-some value (rw (e, entry_value) at h))
  | inr (rest, e) ↦
      strip_prefix-some (as_bytes key) entry rest e
      ∙ ap (λ r. as_bytes key ++ r)
          (strip_prefix-some (b'=' ∷ []) rest value (rw (e, entry_value) at h))
]

entry_value-Lacks : (key : Text) (entry : Bytes) → Lacks key entry → entry_value key entry ≡ none
entry_value-Lacks key entry lacks = elim (Option-cases (entry_value key entry)) [
  | inl e ↦ e
  | inr (value, e) ↦ absurd (lacks value (entry_value-some key entry value e))
]

-- The first entry for a key gives its value.
pub find_kv-entry_of :
    (before after : List Bytes) (key : Text) (value : Bytes)
    → All (Lacks key) before
    → find_kv (before ++ entry_of key value ∷ after) key ≡ some value
unfolding find_kv
find_kv-entry_of [] after key value h = rw (entry_value-entry_of key value, find_kv) refl
find_kv-entry_of (entry ∷ before) after key value h =
    rw (entry_value-Lacks key entry h.0, find_kv) (find_kv-entry_of before after key value h.1)

strip_prefix-IsBytes : (p s : Bytes) → IsBytes s → Every IsBytes (strip_prefix p s)
strip_prefix-IsBytes [] s h = h
strip_prefix-IsBytes (b ∷ p) [] h = tt
strip_prefix-IsBytes (b ∷ p) (c ∷ s) h = elim (Bool-cases (b == c)) [
  | inl e ↦ rw e (strip_prefix-IsBytes p s h.1)
  | inr e ↦ rw e tt
]

entry_value-IsBytes :
    (key : Text) (entry : Bytes) → IsBytes entry → Every IsBytes (entry_value key entry)
unfolding entry_value
entry_value-IsBytes key entry h =
    step (strip_prefix (as_bytes key) entry) (strip_prefix-IsBytes (as_bytes key) entry h)
  where
    step :
        (o : Option Bytes)
        → Every IsBytes o
        → Every IsBytes (elim o [ some rest ↦ strip_prefix (b'=' ∷ []) rest | none ↦ none ])
    step none h = tt
    step (some rest) h = strip_prefix-IsBytes (b'=' ∷ []) rest h

pub find_kv-IsBytes :
    (arr : List Bytes) (key : Text) → All IsBytes arr → Every IsBytes (find_kv arr key)
unfolding find_kv
find_kv-IsBytes [] key h = tt
find_kv-IsBytes (entry ∷ arr) key h = elim (Option-cases (entry_value key entry)) [
  | inl e ↦ rw (e, find_kv) (find_kv-IsBytes arr key h.1)
  | inr (value, e) ↦ rw (e, find_kv) (rw e at (entry_value-IsBytes key entry h.0))
]

-- The decimal number that digits spell, behind a number read before.
abbrev pub decimal : ℕ → Bytes → ℕ
decimal n [] = n
decimal n (b ∷ s) = decimal (n * 10 + (b - b'0')) s

abbrev pub IsDigit : ℕ → Type 0
IsDigit b = (b'0' ≤ b) × (b ≤ b'9')

-- Whether no digit stands first.
abbrev pub NoDigitAhead : Bytes → Type 0
NoDigitAhead [] = Unit
NoDigitAhead (b ∷ _) = ¬ IsDigit b

-- `find_kv` answers with the value of the first entry for its key: the entry is in the array, and
-- none before it is for the key. With no answer, no entry is for the key. An entry is for the key
-- when it begins with the whole key and `=`.
pub find_kv-first :
    (arr : List Bytes) (key : Text)
    → ((before : List Bytes) × (value : Bytes) × (after : List Bytes) × (arr
          ≡ before ++ entry_of key value ∷ after)
        × All (Lacks key) before
        × (find_kv arr key ≡ some value))
      ⊎ (All (Lacks key) arr × (find_kv arr key ≡ none))
unfolding find_kv
find_kv-first [] key = inr (tt, refl)
find_kv-first (entry ∷ arr) key = elim (Option-cases (entry_value key entry)) [
  | inr (value, e) ↦ inl (
    [],
    value,
    arr,
    ap (λ x. x ∷ arr) (entry_value-some key entry value e),
    tt,
    rw (e, find_kv) refl,
  )
  | inl e ↦
      let lacks : Lacks key entry = λ value same.
        none-ne-some value (sym e ∙ ap (entry_value key) same ∙ entry_value-entry_of key value) in
      elim (find_kv-first arr key) [
        | inl (before, value, after, split, none_before, found) ↦ inl (
          entry ∷ before,
          value,
          after,
          ap (λ x. entry ∷ x) split,
          (lacks, none_before),
          rw (e, find_kv) found,
        )
        | inr (none_there, missing) ↦ inr ((lacks, none_there), rw (e, find_kv) missing)
      ]
]

saturate-add : (n d : ℕ) → saturate (saturate (saturate n * 10) + d) ≡ saturate (n * 10 + d)
saturate-add n d = ground arith

is_ascii_digit-yes : (b : ℕ) → IsDigit b → is_ascii_digit b ≡ true
is_ascii_digit-yes b h = ground arith

is_ascii_digit-no : (b : ℕ) → ¬ IsDigit b → is_ascii_digit b ≡ false
is_ascii_digit-no b h = ground arith

parse_digits-decimal :
    (n : ℕ) (digits rest : Bytes)
    → All IsDigit digits
    → NoDigitAhead rest
    → parse_digits (saturate n) (digits ++ rest) ≡ saturate (decimal n digits)
unfolding parse_digits
parse_digits-decimal n [] [] h stop = refl
parse_digits-decimal n [] (b ∷ rest) h stop = rw (is_ascii_digit-no b stop) refl
parse_digits-decimal n (b ∷ digits) rest h stop =
    rw (is_ascii_digit-yes b h.0, saturate-add n (b - b'0'))
      (parse_digits-decimal (n * 10 + (b - b'0')) digits rest h.1 stop)

-- `parse_uid` reads the digits that a text begins with as the decimal number that they spell, or
-- as the largest `u64` if that is less; whatever stands behind the digits does not count.
pub parse_uid-decimal :
    (digits rest : Bytes)
    → All IsDigit digits
    → NoDigitAhead rest
    → parse_uid (digits ++ rest) ≡ saturate (decimal 0 digits)
unfolding parse_uid
parse_uid-decimal digits rest = parse_digits-decimal 0 digits rest
