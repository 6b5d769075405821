-- ===== src/Audit/Context.antt =====
-- What linux/sudowhat_audit/src/display.rs reads in the arrays of sudo: `find_kv`, `parse_uid`,
-- `color_allowed`, `setting_true` and `runs_shell`. An entry is the bytes of its C string.
use sudowhat.Prelude.{
  Bytes, Text, codes, ℕ, Option, List, if◌then◌else◌, some, none, ◌+◌, Bool, ◌∷◌, ◌*◌, not,
  bytes_eq, ◌-◌, within, ◌||◌, [], ◌==◌, ltb, is_empty, false,
}
use sudowhat.Utf8.{as_bytes}

-- `<[u8]>::strip_prefix`.
abbrev pub strip_prefix : Bytes → Bytes → Option Bytes
strip_prefix [] s = some s
strip_prefix (p ∷ ps) [] = none
strip_prefix (p ∷ ps) (b ∷ s) = let rest = strip_prefix ps s in if p == b then rest else none

-- The value of an entry, if the entry is one for the key.
unfoldable pub entry_value : Text → Bytes → Option Bytes
entry_value key entry = elim (strip_prefix (as_bytes key) entry) [
  | some rest ↦ strip_prefix (b'=' ∷ []) rest
  | none ↦ none
]

unfoldable pub find_kv : List Bytes → Text → Option Bytes
unfolding entry_value
find_kv [] key = none
find_kv (entry ∷ arr) key =
    let rest = find_kv arr key in
    elim (entry_value key entry) [ some value ↦ some value | none ↦ rest ]

-- The largest `u64`.
abbrev pub u64_max : ℕ
u64_max = 18446744073709551615

abbrev pub saturate : ℕ → ℕ
saturate n = if ltb u64_max n then u64_max else n

-- `u64::saturating_mul` and `u64::saturating_add`.
abbrev pub saturating_mul : ℕ → ℕ → ℕ
saturating_mul a b = saturate (a * b)

abbrev pub saturating_add : ℕ → ℕ → ℕ
saturating_add a b = saturate (a + b)

abbrev pub is_ascii_digit : ℕ → Bool
is_ascii_digit b = within b'0' b'9' b

-- The loop of `parse_uid`.
unfoldable pub parse_digits : ℕ → Bytes → ℕ
parse_digits n [] = n
parse_digits n (b ∷ s) =
    let rest = parse_digits (saturating_add (saturating_mul n 10) (b - b'0')) s in
    if is_ascii_digit b then rest else n

unfoldable pub parse_uid : Bytes → ℕ
unfolding parse_digits
parse_uid s = parse_digits 0 s

unfoldable pub color_allowed : List Bytes → Bool
color_allowed envp =
    if elim (find_kv envp (codes "NO_COLOR")) [ some v ↦ not (is_empty v) | none ↦ false ]
    then false
    else elim (find_kv envp (codes "TERM")) [
      | some t ↦ not (is_empty t || bytes_eq t (codes "dumb"))
      | none ↦ false
    ]

unfoldable pub setting_true : List Bytes → Text → Bool
setting_true settings key = elim (find_kv settings key) [
  | some v ↦ bytes_eq v (codes "true")
  | none ↦ false
]

unfoldable pub runs_shell : List Bytes → Bool
unfolding setting_true
runs_shell settings =
    setting_true settings (codes "run_shell")
    || (setting_true settings (codes "login_shell")
        || setting_true settings (codes "implied_shell"))
