-- ===== src/Ffi/Contract.antt =====
-- The buffer contract of `write_result`: ask for the length, then for the text.
use mathlib.Core.Option.{some-injective}
use mathlib.Core.Option
use sudowhat.Ffi.CString.{c_string, c_string-append, as_bytes-IsNonzero}
use sudowhat.Color.NoNul.{IsNonzero}
use sudowhat.Prelude.{
  [], ◌∷◌, ◌≡◌, false, some, none, refl, Bytes, Text, zero, suc, drop, ℕ, All, ◌≤◌, length, ◌++◌,
  ◌<◌, ◌+◌, arith, ap, ltb, ◌∙◌, Bool-cases, inl, ap₂, inr, ◌⊎◌, Option,
}
use sudowhat.Utf8.{as_bytes}
use sudowhat.Ffi.{copy_result, sw_escape_truncated, write_result, sw_escape_ok}

drop-length : (memory : Bytes) → drop (length memory) memory ≡ []
drop-length [] = refl
drop-length (b ∷ memory) = drop-length memory

-- A caller that asks for the length with no buffer, and then passes one of that length and a byte
-- for the NUL, gets the whole text and its NUL, whatever the buffer held.
pub write_result-retry :
    (result : Text) (memory : Bytes) (n : ℕ)
    → (write_result result none 0 (some 0)).needed ≡ some n
    → length memory ≡ n + 1
    → write_result result (some memory) (n + 1) (some 0)
      ≡ record { code = sw_escape_ok; needed = some n; out = some (as_bytes result ++ 0 ∷ []) }
unfolding write_result
write_result-retry result memory n asked room =
    let size : length (as_bytes result) ≡ n = some-injective _ _ asked in
    let fits : ltb (n + 1) (length (as_bytes result) + 1) ≡ false = ground (arith, size) in
    let whole : drop (length (as_bytes result) + 1) memory ≡ [] =
      ap (λ k. drop k memory) (omega (arith, size, room)) ∙ drop-length memory in
    rw fits (
      ap₂
        (λ k m. record {
          code = sw_escape_ok;
          needed = some k;
          out = some (as_bytes result ++ 0 ∷ m);
        })
        size whole)

-- A string and its NUL, written over the front of a memory that has room for them.
abbrev overwrite : Bytes → Bytes → Bytes
overwrite s memory = s ++ 0 ∷ drop (suc (length s)) memory

length-overwrite :
    (s memory : Bytes) → length s < length memory → length (overwrite s memory) ≡ length memory
length-overwrite s [] h = absurd (omega arith)
length-overwrite [] (m ∷ memory) h = refl
length-overwrite (b ∷ s) (m ∷ memory) h = ap suc (length-overwrite s memory (omega (arith, h)))

drop-overwrite :
    (k : ℕ) (s memory : Bytes)
    → length s < k
    → k ≤ length memory
    → drop k (overwrite s memory) ≡ drop k memory
drop-overwrite zero s memory h room = absurd (omega arith)
drop-overwrite (suc k) s [] h room = absurd (omega (arith, room))
drop-overwrite (suc k) [] (m ∷ memory) h room = refl
drop-overwrite (suc k) (b ∷ s) (m ∷ memory) h room =
    drop-overwrite k s memory (omega (arith, h)) (omega (arith, room))

copy_result-overwrite : (s memory : Bytes) → copy_result s memory ≡ overwrite s memory
copy_result-overwrite s memory =
    let size : length s + 1 ≡ suc (length s) = omega arith in ap (λ k. s ++ 0 ∷ drop k memory) size

-- What a call of `write_result` leaves, for a buffer that may be missing.
abbrev pub Leaves : Bytes → Option Bytes → ℕ → ℕ → Option Bytes → Type 0
Leaves s none out_cap code left = (code ≡ sw_escape_truncated) × (left ≡ none)
Leaves s (some memory) out_cap code left =
    (m : Bytes) × (left ≡ some m)
    × (length m ≡ length memory)
    × (drop out_cap m ≡ drop out_cap memory)
    × (((length s < out_cap) × (code ≡ sw_escape_ok) × (c_string m ≡ s))
        ⊎ ((out_cap ≤ length s) × (code ≡ sw_escape_truncated) × (m ≡ memory)))

-- The capacity is not more than the memory behind the buffer; a missing one has none to compare.
abbrev pub HasRoom : Option Bytes → ℕ → Type 0
HasRoom none out_cap = Unit
HasRoom (some memory) out_cap = out_cap ≤ length memory

-- If the text has no NUL and the capacity is not more than the memory behind the buffer,
-- `write_result` writes within that capacity and nowhere else: the memory keeps its length and what
-- stands behind the capacity. Either it holds the whole text as a C string, or it is untouched and the
-- call says that the buffer was too small; which of them is decided by the length. Without a buffer
-- the call says the same, whatever the capacity. The cell, where there is one, holds the length in
-- every case.
pub write_result_bounds :
    (result : Text) (out : Option Bytes) (out_cap : ℕ) (needed : Option ℕ)
    → All IsNonzero result
    → HasRoom out out_cap
    → let w = write_result result out out_cap needed in
      (w.needed ≡ Option.map (λ _. length (as_bytes result)) needed)
      × Leaves (as_bytes result) out out_cap w.code w.out
unfolding write_result
write_result_bounds result none out_cap needed h room = (refl, (refl, refl))
write_result_bounds result (some memory) out_cap needed h room =
    elim (Bool-cases (ltb out_cap (length (as_bytes result) + 1))) [
      | inl small ↦
          rw small (refl, (memory, refl, refl, refl, inr (ground (arith, small), refl, refl)))
      | inr fits ↦ rw fits (
        refl,
        (
          copy_result (as_bytes result) memory,
          refl,
          rw copy_result-overwrite
              (length-overwrite (as_bytes result) memory (ground (arith, fits, room))),
          rw copy_result-overwrite
              (drop-overwrite out_cap (as_bytes result) memory (ground (arith, fits)) room),
          inl (ground (arith, fits), refl, c_string-append _ _ (as_bytes-IsNonzero result h)),
        ),
      )
    ]

-- The second call of a caller that asked for the length gives it the text as a C string.
pub c_string-write_result :
    (result : Text) (memory : Bytes) (n : ℕ)
    → All IsNonzero result
    → (write_result result none 0 (some 0)).needed ≡ some n
    → length memory ≡ n + 1
    → Option.map c_string (write_result result (some memory) (n + 1) (some 0)).out
      ≡ some (as_bytes result)
c_string-write_result result memory n h asked room =
    ap (λ w. Option.map c_string w.out) (write_result-retry result memory n asked room)
    ∙ ap some (c_string-append _ [] (as_bytes-IsNonzero result h))
