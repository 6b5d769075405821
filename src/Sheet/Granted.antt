-- ===== src/Sheet/Granted.antt =====
-- The sheet of a call: there is one exactly where memory is granted for what it shows, and it says
-- what the call was given.
use sudowhat.Command.Words.{escaped}
use sudowhat.Ffi.CString.{c_string}
use sudowhat.Sheet.Units.{Units, utf16}
use sudowhat.Sheet.Value.{
  Memory, Value, arguments, arrays_granted, command, directory, verify_code, sw_pf_escape,
  sw_pf_command_line,
}
use sudowhat.Sheet.Layout.{rendered_user, rendered_path, verify_line, present, cut_verify}
use sudowhat.Sheet.Rendered.{
  IsSized, command_text, sw_pf_escape-escaped, sw_pf_command_line-command_text,
}
use sudowhat.Sheet.ReadBack.{units_of, path_units}
use sudowhat.Utf8.{decode, IsScalar, encode_char, as_bytes}
use mathlib.Core.Option
use sudowhat.Prelude.{
  ◌≡◌, ◌&&◌, ◌+◌, ap, ◌∙◌, List, [], ◌∷◌, All, refl, codes, none, some, Option, Text, Bool, Bytes,
  if◌then◌else◌, false, ◌++◌, true, IsBytes, length, Every, Bool-cases, ℕ, ◌==◌, All-append, arith,
  inl, inr,
}

-- Whether the buffer for a rendered value is granted.
abbrev pub is_some {ℓ} : {A : Type ℓ} → Option A → Bool
is_some none = false
is_some (some a) = true

abbrev pub granted : Memory → Value → Text → Bool
granted mem value t = is_some (mem.malloc value (length (as_bytes t) + 1))

abbrev pub given_if {ℓ} : {A : Type ℓ} → Bool → A → Option A
given_if b a = if b then some a else none

map-given_if {ℓ κ} :
    {A : Type ℓ} {B : Type κ} (o : Option A) (b : B)
    → Option.map (λ _. b) o ≡ given_if (is_some o) b
map-given_if none b = refl
map-given_if (some a) b = refl

given_if-map {ℓ κ} :
    {A : Type ℓ} {B : Type κ} (f : A → B) (b : Bool) (a : A)
    → Option.map f (given_if b a) ≡ given_if b (f a)
given_if-map f true a = refl
given_if-map f false a = refl

given_if-and {ℓ κ} :
    {A : Type ℓ} {B : Type κ} (b : Bool) (o : Option A) (c : B)
    → (if b then Option.map (λ _. c) o else none) ≡ given_if (b && is_some o) c
given_if-and true none c = refl
given_if-and true (some a) c = refl
given_if-and false o c = refl

root_units : some (codes "root") ≡ some (units_of (codes "root"))
unfolding sudowhat.Escape.escape_bytes sudowhat.Escape.is_hidden decode utf16
root_units = refl

-- The bytes of the code, as the C string that is escaped.
abbrev pub code_bytes : Text → Bytes
code_bytes code = c_string (as_bytes code)

-- The verify line of a code.
abbrev pub verify_text : Option Text → Units
verify_text none = codes "Verify Code: unavailable"
verify_text (some []) = codes "Verify Code: unavailable"
verify_text (some (c ∷ code)) =
    codes "Verify Code: " ++ cut_verify (units_of (code_bytes (c ∷ code)))

abbrev pub verify_granted : Memory → Option Text → Bool
verify_granted mem none = true
verify_granted mem (some []) = true
verify_granted mem (some (c ∷ code)) = granted mem verify_code (escaped (code_bytes (c ∷ code)))

-- The user that the sheet names.
abbrev pub named_user : Option Bytes → Bytes
named_user none = codes "root"
named_user (some u) = u

abbrev pub user_granted : Memory → Option Bytes → Bool
user_granted mem none = true
user_granted mem (some u) = granted mem Value.user (escaped u)

abbrev pub path_granted : Memory → Option Bytes → Bool
path_granted mem none = true
path_granted mem (some d) = granted mem directory (escaped d)

abbrev pub command_granted : Memory → Bytes → Option (List Bytes) → Bool
command_granted mem path argv =
    arrays_granted mem (length (arguments argv))
    && granted mem command (command_text path (arguments argv))

-- Whether memory is granted for every value of the sheet.
abbrev pub all_granted :
    Memory → Bytes → Option Bytes → Option Bytes → Option Text → Option (List Bytes) → Bool
all_granted mem path user cwd code argv =
    verify_granted mem code
    && path_granted mem (present cwd)
    && user_granted mem (present user)
    && command_granted mem path argv

encode_char-IsBytes : (c : ℕ) → IsScalar c → IsBytes (encode_char c)
unfolding encode_char
encode_char-IsBytes c h = ground arith

as_bytes-IsBytes : (t : Text) → All IsScalar t → IsBytes (as_bytes t)
unfolding as_bytes
as_bytes-IsBytes [] h = tt
as_bytes-IsBytes (c ∷ t) h =
    All-append _ (encode_char c) (as_bytes t) (encode_char-IsBytes c h.0) (as_bytes-IsBytes t h.1)

c_string-IsBytes : (s : Bytes) → IsBytes s → IsBytes (c_string s)
unfolding c_string
c_string-IsBytes [] h = tt
c_string-IsBytes (b ∷ s) h = elim (Bool-cases (b == 0)) [
  | inl e ↦ rw e tt
  | inr e ↦ rw e (h.0, c_string-IsBytes s h.1)
]

pub code_bytes-IsBytes : (code : Text) → All IsScalar code → IsBytes (code_bytes code)
code_bytes-IsBytes code h = c_string-IsBytes _ (as_bytes-IsBytes code h)

module _ (mem : Memory) (sized : IsSized mem) where
  escape_given :
      (value : Value) (s : Bytes)
      → IsBytes s
      → sw_pf_escape mem value s ≡ given_if (granted mem value (escaped s)) (units_of s)
  escape_given value s h = sw_pf_escape-escaped mem value s sized h ∙ map-given_if _ (units_of s)

  pub verify_given :
      (code : Option Text)
      → Every (All IsScalar) code
      → verify_line mem code ≡ given_if (verify_granted mem code) (verify_text code)
  unfolding verify_line
  verify_given none h = refl
  verify_given (some []) h = refl
  verify_given (some (c ∷ code)) h =
      ap (Option.map (λ v. codes "Verify Code: " ++ cut_verify v))
        (escape_given verify_code (code_bytes (c ∷ code)) (code_bytes-IsBytes (c ∷ code) h))
      ∙ given_if-map (λ v. codes "Verify Code: " ++ cut_verify v)
          (verify_granted mem (some (c ∷ code))) (units_of (code_bytes (c ∷ code)))

  pub user_given :
      (user : Option Bytes)
      → Every IsBytes user
      → rendered_user mem user ≡ given_if (user_granted mem user) (units_of (named_user user))
  user_given none h = root_units
  user_given (some u) h = escape_given Value.user u h

  pub path_given :
      (cwd : Option Bytes)
      → Every IsBytes cwd
      → rendered_path mem cwd ≡ given_if (path_granted mem cwd) (path_units cwd)
  path_given none h = refl
  path_given (some d) h =
      ap (Option.map some) (escape_given directory d h)
      ∙ given_if-map some (path_granted mem (some d)) (units_of d)

  pub command_given :
      (path : Bytes) (argv : Option (List Bytes))
      → IsBytes path
      → All IsBytes (arguments argv)
      → sw_pf_command_line mem path argv
        ≡ given_if (command_granted mem path argv) (utf16 (command_text path (arguments argv)))
  command_given path argv hp ha =
      sw_pf_command_line-command_text mem path argv sized hp ha
      ∙ given_if-and (arrays_granted mem (length (arguments argv))) _
          (utf16 (command_text path (arguments argv)))
