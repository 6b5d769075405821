-- ===== src/Sheet/Bounds.antt =====
-- The sheet keeps within its budget, whatever it is to show.
use sudowhat.Utf8.{as_bytes}
use sudowhat.Ffi.CString.{c_string}
use sudowhat.Sheet.Units.{Units}
use sudowhat.Sheet.Layout.{
  ◌>>=◌, user_val, path_val, max_verify_display, format_overflow, verify_line, cut_verify, overflow,
  any_overflow, cmd_budget, budget_left, max_cwd_display, sheet_text, max_user_display, path_shown,
  user_shown, overhead, bottom_clean, bottom_trunc, PromptStyle, overflows, has_stop, fitted,
  styled, path_room, system_sheet, system_headline, layout,
}
use sudowhat.Sheet.Value.{sw_pf_command_line, sw_pf_escape, Memory, Value}
use mathlib.Core.Option
use sudowhat.Prelude.{
  [], ◌∷◌, true, false, inl, inr, suc, zero, ℕ, ◌+◌, ◌≡◌, ◌≤◌, arith, length, length-append, none,
  some, Option, take, Bool-cases, Bool, if◌then◌else◌, Every, ltb, Bytes, Text, List, codes, ◌++◌,
}

pub length-layout :
    (user : Units) (path : Option Units) (command verify bottom : Units)
    → length (layout user path command verify bottom)
      ≡ 16
        + (7 + length user + 2)
        + path_room path
        + (8 + length command)
        + (2 + length verify)
        + (2 + length bottom)
unfolding layout
length-layout user none command verify bottom = simp length-append (omega arith)
length-layout user (some path) command verify bottom = simp length-append (omega arith)

length-fitted : (budget : ℕ) (value : Units) → 14 ≤ budget → length (fitted budget value) ≤ budget
length-fitted budget value h = elim (Bool-cases (overflows budget value)) [
  | inl e ↦ rw e (omega (arith, h))
  | inr e ↦ rw e (ground (arith, e))
]

length-take : (n : ℕ) (t : Units) → length (take n t) ≤ n
length-take zero t = omega arith
length-take (suc n) [] = omega arith
length-take (suc n) (u ∷ t) = omega (arith, length-take n t)

length-styled :
    (style : PromptStyle) (truncated : Bool)
    → length (styled style (if truncated then bottom_trunc else bottom_clean)) ≤ 41
unfolding styled has_stop
length-styled system_sheet true = omega arith
length-styled system_sheet false = omega arith
length-styled system_headline true = omega arith
length-styled system_headline false = omega arith

path_room-path_shown : (path : Option Units) → path_room (path_shown path) ≤ 172
path_room-path_shown none = omega arith
path_room-path_shown (some path) = omega (arith, length-fitted max_cwd_display path (omega arith))

module _ (verify user : Units) (path : Option Units) (short : length verify ≤ 45) where
  -- Whatever else stands on the sheet, the command has a budget of 121 characters.
  pub budget_left_bounds :
      (121 ≤ budget_left verify user path)
      × (16
            + (length verify + 2)
            + (7 + length (user_shown user) + 2)
            + path_room (path_shown path)
            + 8
            + 43
            + budget_left verify user path
          ≡ 480)
  unfolding budget_left cmd_budget overhead
  budget_left_bounds =
      ground (arith, path_room-path_shown path, length-fitted max_user_display user (omega arith))

  length-sheet_text :
      (style : PromptStyle) (command : Units)
      → length (sheet_text style verify user path command) ≤ 480
  unfolding sheet_text
  length-sheet_text style command = rw length-layout (
      omega (
        arith,
        budget_left_bounds,
        length-fitted (budget_left verify user path) command (omega (arith, budget_left_bounds)),
        length-styled style (any_overflow (overflow verify user path command)),
      ))

pub length-cut_verify : (v : Units) → length (cut_verify v) ≤ 32
length-cut_verify v = elim (Bool-cases (ltb max_verify_display (length v))) [
  | inl e ↦ rw e (length-take max_verify_display v)
  | inr e ↦ rw e (ground (arith, e))
]

-- The verify line has at most 45 characters.
abbrev pub IsShort : Units → Type 0
IsShort verify = length verify ≤ 45

cut_line-IsShort :
    (v : Option Units) → Every IsShort (Option.map (λ v. codes "Verify Code: " ++ cut_verify v) v)
cut_line-IsShort none = tt
cut_line-IsShort (some v) =
    omega (arith, length-append {0} (codes "Verify Code: ") (cut_verify v), length-cut_verify v)

pub verify_line-IsShort : (mem : Memory) (code : Option Text) → Every IsShort (verify_line mem code)
unfolding verify_line
verify_line-IsShort mem none = omega arith
verify_line-IsShort mem (some []) = omega arith
verify_line-IsShort mem (some (c ∷ code)) =
    cut_line-IsShort (sw_pf_escape mem Value.verify_code (c_string (as_bytes (c ∷ code))))

>>=-Every :
    {A B : Type 0} (P : B → Type 0) (Q : A → Type 0) (m : Option A) (f : A → Option B)
    → Every Q m
    → ((a : A) → Q a → Every P (f a))
    → Every P (m >>= f)
>>=-Every P Q none f h each = tt
>>=-Every P Q (some a) f h each = each a h

anything : {A : Type 0} (m : Option A) → Every (λ _. Unit {0}) m
anything none = tt
anything (some a) = tt

-- Whatever the command, the user, the directory and the code are, a sheet has at most 480
-- characters, which count as macOS counts them.
pub format_overflow_bounds :
    (mem : Memory) (path user cwd : Option Bytes) (code : Option Text) (argv : Option (List Bytes))
    (style : PromptStyle)
    → Every (λ r. length r.0 ≤ 480) (format_overflow mem path user cwd code argv style)
unfolding format_overflow
format_overflow_bounds mem none user cwd code argv style = tt
format_overflow_bounds mem (some path) user cwd code argv style =
    >>=-Every _ IsShort (verify_line mem code) _ (verify_line-IsShort mem code) λ verify short.
      >>=-Every _ _ (path_val mem cwd) _ (anything _) λ dir _.
        >>=-Every _ _ (user_val mem user) _ (anything _) λ run_as _.
          >>=-Every _ _ (sw_pf_command_line mem path argv) _ (anything _)
            λ cmd _. length-sheet_text verify run_as dir short style cmd
