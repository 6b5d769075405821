-- ===== src/Sheet/Layout.antt =====
-- `SudoWhatPromptFormatter` of plugin/PromptFormatter.m: the layout of the sheet and its budget. A
-- literal of ASCII characters is its code units, as `codes` gives them.
use sudowhat.Sheet.Units.{Units}
use sudowhat.Sheet.Value.{directory, Memory, Value, sw_pf_escape, sw_pf_command_line}
use sudowhat.Utf8.{as_bytes}
use sudowhat.Ffi.CString.{c_string}
use mathlib.Core.Option
use sudowhat.Prelude.{
  ℕ, ◌+◌, ◌-◌, List, [], ◌∷◌, ◌++◌, take, Bytes, Text, codes, length, Option, none, some, Bool,
  ◌||◌, ◌==◌, ltb, if◌then◌else◌, is_empty, false,
}

infixl 5 ◌>>=◌
abbrev pub ◌>>=◌ : {A B : Type 0} → Option A → (A → Option B) → Option B
none >>= f = none
some a >>= f = f a

pub data PromptStyle : Type 0 where
  system_sheet : PromptStyle
  system_headline : PromptStyle

pub record PromptOverflow : Type 0 where
  pub user : Bool
  pub path : Bool
  pub command : Bool

abbrev pub max_total : ℕ
max_total = 480

abbrev pub max_user_display : ℕ
max_user_display = 64

abbrev pub max_cwd_display : ℕ
max_cwd_display = 160

abbrev pub max_verify_display : ℕ
max_verify_display = 32

abbrev pub header : Units
header = codes "run a command."

abbrev pub see_terminal : Units
see_terminal = codes "(see terminal)"

abbrev pub bottom_clean : Units
bottom_clean = codes "Code must match your terminal."

abbrev pub bottom_trunc : Units
bottom_trunc = 0x26A0 ∷ 0xFE0F ∷ codes " Long items are shown in your terminal."

abbrev pub bottom_reserve : ℕ
bottom_reserve =
    if ltb (length bottom_trunc) (length bottom_clean)
    then length bottom_clean
    else length bottom_trunc

-- The plain cut of the verify code.
abbrev pub cut_verify : Units → Units
cut_verify v = if ltb max_verify_display (length v) then take max_verify_display v else v

-- The code as characters; `UTF8String` is a C string, which its first NUL ends.
unfoldable pub verify_line : Memory → Option Text → Option Units
verify_line mem none = some (codes "Verify Code: unavailable")
verify_line mem (some code) =
    if is_empty code
    then some (codes "Verify Code: unavailable")
    else Option.map (λ v. codes "Verify Code: " ++ cut_verify v)
        (sw_pf_escape mem Value.verify_code (c_string (as_bytes code)))

-- A C string that is neither `NULL` nor empty.
abbrev pub present : Option Bytes → Option Bytes
present none = none
present (some s) = if is_empty s then none else some s

abbrev pub rendered_user : Memory → Option Bytes → Option Units
rendered_user mem none = some (codes "root")
rendered_user mem (some user) = sw_pf_escape mem Value.user user

unfoldable pub user_val : Memory → Option Bytes → Option Units
user_val mem user = rendered_user mem (present user)

-- The outer `none` is a failure, the inner one no directory.
abbrev pub rendered_path : Memory → Option Bytes → Option (Option Units)
rendered_path mem none = some none
rendered_path mem (some cwd) = Option.map some (sw_pf_escape mem directory cwd)

unfoldable pub path_val : Memory → Option Bytes → Option (Option Units)
path_val mem cwd = rendered_path mem (present cwd)

-- An item beyond its budget is replaced by the marker.
abbrev pub overflows : ℕ → Units → Bool
overflows budget value = ltb budget (length value)

abbrev pub fitted : ℕ → Units → Units
fitted budget value = if overflows budget value then see_terminal else value

-- What a field takes, with its label and the blank line behind it.
abbrev pub path_room : Option Units → ℕ
path_room none = 0
path_room (some path) = 10 + length path + 2

unfoldable pub overhead : Units → Units → Option Units → ℕ
overhead verify user path =
    length header
    + 2
    + (length verify + 2)
    + (7 + length user + 2)
    + path_room path
    + 8
    + (2 + bottom_reserve)

unfoldable pub cmd_budget : Units → Units → Option Units → ℕ
unfolding overhead
cmd_budget verify user path =
    let n = overhead verify user path in if ltb n max_total then max_total - n else 0

abbrev pub path_overflows : Option Units → Bool
path_overflows none = false
path_overflows (some path) = overflows max_cwd_display path

abbrev pub any_overflow : PromptOverflow → Bool
any_overflow ov = ov.user || ov.path || ov.command

-- `hasSuffix:@"."` and the substring without it.
unfoldable pub has_stop : Units → Bool
has_stop [] = false
has_stop (u ∷ []) = u == b'.'
has_stop (u ∷ v ∷ us) = has_stop (v ∷ us)

unfoldable pub styled : PromptStyle → Units → Units
unfolding has_stop
styled system_sheet bottom = bottom
styled system_headline bottom = if has_stop bottom then take (length bottom - 1) bottom else bottom

abbrev pub path_field : Option Units → Units
path_field none = []
path_field (some path) = codes "DIRECTORY\n" ++ (path ++ codes "\n\n")

-- The three `appendFormat` calls.
unfoldable pub layout : Units → Option Units → Units → Units → Units → Units
layout user path command verify bottom =
    header
    ++ (codes "\n\nRUN AS\n"
        ++ (user
            ++ (codes "\n\n"
                ++ (path_field path
                    ++ (codes "EXECUTE\n"
                        ++ (command ++ (codes "\n\n" ++ (verify ++ (codes "\n\n" ++ bottom)))))))))

abbrev pub user_shown : Units → Units
user_shown user = fitted max_user_display user

abbrev pub path_shown : Option Units → Option Units
path_shown path = Option.map (fitted max_cwd_display) path

-- The budget of the command beside the items that are shown.
unfoldable pub budget_left : Units → Units → Option Units → ℕ
unfolding cmd_budget
budget_left verify user path = cmd_budget verify (user_shown user) (path_shown path)

unfoldable pub overflow : Units → Units → Option Units → Units → PromptOverflow
unfolding budget_left
overflow verify user path command = record {
  user = overflows max_user_display user;
  path = path_overflows path;
  command = overflows (budget_left verify user path) command;
}

unfoldable pub sheet_text : PromptStyle → Units → Units → Option Units → Units → Units
unfolding layout styled overflow budget_left
sheet_text style verify user path command =
    layout (user_shown user) (path_shown path) (fitted (budget_left verify user path) command)
      verify
      (styled style
        (if any_overflow (overflow verify user path command) then bottom_trunc else bottom_clean))

-- `formatWithCommandPath:...overflow:`; the report is written only where there is a sheet.
unfoldable pub format_overflow :
    Memory
    → Option Bytes
    → Option Bytes
    → Option Bytes
    → Option Text
    → Option (List Bytes)
    → PromptStyle
    → Option (Units × PromptOverflow)
unfolding verify_line user_val path_val sheet_text overflow
format_overflow mem none user cwd verify_code argv style = none
format_overflow mem (some path) user cwd verify_code argv style = do
  verify ← verify_line mem verify_code
  dir ← path_val mem cwd
  run_as ← user_val mem user
  cmd ← sw_pf_command_line mem path argv
  some (sheet_text style verify run_as dir cmd, overflow verify run_as dir cmd)

-- `formatWithCommandPath:...style:`.
unfoldable pub format :
    Memory
    → Option Bytes
    → Option Bytes
    → Option Bytes
    → Option Text
    → Option (List Bytes)
    → PromptStyle
    → Option Units
unfolding format_overflow
format mem path user cwd verify_code argv style =
    Option.map (λ r. r.0) (format_overflow mem path user cwd verify_code argv style)

-- `formatWithCommandPath:...wasTruncated:`, whose report starts with three times NO.
abbrev pub truncation : Option (Units × PromptOverflow) → Option Units × Bool
truncation none = (none, false)
truncation (some (sheet, ov)) = (some sheet, any_overflow ov)

unfoldable pub format_truncated :
    Memory
    → Option Bytes
    → Option Bytes
    → Option Bytes
    → Option Text
    → Option (List Bytes)
    → PromptStyle
    → Option Units × Bool
unfolding format_overflow
format_truncated mem path user cwd verify_code argv style =
    truncation (format_overflow mem path user cwd verify_code argv style)
