-- ===== src/Sheet/ReadBack.antt =====
-- What is read from a sheet is what it was made of.
use sudowhat.Command.Visible.{full_command_line_bytes-IsDrawn}
use sudowhat.Command.{command_tokens}
use sudowhat.Sheet.Units.{Units, utf16}
use sudowhat.Sheet.Layout.{
  header, system_sheet, system_headline, see_terminal, max_user_display, budget_left,
  max_cwd_display, fitted, PromptOverflow, PromptStyle, overflow, sheet_text, overflows, styled,
  bottom_trunc, bottom_clean, any_overflow, user_shown, path_shown,
}
use sudowhat.Sheet.Reader.{read_sheet, read_fields, Reading, read_value, read_command}
use sudowhat.Sheet.Rendered.{command_text}
use sudowhat.Sheet.Lines.{OneLine, split_on-layout, sheet_lines, IsAbove-OneLine, utf16-IsAbove}
use sudowhat.Sheet.Fields.{marker, read_value-fitted, read_command-fitted, escaped-IsDrawn}
use sudowhat.Command.Words.{escaped}
use sudowhat.Prelude.{
  false, true, ◌≡◌, ap, ◌∙◌, List, ◌∷◌, All, refl, none, some, Option, Every, ℕ, Bool, Bytes,
  if◌then◌else◌, Bool-cases, arith, inl, inr, ◌≢◌, IsBytes,
}
use mathlib.Core.Option

read_fields-sheet_lines :
    (top user : Units) (path : Option Units) (command verify bottom : Units)
    → read_fields (top ∷ sheet_lines user path command verify bottom)
      ≡ some record {
        user = read_value user;
        directory = Option.map read_value path;
        command = read_command command;
        verify = verify;
        closing = bottom;
      }
unfolding read_fields
read_fields-sheet_lines top user none command verify bottom = refl
read_fields-sheet_lines top user (some path) command verify bottom = refl

fitted-OneLine : (budget : ℕ) (v : Units) → OneLine v → OneLine (fitted budget v)
fitted-OneLine budget v h = elim (Bool-cases (overflows budget v)) [
  | inl e ↦ rw e (IsAbove-OneLine see_terminal (omega arith))
  | inr e ↦ rw e h
]

path_shown-OneLine : (path : Option Units) → Every OneLine path → Every OneLine (path_shown path)
path_shown-OneLine none h = tt
path_shown-OneLine (some path) h = fitted-OneLine max_cwd_display path h

-- The closing line.
abbrev pub closing : PromptStyle → PromptOverflow → Units
closing style ov = styled style (if any_overflow ov then bottom_trunc else bottom_clean)

closing-OneLine :
    (style : PromptStyle) (truncated : Bool)
    → OneLine (styled style (if truncated then bottom_trunc else bottom_clean))
unfolding styled
closing-OneLine system_sheet true = IsAbove-OneLine bottom_trunc (omega arith)
closing-OneLine system_sheet false = IsAbove-OneLine bottom_clean (omega arith)
closing-OneLine system_headline true =
    IsAbove-OneLine (styled system_headline bottom_trunc) (omega arith)
closing-OneLine system_headline false =
    IsAbove-OneLine (styled system_headline bottom_clean) (omega arith)

-- Each field is a line of its own, whatever the values are.
read_sheet-sheet_text :
    (style : PromptStyle) (verify user : Units) (path : Option Units) (command : Units)
    → OneLine verify
    → OneLine user
    → Every OneLine path
    → OneLine command
    → read_sheet (sheet_text style verify user path command)
      ≡ some record {
        user = read_value (user_shown user);
        directory = Option.map read_value (path_shown path);
        command = read_command (fitted (budget_left verify user path) command);
        verify = verify;
        closing = closing style (overflow verify user path command);
      }
unfolding read_sheet sheet_text
read_sheet-sheet_text style verify user path command hv hu hp hc =
    ap read_fields (
      split_on-layout (user_shown user) (path_shown path)
        (fitted (budget_left verify user path) command) verify
        (closing style (overflow verify user path command))
        (fitted-OneLine max_user_display user hu) (path_shown-OneLine path hp)
        (fitted-OneLine (budget_left verify user path) command hc) hv
        (closing-OneLine style (any_overflow (overflow verify user path command))))
    ∙ read_fields-sheet_lines header (user_shown user) (path_shown path)
        (fitted (budget_left verify user path) command) verify
        (closing style (overflow verify user path command))

-- An item, or nothing where it overflows.
abbrev pub unless {ℓ} : {A : Type ℓ} → Bool → A → Option A
unless over a = if over then none else some a

abbrev pub read_path : PromptOverflow → Option Bytes → Option (Option Bytes)
read_path ov none = none
read_path ov (some d) = some (unless ov.path d)

-- What a sheet of some values is to say, given which of them are left to the terminal.
abbrev pub reading :
    PromptStyle → Units → Bytes → Option Bytes → List Bytes → PromptOverflow → Reading
reading style verify user dir tokens ov = record {
  user = unless ov.user user;
  directory = read_path ov dir;
  command = unless ov.command tokens;
  verify = verify;
  closing = closing style ov;
}

abbrev pub units_of : Bytes → Units
units_of s = utf16 (escaped s)

pub units_of-OneLine : (s : Bytes) → IsBytes s → OneLine (units_of s)
units_of-OneLine s h = IsAbove-OneLine _ (utf16-IsAbove (escaped s) (escaped-IsDrawn s h))

abbrev pub path_units : Option Bytes → Option Units
path_units none = none
path_units (some d) = some (units_of d)

path_units-OneLine : (dir : Option Bytes) → Every IsBytes dir → Every OneLine (path_units dir)
path_units-OneLine none h = tt
path_units-OneLine (some d) h = units_of-OneLine d h

-- The value is not spelled like the marker.
abbrev pub IsUnmarked : Bytes → Type 0
IsUnmarked s = s ≢ marker

read_path-path_shown :
    (verify user : Units) (dir : Option Bytes) (command : Units)
    → Every IsBytes dir
    → Every IsUnmarked dir
    → Option.map read_value (path_shown (path_units dir))
      ≡ read_path (overflow verify user (path_units dir) command) dir
unfolding overflow
read_path-path_shown verify user none command h ne = refl
read_path-path_shown verify user (some d) command h ne =
    ap some (read_value-fitted max_cwd_display d h ne)

module _ (verify : Units) (user : Bytes) (dir : Option Bytes) (path : Bytes)
    (argv : List Bytes) where
  -- The report of a sheet of these values.
  abbrev pub report : PromptOverflow
  report = overflow verify (units_of user) (path_units dir) (utf16 (command_text path argv))

  pub read_sheet-reading :
      (style : PromptStyle)
      → OneLine verify
      → IsBytes user
      → Every IsBytes dir
      → IsBytes path
      → All IsBytes argv
      → IsUnmarked user
      → Every IsUnmarked dir
      → read_sheet (
          sheet_text style verify (units_of user) (path_units dir) (utf16 (command_text path argv)))
        ≡ some (reading style verify user dir (command_tokens path argv) report)
  unfolding overflow
  read_sheet-reading style hv hu hd hp ha nu nd =
      read_sheet-sheet_text style verify (units_of user) (path_units dir)
        (utf16 (command_text path argv)) hv (units_of-OneLine user hu) (path_units-OneLine dir hd)
        (IsAbove-OneLine _ (utf16-IsAbove _ (full_command_line_bytes-IsDrawn path argv hp ha)))
      ∙ rw
          (
            read_value-fitted max_user_display user hu nu,
            read_path-path_shown verify (units_of user) dir (utf16 (command_text path argv)) hd nd,
            read_command-fitted (budget_left verify (units_of user) (path_units dir)) path argv hp
                ha,
          )
          refl
