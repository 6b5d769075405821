-- ===== src/Audit/Shown.antt =====
-- The block of the audit plugin, read back.
use mathlib.Core.Option
use sudowhat.Command.Words.{read_tokens-full_command_line_bytes}
use sudowhat.Escape.RoundTrip.{source_bytes-read-escape_bytes}
use sudowhat.Prelude.{
  Every, [], ◌∷◌, ◌≡◌, false, some, none, refl, Bytes, Text, codes, All, IsBytes, Option, List,
  ◌++◌, append_assoc, arith, All-append, ◌∙◌, ap, All-map, sym, append-nil, ℕ, ◌≤◌, ◌<◌,
}
use sudowhat.Audit.Block.{escape, command_line, row, push_row}
use sudowhat.Audit.Preview.{
  directory_label, input_label, run_as, value_bytes, lines, read_command, read_directory,
  read_lines,
}
use sudowhat.Audit.Readable.{lines-append, command_tokens_typed}
use sudowhat.Escape.Clean.{ascii-IsVisible, IsVisible, escape_bytes-IsVisible}

-- A row with no emphasis.
abbrev pub line_of : Text → Text → Text
line_of label value = label ++ (value ++ b'\n' ∷ [])

pub lines-row :
    (label value rest : Text)
    → All IsVisible label
    → All IsVisible value
    → lines (line_of label value ++ rest) ≡ (label ++ value) ∷ lines rest
lines-row label value rest hl hv =
    ap lines (
      append_assoc label (value ++ b'\n' ∷ []) rest
      ∙ ap (λ t. label ++ t) (append_assoc value (b'\n' ∷ []) rest)
      ∙ sym (append_assoc label value (b'\n' ∷ rest)))
    ∙ lines-append (label ++ value) rest (All-append IsVisible label value hl hv)

lines-last :
    (label value : Text)
    → All IsVisible label
    → All IsVisible value
    → lines (line_of label value) ≡ (label ++ value) ∷ []
unfolding lines
lines-last label value hl hv =
    ap lines (sym (append-nil (line_of label value))) ∙ lines-row label value [] hl hv

abbrev pub IsPrintable : ℕ → Type 0
IsPrintable c = (0x20 ≤ c) × (c < 0x7F)

pub IsPrintable-IsVisible : (t : Text) → All IsPrintable t → All IsVisible t
IsPrintable-IsVisible t = All-map {P = IsPrintable} (λ c h. ascii-IsVisible c h.0 h.1) t

run_as-IsVisible : All IsVisible run_as
run_as-IsVisible = IsPrintable-IsVisible run_as (omega arith)

directory_label-IsVisible : All IsVisible directory_label
directory_label-IsVisible = IsPrintable-IsVisible directory_label (omega arith)

input_label-IsVisible : All IsVisible input_label
input_label-IsVisible = IsPrintable-IsVisible input_label (omega arith)

pub value_bytes-escape : (s : Bytes) → IsBytes s → value_bytes (escape s) ≡ s
unfolding escape
value_bytes-escape s h = source_bytes-read-escape_bytes s h

pub escape-IsVisible : (s : Bytes) → IsBytes s → All IsVisible (escape s)
unfolding escape
escape-IsVisible s h = escape_bytes-IsVisible s [] h tt

-- The line of a command, if there is one.
abbrev pub input_lines : Option Text → List Text
input_lines none = []
input_lines (some c) = (input_label ++ c) ∷ []

abbrev pub directory_lines : Option Text → List Text
directory_lines none = []
directory_lines (some d) = (directory_label ++ d) ∷ []

pub read_lines-user :
    (user : Bytes) (rs : List Text)
    → IsBytes user
    → read_lines ((run_as ++ escape user) ∷ rs) ≡ read_directory user rs
unfolding read_lines
read_lines-user user rs h = ap (λ u. read_directory u rs) (value_bytes-escape user h)

read_directory-label :
    (user d : Bytes) (rs : List Text)
    → IsBytes d
    → read_directory user ((directory_label ++ escape d) ∷ rs) ≡ read_command user (some d) rs
unfolding read_directory
read_directory-label user d rs h = ap (λ v. read_command user (some v) rs) (value_bytes-escape d h)

-- The lines of a block.
pub lines-rows :
    (user : Text) (dir command : Option Text)
    → All IsVisible user
    → Every (All IsVisible) dir
    → Every (All IsVisible) command
    → lines (
        push_row false
          (codes "input:")
          command
          (push_row false (codes "directory:") dir (row false (codes "run as:") user)))
      ≡ (run_as ++ user) ∷ (directory_lines dir ++ input_lines command)
unfolding push_row row
lines-rows user none none hu hd hc = lines-last run_as user run_as-IsVisible hu
lines-rows user none (some c) hu hd hc =
    lines-row run_as user (line_of input_label c) run_as-IsVisible hu
    ∙ ap (λ r. (run_as ++ user) ∷ r) (lines-last input_label c input_label-IsVisible hc)
lines-rows user (some d) none hu hd hc =
    lines-row run_as user (line_of directory_label d) run_as-IsVisible hu
    ∙ ap (λ r. (run_as ++ user) ∷ r) (lines-last directory_label d directory_label-IsVisible hd)
lines-rows user (some d) (some c) hu hd hc =
    ap lines
      (append_assoc (line_of run_as user) (line_of directory_label d) (line_of input_label c))
    ∙ lines-row run_as user (line_of directory_label d ++ line_of input_label c) run_as-IsVisible hu
    ∙ ap (λ r. (run_as ++ user) ∷ r)
        (lines-row directory_label d (line_of input_label c) directory_label-IsVisible hd
          ∙ ap (λ r. (directory_label ++ d) ∷ r)
              (lines-last input_label c input_label-IsVisible hc))

pub read_directory-lines :
    (user : Bytes) (dir : Option Bytes) (command : Option Text)
    → Every IsBytes dir
    → read_directory user (directory_lines (Option.map escape dir) ++ input_lines command)
      ≡ read_command user dir (input_lines command)
unfolding read_directory
read_directory-lines user none none h = refl
read_directory-lines user none (some c) h = refl
read_directory-lines user (some d) command h = read_directory-label user d (input_lines command) h

-- The value that the line of a command is read as.
pub read_command-tokens :
    (user : Bytes) (dir : Option Bytes) (a0 : Bytes) (argv : List Bytes)
    → IsBytes a0
    → All IsBytes argv
    → read_command user dir (input_lines (command_line (a0 ∷ argv)))
      ≡ some record { user = user; directory = dir; command = some (a0 ∷ argv) }
unfolding read_command command_line
read_command-tokens user dir a0 argv h hs =
    ap (Option.map (λ ts. record { user = user; directory = dir; command = some ts })) (
      read_tokens-full_command_line_bytes a0 (a0 ∷ argv) h (h, hs)
      ∙ ap some (command_tokens_typed a0 argv))
