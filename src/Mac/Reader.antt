-- ===== src/Mac/Reader.antt =====
-- A reader of the macOS block: its lines, each with its label and the gutter behind it.
use sudowhat.Audit.Preview.{Preview, lines, value_bytes}
use sudowhat.Audit.Context.{strip_prefix}
use sudowhat.Command.Words.{read_tokens}
use sudowhat.Color.Terminal.{strip_sgr}
use mathlib.Core.Option
use sudowhat.Prelude.{List, [], ◌∷◌, Bytes, Text, codes, Option, none, some}

abbrev pub user_label : Text
user_label = codes "sudowhat: run as:     "

abbrev pub dir_label : Text
dir_label = codes "sudowhat: directory:  "

abbrev pub command_label : Text
command_label = codes "sudowhat: input:      "

abbrev pub path_label : Text
path_label = codes "sudowhat: PATH:       "

-- The value of the row in front, if it has the label, and the rows behind it.
unfoldable pub take_row : Text → List Text → Option Text × List Text
take_row label [] = (none, [])
take_row label (r ∷ rs) = elim (strip_prefix label r) [
  | some value ↦ (some value, rs)
  | none ↦ (none, r ∷ rs)
]

-- The texts of a block's rows.
pub record Rows : Type 0 where
  pub user : Text
  pub dir : Option Text
  pub command : Option Text
  pub path : Option Text

abbrev only_if_done : List Text → Rows → Option Rows
only_if_done [] rows = some rows
only_if_done (r ∷ rs) rows = none

unfoldable pub read_rows : List Text → Option Rows
unfolding take_row
read_rows rs =
    let first = take_row user_label rs in
    let second = take_row dir_label first.1 in
    let third = take_row command_label second.1 in
    let fourth = take_row path_label third.1 in
    elim first.0 [
      | some user ↦
          only_if_done fourth.1
            (record { user = user; dir = second.0; command = third.0; path = fourth.0 })
      | none ↦ none
    ]

-- What the rows say, besides the PATH.
abbrev pub say : Rows → Option (List Bytes) → Preview
say rows command = record {
  user = value_bytes rows.user;
  directory = Option.map value_bytes rows.dir;
  command = command;
}

unfoldable pub told : Rows → Option Text → Option (Preview × Option Bytes)
told rows none = some (say rows none, Option.map value_bytes rows.path)
told rows (some line) =
    Option.map (λ tokens. (say rows (some tokens), Option.map value_bytes rows.path))
      (read_tokens line)

-- What is read off a terminal: the preview, and the PATH that is disclosed.
unfoldable pub read_mac_block : Text → Option (Preview × Option Bytes)
unfolding read_rows told
read_mac_block block = elim (read_rows (lines (strip_sgr block))) [
  | some rows ↦ told rows rows.command
  | none ↦ none
]
