-- ===== src/Sheet/Reader.antt =====
-- A reader of the sheet, who knows its shape only: the title of a field stands alone on a line
-- behind a blank one, and its value on the line below. Nothing of plugin/PromptFormatter.m's layout
-- is used here but the titles and the marker.
use sudowhat.Sheet.Units.{Units, characters}
use sudowhat.Sheet.Layout.{see_terminal, ◌>>=◌}
use sudowhat.Escape.Reader.{read}
use sudowhat.Utf8.{source_bytes}
use sudowhat.Command.Words.{read_tokens}
use sudowhat.Gate.Lines.{split_on, is_newline}
use mathlib.Core.Option
use sudowhat.Prelude.{
  ◌&&◌, List, [], ◌∷◌, Bytes, Text, codes, Option, none, some, if◌then◌else◌, is_empty, bytes_eq,
}

-- What a reader learns. A value that the sheet leaves to the terminal is `none`.
pub record Reading : Type 0 where
  pub user : Option Bytes
  pub directory : Option (Option Bytes)
  pub command : Option (List Bytes)
  pub verify : Units
  pub closing : Units

unfoldable pub read_value : Units → Option Bytes
read_value v = if bytes_eq v see_terminal then none else some (source_bytes (read (characters v)))

-- The words of a shell; the marker is no command line.
unfoldable pub read_command : Units → Option (List Bytes)
read_command v = read_tokens (characters v)

-- The value of the field in front, and the lines behind it.
unfoldable pub take_field : Text → List Units → Option (Units × List Units)
take_field title (blank ∷ t ∷ v ∷ rest) =
    if is_empty blank && bytes_eq t title then some (v, rest) else none
take_field title _ = none

-- The verify line and the closing line, each behind a blank one.
unfoldable pub read_end : Units → Option Units → Units → List Units → Option Reading
unfolding read_value read_command
read_end user directory command (a ∷ verify ∷ b ∷ closing ∷ []) =
    if is_empty a && is_empty b
    then some record {
      user = read_value user;
      directory = Option.map read_value directory;
      command = read_command command;
      verify = verify;
      closing = closing;
    }
    else none
read_end user directory command _ = none

-- The field of the directory may be left out.
unfoldable pub read_directory : List Units → Option Units × List Units
unfolding take_field
read_directory rest = elim (take_field (codes "DIRECTORY") rest) [
  | some (d, behind) ↦ (some d, behind)
  | none ↦ (none, rest)
]

unfoldable pub read_fields : List Units → Option Reading
unfolding take_field read_directory read_end
read_fields [] = none
read_fields (header ∷ rest) = do
  (user, behind) ← take_field (codes "RUN AS") rest
  let fields = read_directory behind
  (command, end) ← take_field (codes "EXECUTE") fields.1
  read_end user fields.0 command end

unfoldable pub read_sheet : Units → Option Reading
unfolding read_fields
read_sheet sheet = read_fields (split_on is_newline sheet)
