-- ===== src/Audit/Preview.antt =====
-- What the block of linux/sudowhat_audit/src/display.rs is to say, in bytes, and a reader that
-- gets it back from the block's text: lines, each with its label, each value unescaped.
use mathlib.Core.Option
use sudowhat.Prelude.{
  [], ◌∷◌, some, none, Bytes, Text, codes, ℕ, Option, List, if◌then◌else◌, is_empty, ◌==◌, ◌&&◌,
  not,
}
use sudowhat.Audit.Context.{find_kv, setting_true, runs_shell, strip_prefix}
use sudowhat.Escape.Reader.{read}
use sudowhat.Command.Words.{read_tokens}
use sudowhat.Utf8.{source_bytes}

-- The target user, the directory where the command starts, and the command as typed.
pub record Preview : Type 0 where
  pub user : Bytes
  pub directory : Option Bytes
  pub command : Option (List Bytes)

-- A value that is given and not empty.
abbrev pub given : Option Bytes → Option Bytes
given none = none
given (some []) = none
given (some (b ∷ v)) = some (b ∷ v)

abbrev pub or_else {ℓ} : {A : Type ℓ} → Option A → Option A → Option A
or_else none other = other
or_else (some a) other = some a

abbrev pub or_root : Option Bytes → Bytes
or_root none = codes "root"
or_root (some user) = user

unfoldable pub target_user : List Bytes → Bytes
target_user settings = or_root (given (find_kv settings (codes "runas_user")))

-- The directory of `-D`, or else the caller's, but in a login shell none.
unfoldable pub directory_of : List Bytes → List Bytes → Option Bytes
directory_of settings user_info = or_else (given (find_kv settings (codes "cmnd_cwd"))) (
    if setting_true settings (codes "login_shell")
    then none
    else given (find_kv user_info (codes "cwd")))

abbrev pub typed : List Bytes → Option (List Bytes)
typed [] = none
typed (a0 ∷ argv) = some (a0 ∷ argv)

-- Nothing is previewed where there is neither a command nor a shell.
unfoldable pub preview : List Bytes → List Bytes → List Bytes → Option Preview
unfolding target_user directory_of
preview settings user_info argv =
    if is_empty argv && not (runs_shell settings)
    then none
    else some record {
      user = target_user settings;
      directory = directory_of settings user_info;
      command = typed argv;
    }

-- The lines of a text, each ended by a line feed.
abbrev put_first : ℕ → List Text → List Text
put_first c [] = (c ∷ []) ∷ []
put_first c (r ∷ rs) = (c ∷ r) ∷ rs

unfoldable pub lines : Text → List Text
lines [] = []
lines (c ∷ t) = let rest = lines t in if c == b'\n' then [] ∷ rest else put_first c rest

abbrev pub run_as : Text
run_as = codes "sudowhat: run as: "

abbrev pub directory_label : Text
directory_label = codes "sudowhat: directory: "

abbrev pub input_label : Text
input_label = codes "sudowhat: input: "

abbrev pub value_bytes : Text → Bytes
value_bytes t = source_bytes (read t)

unfoldable pub read_command : Bytes → Option Bytes → List Text → Option Preview
read_command user dir [] = some record { user = user; directory = dir; command = none }
read_command user dir (r ∷ []) = elim (strip_prefix input_label r) [
  | some c ↦
      Option.map (λ tokens. record { user = user; directory = dir; command = some tokens })
        (read_tokens c)
  | none ↦ none
]
read_command user dir (_ ∷ _ ∷ _) = none

unfoldable pub read_directory : Bytes → List Text → Option Preview
unfolding read_command
read_directory user [] = read_command user none []
read_directory user (r ∷ rs) = elim (strip_prefix directory_label r) [
  | some d ↦ read_command user (some (value_bytes d)) rs
  | none ↦ read_command user none (r ∷ rs)
]

unfoldable pub read_lines : List Text → Option Preview
unfolding read_directory
read_lines [] = none
read_lines (r ∷ rs) = elim (strip_prefix run_as r) [
  | some u ↦ read_directory (value_bytes u) rs
  | none ↦ none
]

unfoldable pub read_block : Text → Option Preview
unfolding lines read_lines
read_block t = read_lines (lines t)

-- What is read of a block, if there is one: a block that cannot be read is not the same as none.
abbrev pub read_shown : Option Text → Option (Option Preview)
read_shown none = none
read_shown (some block) = some (read_block block)
