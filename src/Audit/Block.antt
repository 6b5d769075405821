-- ===== src/Audit/Block.antt =====
-- `build_block` of linux/sudowhat_audit/src/display.rs and the lines it is made of.
use sudowhat.Prelude.{
  [], ◌∷◌, some, none, Bytes, Text, codes, Bool, List, Option, if◌then◌else◌, ◌++◌, is_empty, not,
}
use sudowhat.Audit.Context.{find_kv, setting_true, runs_shell}
use sudowhat.Command.{full_command_line_bytes}
use sudowhat.Escape.{escape_bytes}

unfoldable pub escape : Bytes → Text
escape s = escape_bytes s []

unfoldable pub command_line : List Bytes → Option Text
command_line [] = none
command_line (a0 ∷ argv) = some (full_command_line_bytes a0 (a0 ∷ argv) [])

-- The `match` of `dir_line`: the setting `cmnd_cwd`, or what the other two arms give.
abbrev pub chosen_dir : Option Bytes → Option Bytes → Option Bytes
chosen_dir none others = others
chosen_dir (some d) others = if not (is_empty d) then some d else others

unfoldable pub start_dir : List Bytes → List Bytes → Option Bytes
start_dir settings user_info =
    chosen_dir (find_kv settings (codes "cmnd_cwd")) (
      if setting_true settings (codes "login_shell") then none else find_kv user_info (codes "cwd"))

-- The end of `dir_line`.
unfoldable pub dir_value : Option Bytes → Option Text
unfolding escape
dir_value none = none
dir_value (some dir) = if is_empty dir then none else some (escape dir)

unfoldable pub dir_line : List Bytes → List Bytes → Option Text
unfolding start_dir dir_value
dir_line settings user_info = dir_value (start_dir settings user_info)

-- The `match` that makes `command`: `none` where the code returns `None`.
abbrev pub command_value : Bool → Option Text → Option (Option Text)
command_value shell (some c) = if is_empty c then none else some (some c)
command_value shell none = if shell then some none else none

unfoldable pub shown_command : List Bytes → List Bytes → Option (Option Text)
unfolding command_line
shown_command settings argv = command_value (runs_shell settings) (command_line argv)

-- The `match` that makes `user_line`.
unfoldable pub user_value : Option Bytes → Text
unfolding escape
user_value none = codes "root"
user_value (some r) = if not (is_empty r) then escape r else codes "root"

unfoldable pub user_line : List Bytes → Text
unfolding user_value
user_line settings = user_value (find_kv settings (codes "runas_user"))

-- `lb` and `lo`.
abbrev pub label_on : Bool → Text
label_on color = if color then 0x1B ∷ codes "[1m" else []

abbrev pub label_off : Bool → Text
label_off color = if color then 0x1B ∷ codes "[0m" else []

-- The argument of each `push_str`.
unfoldable pub row : Bool → Text → Text → Text
row color label value =
    codes "sudowhat: "
    ++ (label_on color ++ (label ++ (label_off color ++ b' ' ∷ (value ++ b'\n' ∷ []))))

-- The `if let` around a row.
unfoldable pub push_row : Bool → Text → Option Text → Text → Text
unfolding row
push_row color label none block = block
push_row color label (some value) block = block ++ row color label value

unfoldable pub build_block : List Bytes → List Bytes → List Bytes → Bool → Option Text
unfolding shown_command user_line dir_line row push_row
build_block settings user_info argv color = elim (shown_command settings argv) [
  | some command ↦ some (
      push_row color (codes "input:") command (
        push_row color (codes "directory:") (dir_line settings user_info)
          (row color (codes "run as:") (user_line settings))))
  | none ↦ none
]
