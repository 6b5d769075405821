-- ===== src/Audit/Display.antt =====
-- `build_block` against what it is to say.
use mathlib.Core.Option
use mathlib.Core.Option.{some-injective}
use mathlib.Core.List.{cons-ne-nil}
use sudowhat.Audit.Values.{target_user-IsBytes, directory_of-IsBytes}
use sudowhat.Audit.Context.{runs_shell}
use sudowhat.Audit.Readable.{dir_line-directory_of, user_line-target_user, command_tokens_typed}
use sudowhat.Command.{full_command_line_bytes}
use sudowhat.Command.Visible.{full_command_line_bytes-IsVisible}
use sudowhat.Escape.Clean.{IsVisible}
use sudowhat.Command.Words.{read_tokens-full_command_line_bytes, read_tokens}
use sudowhat.Prelude.{
  Every, true, [], ◌∷◌, ◌≡◌, false, some, none, refl, Bytes, Text, codes, List, Option, IsBytes,
  All, is_empty, ◌∙◌, ap, sym, Bool, ◌++◌, if◌then◌else◌, not,
}
use sudowhat.Audit.Block.{
  command_value, user_line, dir_line, escape, command_line, shown_command, push_row, row,
  build_block,
}
use sudowhat.Audit.Preview.{
  Preview, read_shown, directory_of, target_user, read_command, preview, read_block, read_lines,
}
use sudowhat.Audit.Shown.{
  directory_lines, read_directory-lines, read_lines-user, read_command-tokens, input_lines,
  escape-IsVisible, lines-rows,
}

-- A text that is read as tokens is not empty.
pub is_empty-read_tokens :
    (t : Text) (a0 : Bytes) (argv : List Bytes)
    → read_tokens t ≡ some (a0 ∷ argv)
    → is_empty t ≡ false
unfolding read_tokens sudowhat.Quote.Shell.shell_words
is_empty-read_tokens [] a0 argv h = absurd (cons-ne-nil a0 argv (sym (some-injective _ _ h)))
is_empty-read_tokens (c ∷ t) a0 argv h = refl

pub command_line-not_empty :
    (a0 : Bytes) (argv : List Bytes)
    → IsBytes a0
    → All IsBytes argv
    → is_empty (full_command_line_bytes a0 (a0 ∷ argv) []) ≡ false
command_line-not_empty a0 argv h hs = is_empty-read_tokens _ a0 argv (
    read_tokens-full_command_line_bytes a0 (a0 ∷ argv) h (h, hs)
    ∙ ap some (command_tokens_typed a0 argv))

pub command_line-IsVisible :
    (argv : List Bytes) → All IsBytes argv → Every (All IsVisible) (command_line argv)
unfolding command_line
command_line-IsVisible [] h = tt
command_line-IsVisible (a0 ∷ argv) h = full_command_line_bytes-IsVisible a0 (a0 ∷ argv) [] h.0 h tt

pub escape-Every :
    (dir : Option Bytes) → Every IsBytes dir → Every (All IsVisible) (Option.map escape dir)
escape-Every none h = tt
escape-Every (some d) h = escape-IsVisible d h

-- The block for a command, or for none, is read as the values that it was made of.
read_block-rows :
    (settings user_info : List Bytes) (command : Option Text)
    → All IsBytes settings
    → All IsBytes user_info
    → Every (All IsVisible) command
    → read_block (
        push_row false (codes "input:") command (
          push_row false
            (codes "directory:")
            (dir_line settings user_info)
            (row false (codes "run as:") (user_line settings))))
      ≡ read_command (target_user settings) (directory_of settings user_info) (input_lines command)
unfolding read_block
read_block-rows settings user_info command hs hu hc =
    let user = target_user settings in
    let dir = directory_of settings user_info in
    let hd = directory_of-IsBytes settings user_info hs hu in
    let ht = target_user-IsBytes settings hs in
    rw (user_line-target_user settings, dir_line-directory_of settings user_info)
      (ap read_lines (
          lines-rows (escape user) (Option.map escape dir) command (escape-IsVisible user ht)
            (escape-Every dir hd) hc)
        ∙ read_lines-user user (directory_lines (Option.map escape dir) ++ input_lines command) ht
        ∙ read_directory-lines user dir command hd)

-- Where the arrays hold bytes, a block is built exactly where there is a command or a shell, and,
-- built without emphasis, it is read back as what it is to say: the target user, the directory and
-- every word of the command as typed, byte for byte.
pub read_block-build_block :
    (settings user_info argv : List Bytes)
    → All IsBytes settings
    → All IsBytes user_info
    → All IsBytes argv
    → read_shown (build_block settings user_info argv false)
      ≡ Option.map some (preview settings user_info argv)
unfolding build_block shown_command preview command_line read_command
read_block-build_block settings user_info [] hs hu ha = at_shell (runs_shell settings)
  where
    rows : Option Text → Text
    rows command = push_row false (codes "input:") command (
        push_row false (codes "directory:") (dir_line settings user_info)
          (row false (codes "run as:") (user_line settings)))

    at_shell :
        (shell : Bool)
        → read_shown
            (elim (command_value shell none) [ some command ↦ some (rows command) | none ↦ none ])
          ≡ Option.map some (
              if not shell
              then none
              else some record {
                user = target_user settings;
                directory = directory_of settings user_info;
                command = none;
              })
    at_shell true = ap some (read_block-rows settings user_info none hs hu tt)
    at_shell false = refl
read_block-build_block settings user_info (a0 ∷ argv) hs hu ha =
    ap at_command (command_line-not_empty a0 argv ha.0 ha.1)
    ∙ ap some (
        read_block-rows settings user_info (command_line (a0 ∷ argv)) hs hu
          (command_line-IsVisible (a0 ∷ argv) ha)
        ∙ read_command-tokens (target_user settings) (directory_of settings user_info) a0 argv ha.0
            ha.1)
  where
    at_command : Bool → Option (Option Preview)
    at_command nothing =
        read_shown (elim (if nothing then none else some (command_line (a0 ∷ argv))) [
          | some command ↦ some (
              push_row false (codes "input:") command (
                push_row false (codes "directory:") (dir_line settings user_info)
                  (row false (codes "run as:") (user_line settings))))
          | none ↦ none
        ])
