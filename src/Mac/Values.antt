-- ===== src/Mac/Values.antt =====
-- The values of the block in plugin/sudowhat_audit.m: `sw_audit_escape`, `sw_audit_render`,
-- `sw_audit_command_line` and the values of the rows, over the memory that the system grants. An
-- array is its entries up to the `NULL`.
use sudowhat.Sheet.Units.{Units, characters}
use sudowhat.Sheet.Value.{two_calls}
use sudowhat.Sheet.Layout.{present}
use sudowhat.Audit.Context.{find_kv, setting_true}
use sudowhat.Ffi.{
  Written, sw_escape_control, sw_full_command_line, sw_full_command_line_colored_dim,
}
use mathlib.Core.Option
use sudowhat.Prelude.{
  ℕ, List, [], ◌∷◌, map, Bytes, Text, codes, length, Option, none, some, Bool, ◌&&◌, ◌||◌, ◌==◌,
  not, if◌then◌else◌, is_empty, false,
}

-- The values for which a buffer is allocated.
pub data Field : Type 0 where
  user : Field
  directory : Field
  colored : Field
  plain : Field
  search_path : Field

-- What `malloc` answers for the buffer of a field, and whether `calloc` grants the two arrays of
-- `sw_audit_command_line_with` for a count.
pub record Allocator : Type 0 where
  pub malloc : Field → ℕ → Option Bytes
  pub argv : ℕ → Bool
  pub lens : ℕ → Bool

-- The characters of a string, if there is one.
abbrev pub string_text : Option Units → Option Text
string_text = Option.map characters

unfoldable pub audit_escape : Allocator → Field → Option Bytes → Option Text
unfolding two_calls characters
audit_escape mem field none = some []
audit_escape mem field (some s) = string_text (
    two_calls (λ buf cap. sw_escape_control (some s) (length s) buf cap (some 0))
      (mem.malloc field))

-- `sw_cmdline_fn`.
abbrev pub Renderer : Type 0
Renderer =
    Option Bytes
    → ℕ
    → Option (List (Option Bytes))
    → Option (List ℕ)
    → ℕ
    → Option Bytes
    → ℕ
    → Option ℕ
    → Written

unfoldable pub audit_render : Allocator → Field → Renderer → Bytes → List Bytes → Option Text
unfolding two_calls characters
audit_render mem field render path words = string_text (
    two_calls
      (λ buf cap.
        render (some path) (length path) (some (map some words)) (some (map length words))
          (length words) buf cap (some 0))
      (mem.malloc field))

-- The coloured text, or else the plain one.
abbrev pub or_plain : Option Text → Option Text → Option Text
or_plain none fallback = fallback
or_plain (some t) fallback = some t

unfoldable pub command_line_with : Allocator → Renderer → Renderer → List Bytes → Bool → Option Text
unfolding audit_render
command_line_with mem colored_fn plain_fn [] color = none
command_line_with mem colored_fn plain_fn (a0 ∷ words) color =
    let n = length (a0 ∷ words) in
    let fallback = audit_render mem plain plain_fn a0 (a0 ∷ words) in
    if mem.argv n && mem.lens n
    then (if color
        then or_plain (audit_render mem colored colored_fn a0 (a0 ∷ words)) fallback
        else fallback)
    else none

unfoldable pub audit_command_line : Allocator → List Bytes → Bool → Option Text
unfolding command_line_with
audit_command_line mem words color =
    command_line_with mem sw_full_command_line_colored_dim sw_full_command_line words color

abbrev pub has_slash : Bytes → Bool
has_slash [] = false
has_slash (b ∷ s) = b == b'/' || has_slash s

unfoldable pub is_bare_name : Option Bytes → Bool
is_bare_name none = false
is_bare_name (some cmd) = not (is_empty cmd) && not (has_slash cmd)

-- A value with no characters makes no row.
abbrev pub nonempty : Option Text → Option Text
nonempty none = none
nonempty (some value) = if is_empty value then none else some value

abbrev pub escape_present : Allocator → Field → Option Bytes → Option Text
escape_present mem field none = none
escape_present mem field (some s) = nonempty (audit_escape mem field (some s))

-- The first of the words.
abbrev pub command_word : List Bytes → Option Bytes
command_word [] = none
command_word (a0 ∷ words) = some a0

unfoldable pub path_row_value : Allocator → List Bytes → List Bytes → Option Text
unfolding is_bare_name audit_escape
path_row_value mem words envp =
    if is_bare_name (command_word words)
    then escape_present mem search_path (present (find_kv envp (codes "PATH")))
    else none

abbrev pub or_cwd : Option Bytes → Option Bytes → Option Bytes
or_cwd none cwd = cwd
or_cwd (some dir) cwd = some dir

unfoldable pub dir_row_value : Allocator → List Bytes → List Bytes → Option Text
unfolding audit_escape
dir_row_value mem settings user_info = escape_present mem directory (
    or_cwd (present (find_kv settings (codes "cmnd_cwd"))) (
      if setting_true settings (codes "login_shell")
      then none
      else present (find_kv user_info (codes "cwd"))))
