-- ===== src/Gate/ExecLine.antt =====
-- The execute: line of plugin/sudowhat_approval.m: `sw_exec_command_line`, `sw_exec_escape`,
-- `sw_runas_name` and `sw_format_exec_line`, over the memory that the system grants.
use sudowhat.Sheet.Value.{two_calls, arguments}
use sudowhat.Sheet.Layout.{present}
use sudowhat.Audit.Context.{find_kv}
use sudowhat.Ffi.{sw_full_command_line, sw_full_command_line_colored}
use sudowhat.Gate.Host.{ExecLayout, grouped, solo}
use sudowhat.Mac.Open.{tinted}
use sudowhat.Mac.Rows.{color_user}
use sudowhat.Mac.Values.{Allocator, Field, Renderer, audit_escape, or_plain, string_text}
use mathlib.Core.Option
use sudowhat.Prelude.{
  ℕ, List, [], ◌∷◌, ◌++◌, map, Bytes, Text, codes, length, Option, none, some, Bool, ◌&&◌,
  if◌then◌else◌, is_empty,
}

unfoldable pub exec_render :
    Allocator
    → Field
    → Renderer
    → Bytes
    → Option (List (Option Bytes))
    → Option (List ℕ)
    → ℕ
    → Option Text
unfolding two_calls
exec_render mem field render path argv lens n = string_text (
    two_calls (λ buf cap. render (some path) (length path) argv lens n buf cap (some 0))
      (mem.malloc field))

-- The two renderers: the coloured one first, where there is to be colour.
unfoldable pub exec_value :
    Allocator
    → Renderer
    → Renderer
    → Bytes
    → Option (List (Option Bytes))
    → Option (List ℕ)
    → ℕ
    → Bool
    → Option Text
unfolding exec_render
exec_value mem colored_fn plain_fn path argv lens n color =
    let fallback = exec_render mem Field.plain plain_fn path argv lens n in
    if color
    then or_plain (exec_render mem Field.colored colored_fn path argv lens n) fallback
    else fallback

-- No array is allocated for no argument.
unfoldable pub exec_arrays :
    Allocator → Renderer → Renderer → Bytes → List Bytes → Bool → Option Text
unfolding exec_value
exec_arrays mem colored_fn plain_fn path [] color =
    exec_value mem colored_fn plain_fn path none none 0 color
exec_arrays mem colored_fn plain_fn path (a ∷ argv) color =
    let n = length (a ∷ argv) in
    if mem.argv n && mem.lens n
    then exec_value mem colored_fn plain_fn path (some (map some (a ∷ argv)))
        (some (map length (a ∷ argv))) n color
    else none

unfoldable pub exec_command_line_with :
    Allocator → Renderer → Renderer → Option Bytes → Option (List Bytes) → Bool → Option Text
unfolding exec_arrays
exec_command_line_with mem colored_fn plain_fn none argv color = none
exec_command_line_with mem colored_fn plain_fn (some path) argv color =
    exec_arrays mem colored_fn plain_fn path (arguments argv) color

unfoldable pub exec_command_line :
    Allocator → Option Bytes → Option (List Bytes) → Bool → Option Text
unfolding exec_command_line_with
exec_command_line mem path argv color =
    exec_command_line_with mem sw_full_command_line_colored sw_full_command_line path argv color

-- The same code as the audit plugin's.
abbrev pub exec_escape : Allocator → Option Bytes → Option Text
exec_escape mem input = audit_escape mem Field.user input

-- The name of the target user: the one sudo resolved, or what `getpwuid(0)` names, if anything.
unfoldable pub runas_name : List Bytes → Option Bytes → Bytes
runas_name command_info pw_name = elim (present (find_kv command_info (codes "runas_user"))) [
  | some user ↦ user
  | none ↦ elim pw_name [ some name ↦ name | none ↦ codes "root" ]
]

abbrev pub bold : Bool → Text → Text
bold color label = if color then 0x1B ∷ (codes "[1m" ++ (label ++ 0x1B ∷ codes "[0m")) else label

-- Only a line on its own names the user.
abbrev pub named_user : ExecLayout → Option Bytes → Option Bytes
named_user solo runas = present runas
named_user grouped runas = none

-- What stands in front of the value where no user is named, and what behind.
abbrev pub exec_prefix : ExecLayout → Bool → Text
exec_prefix solo color = codes "sudowhat: " ++ (bold color (codes "execute:") ++ codes " ")
exec_prefix grouped color = codes "sudowhat: " ++ (bold color (codes "execute:") ++ codes "    ")

abbrev pub exec_ending : ExecLayout → Text
exec_ending solo = []
exec_ending grouped = b'\n' ∷ []

-- What stands in front of the value where the user is named.
abbrev pub as_prefix : Text → Bool → Text
as_prefix user color =
    codes "sudowhat: "
    ++ (bold color (codes "execute as")
        ++ (codes " " ++ (tinted color color_user user ++ (bold color (codes ":") ++ codes " "))))

-- The frame around the value.
unfoldable pub exec_frame : Allocator → ExecLayout → Option Bytes → Bool → Text → Option Text
unfolding audit_escape
exec_frame mem layout runas color value = elim (named_user layout runas) [
  | some name ↦
      Option.map (λ user. as_prefix user color ++ (value ++ b'\n' ∷ []))
        (exec_escape mem (some name))
  | none ↦ some (exec_prefix layout color ++ (value ++ b'\n' ∷ exec_ending layout))
]

unfoldable pub format_exec_line :
    Allocator
    → Option Bytes
    → Option (List Bytes)
    → ExecLayout
    → Option Bytes
    → Bool
    → Bool
    → Option Text
unfolding exec_command_line exec_frame
format_exec_line mem path argv layout runas frame_color value_color =
    elim (exec_command_line mem path argv value_color) [
      | some value ↦ if is_empty value then none else exec_frame mem layout runas frame_color value
      | none ↦ none
    ]
