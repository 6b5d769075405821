-- ===== src/Mac/Open.antt =====
-- `sudowhat_audit_open` of plugin/sudowhat_audit.m and the hooks beside it. Its result, and what it
-- does, are its value.
use sudowhat.Audit.Context.{find_kv, runs_shell, color_allowed}
use sudowhat.Audit.Plugin.{CArray, collect}
use sudowhat.Mac.Rows.{audit_row, color_dir, color_path_list, color_user}
use sudowhat.Mac.Values.{
  Allocator, audit_escape, audit_command_line, path_row_value, dir_row_value, Field,
}
use sudowhat.Sheet.Layout.{present}
use mathlib.Core.Option
use sudowhat.Prelude.{
  ℕ, ℤ, pos, List, [], ◌∷◌, ◌++◌, Bytes, Text, codes, Option, none, some, Bool, ◌&&◌, ◌==◌, not,
  if◌then◌else◌, is_empty, ◌%◌, ◌^◌, ◌/◌,
}

-- The tokens of the build, `SW_AUDIT_DISPLAY` and `SW_ECHO_COLOR`.
pub record AuditBuild : Type 0 where
  pub display : Bool
  pub echo_color : Bool

-- What the rest of the system answers: `strtoul` in base 10, and the verifier of signatures about
-- the approval plugin and the PAM module.
pub record World : Type 0 where
  pub strtoul : Bytes → ℕ
  pub plugin_signed : Bool
  pub pam_signed : Bool
  pub memory : Allocator

-- What `open` does: a warning in the log, or a block for `sw_audit_write_tty`.
pub data Effect : Type 0 where
  warned : Text → Effect
  displayed : Text → Effect

abbrev pub api_major : ℕ
api_major = 1

-- `(uid_t)strtoul(...)`, of 32 bits.
abbrev pub to_uid : World → Bytes → ℕ
to_uid world s = world.strtoul s % 2 ^ 32

abbrev pub has_command_word : List Bytes → Bool
has_command_word words = not (is_empty words)

-- A row, where there is a value.
abbrev pub append_row : Text → Option Text → Bool → Text
append_row label none color = []
append_row label (some value) color = audit_row label value color

abbrev pub tinted : Bool → (Text → Text) → Text → Text
tinted color paint value = if color then paint value else value

abbrev pub painted : Bool → (Text → Text) → Option Text → Option Text
painted color paint value = Option.map (tinted color paint) value

-- The assembly of the block: user, directory, input and PATH.
unfoldable pub assemble : Bool → Text → Option Text → Option Text → Option Text → Text
unfolding audit_row color_user color_dir color_path_list
assemble color user dir command path =
    audit_row (codes "run as:") (tinted color color_user user) color
    ++ (append_row (codes "directory:") (painted color color_dir dir) color
        ++ (append_row (codes "input:") command color
            ++ append_row (codes "PATH:") (painted color color_path_list path) color))

-- The text of the target user; `none` where memory is refused.
unfoldable pub audit_user_line : Allocator → List Bytes → Option Text
unfolding audit_escape
audit_user_line mem settings = elim (present (find_kv settings (codes "runas_user"))) [
  | some runas ↦ audit_escape mem Field.user (some runas)
  | none ↦ some (codes "root")
]

-- The command of the block: `none` where nothing is shown.
unfoldable pub audit_command : Allocator → List Bytes → List Bytes → Bool → Option (Option Text)
unfolding audit_command_line
audit_command mem settings words color =
    if has_command_word words
    then elim (audit_command_line mem words color) [
      | some line ↦ if is_empty line then none else some (some line)
      | none ↦ none
    ]
    else if runs_shell settings
    then some none
    else none

-- The block, where neither the command nor the user is missing.
abbrev pub show_values :
    Bool → Option (Option Text) → Option Text → Option Text → Option Text → List Effect
show_values color none user dir path = []
show_values color (some command) none dir path = []
show_values color (some command) (some user) dir path =
    displayed (assemble color user dir command path) ∷ []

-- Behind the signatures.
unfoldable pub show_command :
    AuditBuild → Allocator → List Bytes → List Bytes → List Bytes → List Bytes → List Effect
unfolding audit_command audit_user_line assemble dir_row_value path_row_value
show_command build mem settings user_info words envp =
    let color = color_allowed envp in
    show_values color (audit_command mem settings words (color && build.echo_color))
      (audit_user_line mem settings) (dir_row_value mem settings user_info)
      (path_row_value mem words envp)

-- The root exemption and the two signatures: whether the caller is root, whether the approval plugin
-- and the PAM module are our own, and what is done if they are.
unfoldable pub gated : Bool → Bool → Bool → List Effect → List Effect
gated root plugin_signed pam_signed effects =
    if root
    then []
    else if not plugin_signed
    then warned
        (codes "sudowhat_audit: approval plugin signature invalid; suppressing terminal display")
      ∷ []
    else if not pam_signed
    then warned
        (codes "sudowhat_audit: pam_sudowhat signature invalid; suppressing terminal display")
      ∷ []
    else effects

-- `sudowhat_audit_open`, behind the test of the display.
unfoldable pub open_shown :
    AuditBuild → World → List Bytes → List Bytes → List Bytes → List Bytes → List Effect
unfolding show_command gated
open_shown build world settings user_info words envp = elim (find_kv user_info (codes "uid")) [
  | none ↦ []
  | some uid ↦
      gated (to_uid world uid == 0) world.plugin_signed world.pam_signed
        (show_command build world.memory settings user_info words envp)
]

unfoldable pub mac_audit_open :
    AuditBuild → World → ℕ → CArray → CArray → ℤ → CArray → CArray → ℤ × List Effect
unfolding open_shown
mac_audit_open build world version settings user_info submit_optind submit_argv submit_envp =
    if not (version / 65536 == api_major)
    then (pos 0, [])
    else if not build.display
    then (pos 1, [])
    else (
      pos 1,
      open_shown build world (collect settings (pos 0)) (collect user_info (pos 0))
          (collect submit_argv submit_optind) (collect submit_envp (pos 0)),
    )

-- `sudowhat_audit_close`, `_accept`, `_reject` and `_error`.
abbrev pub mac_audit_close : ℤ → ℤ → Unit {0}
mac_audit_close status_type status = tt

abbrev pub mac_audit_accept : Option Bytes → ℕ → CArray → CArray → CArray → ℤ
mac_audit_accept plugin_name plugin_type command_info run_argv run_envp = pos 1

abbrev pub mac_audit_reject : Option Bytes → ℕ → Option Bytes → CArray → ℤ
mac_audit_reject plugin_name plugin_type audit_msg command_info = pos 1

abbrev pub mac_audit_error : Option Bytes → ℕ → Option Bytes → CArray → ℤ
mac_audit_error plugin_name plugin_type audit_msg command_info = pos 1
