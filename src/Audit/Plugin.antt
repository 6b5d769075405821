-- ===== src/Audit/Plugin.antt =====
-- The entry points of linux/sudowhat_audit/src/lib.rs. A C array is null, or its pointers to the
-- strings up to a null pointer; what the build sets in the environment is an argument.
use sudowhat.Prelude.{
  ℤ, pos, negsuc, [], ◌∷◌, true, false, some, none, Bytes, Text, codes, Option, ℕ, List, Bool, not,
  if◌then◌else◌, length, drop, ◌==◌, ◌/◌, ◌+◌,
}
use sudowhat.Utf8.{as_bytes}
use sudowhat.Audit.Tty.{System, Call, write_tty}
use sudowhat.Audit.Context.{find_kv, parse_uid, color_allowed}
use sudowhat.Audit.Block.{build_block}

abbrev pub CArray : Type 0
CArray = Option (List (Option Bytes))

-- The loop of `str_eq` over two texts of one length.
abbrev pub same_from : Bytes → Bytes → Bool
same_from [] b = true
same_from (x ∷ a) [] = false
same_from (x ∷ a) (y ∷ b) = let rest = same_from a b in if not (x == y) then false else rest

unfoldable pub str_eq : Text → Text → Bool
str_eq a b =
    if not (length (as_bytes a) == length (as_bytes b))
    then false
    else same_from (as_bytes a) (as_bytes b)

-- `AUDIT_DISPLAY_ON`, from the value of `SW_AUDIT_DISPLAY` in the build.
unfoldable pub audit_display_on : Option Text → Bool
unfolding str_eq
audit_display_on (some s) = not (str_eq s (codes "off"))
audit_display_on none = true

-- `ECHO_COLOR_ON`, from the value of `SW_AUDIT_ECHO_COLOR`; nothing reads it.
unfoldable pub echo_color_on : Option Text → Bool
unfolding str_eq
echo_color_on (some s) = str_eq s (codes "on")
echo_color_on none = true

-- The loop of `collect`, up to the null pointer.
abbrev pub collect_from : List (Option Bytes) → List Bytes
collect_from [] = []
collect_from (none ∷ arr) = []
collect_from (some s ∷ arr) = s ∷ collect_from arr

abbrev pub collect : CArray → ℤ → List Bytes
collect none start = []
collect (some arr) (negsuc k) = []
collect (some arr) (pos i) = collect_from (drop i arr)

abbrev pub api_version_major : ℕ
api_version_major = 1

-- `open` behind the root exemption: the block, if there is one, goes to the terminal.
unfoldable pub show_block :
    System → ℕ → List Bytes → List Bytes → List Bytes → List Bytes → Option (List Call)
show_block sys interrupts settings user_info argv envp =
    elim (build_block settings user_info argv (color_allowed envp)) [
      | some block ↦ write_tty sys (length (as_bytes block) + interrupts) (codes "/dev/tty") block
      | none ↦ some []
    ]

-- The `match` on the entry for `uid`: whether nothing is shown.
unfoldable pub exempt : Option Bytes → Bool
exempt none = true
exempt (some u) = parse_uid u == 0

-- What `open` does where the display is on; `interrupts` bounds the rounds of the write.
unfoldable pub open_display :
    System → ℕ → List Bytes → List Bytes → List Bytes → List Bytes → Option (List Call)
unfolding show_block exempt
open_display sys interrupts settings user_info argv envp =
    elim (exempt (find_kv user_info (codes "uid"))) [
      | true ↦ some []
      | false ↦ show_block sys interrupts settings user_info argv envp
    ]

-- `sudowhat_audit_open`: its result, and the calls of libc that it makes.
unfoldable pub audit_open :
    Option Text → System → ℕ → ℕ → CArray → CArray → ℤ → CArray → CArray → ℤ × Option (List Call)
unfolding audit_display_on open_display
audit_open display sys interrupts version settings user_info submit_optind submit_argv submit_envp =
    if not (version / 65536 == api_version_major)
    then (pos 0, some [])
    else if not (audit_display_on display)
    then (pos 1, some [])
    else (
      pos 1,
      open_display sys interrupts (collect settings (pos 0)) (collect user_info (pos 0))
          (collect submit_argv submit_optind) (collect submit_envp (pos 0)),
    )

-- `sudowhat_audit_close`, which changes nothing.
abbrev pub audit_close : ℤ → ℤ → Unit {0}
audit_close status_type status = tt

-- `sudowhat_audit_accept`: the plugin's name and type, the command's information, its arguments and
-- its environment.
abbrev pub audit_accept : Option Bytes → ℕ → CArray → CArray → CArray → ℤ
audit_accept plugin_name plugin_type command_info run_argv run_envp = pos 1

-- `sudowhat_audit_reject` and `sudowhat_audit_error`: with the message.
abbrev pub audit_reject : Option Bytes → ℕ → Option Bytes → CArray → ℤ
audit_reject plugin_name plugin_type audit_msg command_info = pos 1

abbrev pub audit_error : Option Bytes → ℕ → Option Bytes → CArray → ℤ
audit_error plugin_name plugin_type audit_msg command_info = pos 1
