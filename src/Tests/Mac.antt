-- ===== src/Tests/Mac.antt =====
-- The macOS audit plugin at concrete arrays of sudo.
use sudowhat.Gate.ExecLine.{format_exec_line}
use sudowhat.Gate.ExecRead.{front, read_exec_line}
use sudowhat.Gate.ExecTold.{read_exec_line-format_exec_line}
use sudowhat.Gate.Host.{solo}
use sudowhat.Command.{command_tokens}
use sudowhat.Mac.Searched.{searched}
use sudowhat.Utf8.{as_bytes}
use sudowhat.Audit.Plugin.{CArray}
use sudowhat.Color.Terminal.{strip_sgr}
use sudowhat.Audit.Block.{build_block}
use sudowhat.Audit.Context.{runs_shell, find_kv, setting_true}
use sudowhat.Audit.Preview.{Preview, preview, read_shown}
use sudowhat.Ffi.{sw_full_command_line, sw_full_command_line_colored_dim}
use sudowhat.Mac.Fallback.{command_line_with-fallback}
use sudowhat.Mac.Granted.{IsGranting}
use sudowhat.Mac.Open.{AuditBuild, World, mac_audit_open, show_command}
use sudowhat.Mac.Opened.{read_drawn-mac_audit_open}
use sudowhat.Mac.Rows.{color_dir, color_path_list, audit_row}
use sudowhat.Mac.Twin.{
  drawn, read_drawn, show_command-build_block, strip_sgr-show_command, stripped,
}
use sudowhat.Mac.Values.{is_bare_name, Allocator, Field, command_line_with}
use sudowhat.Tests.{argv, argv-IsBytes}
use mathlib.Core.Option
use sudowhat.Prelude.{
  ◌≡◌, refl, some, none, List, [], ◌∷◌, replicate, ℕ, Bytes, codes, zero, suc, length, pos, true,
  false, arith, All, IsBytes, ◌++◌, inl, ap, map, Option,
}

length-replicate : (n : ℕ) → length (replicate {A = ℕ} n 0) ≡ n
length-replicate zero = refl
length-replicate (suc n) = ap suc (length-replicate n)

abbrev granting : Allocator
granting = record { malloc = λ field n. some (replicate n 0); argv = λ n. true; lens = λ n. true }

granting-IsGranting : IsGranting granting
granting-IsGranting = record {
  buffers = λ field n. (replicate n 0, refl, length-replicate n);
  argv_granted = λ n. refl;
  lens_granted = λ n. refl;
}

-- A system that grants no buffer for the coloured line.
abbrev no_colored : Field → ℕ → Option Bytes
no_colored Field.colored n = none
no_colored field n = some (replicate n 0)

abbrev sparing : Allocator
sparing = record { malloc = no_colored; argv = λ n. true; lens = λ n. true }

abbrev world : World
world = record { strtoul = λ s. 501; plugin_signed = true; pam_signed = true; memory = granting }

abbrev build : AuditBuild
build = record { display = true; echo_color = true }

abbrev settings : List Bytes
settings = codes "runas_user=ada" ∷ []

abbrev user_info : List Bytes
user_info = codes "uid=501" ∷ codes "cwd=/Users/ada" ∷ []

abbrev envp : List Bytes
envp = codes "TERM=xterm" ∷ codes "PATH=/opt/bin:." ∷ []

settings-IsBytes : All IsBytes settings
settings-IsBytes = (omega arith, tt)

user_info-IsBytes : All IsBytes user_info
user_info-IsBytes = (omega arith, (omega arith, tt))

envp-IsBytes : All IsBytes envp
envp-IsBytes = (omega arith, (omega arith, tt))

-- The colours that the repository's own tests expect.
home_colors :
    color_dir (codes "/home/alice")
    ≡ 0x1B
      ∷ (codes "[1;36m/home"
          ++ 0x1B ∷ (codes "[0m/" ++ 0x1B ∷ (codes "[1malice" ++ 0x1B ∷ codes "[0m")))
unfolding color_dir sudowhat.Prelude.position sudowhat.Prelude.rposition
home_colors = refl

list_colors :
    color_path_list (codes ".:/opt/x")
    ≡ b'.'
      ∷ 0x1B
      ∷ (codes "[1;34m:"
          ++ 0x1B ∷ (codes "[0m" ++ 0x1B ∷ (codes "[1;36m/opt" ++ 0x1B ∷ codes "[0m/x")))
unfolding color_path_list sudowhat.Prelude.position
list_colors = refl

input_row : audit_row (codes "input:") (codes "id") false ≡ codes "sudowhat: input:      id\n"
unfolding audit_row
input_row = refl

show_command-build_block_example :
    Option.map
      (Option.map (λ (p : Preview × Option Bytes). p.0))
      (read_drawn (drawn (show_command build granting settings user_info argv envp)))
    ≡ read_shown (Option.map strip_sgr (build_block settings user_info argv true))
show_command-build_block_example =
    show_command-build_block build granting granting-IsGranting settings user_info argv envp
      settings-IsBytes user_info-IsBytes argv-IsBytes envp-IsBytes true

strip_sgr-show_command_example :
    map stripped (show_command build granting settings user_info argv envp)
    ≡ show_command build granting settings user_info argv (codes "NO_COLOR=1" ∷ envp)
strip_sgr-show_command_example =
    strip_sgr-show_command build granting settings user_info argv envp granting-IsGranting
      settings-IsBytes user_info-IsBytes argv-IsBytes envp-IsBytes

abbrev settings_array : CArray
settings_array = some (map some settings)

abbrev user_array : CArray
user_array = some (map some user_info)

-- `sudo -u ada echo ...`, whose options end in front of the fourth word.
abbrev argv_array : CArray
argv_array = some (map some (codes "sudo" ∷ codes "-u" ∷ codes "ada" ∷ argv))

abbrev env_array : CArray
env_array = some (map some envp)

read_drawn-mac_audit_open_example :
    ((mac_audit_open build world 65557 settings_array user_array (pos 3) argv_array env_array).0
      ≡ pos 1)
    × (read_drawn (
          drawn
            (mac_audit_open build world 65557 settings_array user_array
              (pos 3)
              argv_array
              env_array).1)
        ≡ some (
            some (
              record {
                user = codes "ada";
                directory = some (codes "/Users/ada");
                command = some argv;
              },
              some (codes "/opt/bin:."),
            )))
unfolding preview find_kv as_bytes setting_true runs_shell searched is_bare_name
read_drawn-mac_audit_open_example =
    read_drawn-mac_audit_open build world 65557 settings_array user_array (pos 3) argv_array
      env_array granting-IsGranting settings-IsBytes user_info-IsBytes argv-IsBytes envp-IsBytes

command_line_with-fallback_example :
    command_line_with sparing sw_full_command_line_colored_dim sw_full_command_line argv true
    ≡ command_line_with sparing sw_full_command_line_colored_dim sw_full_command_line argv false
command_line_with-fallback_example =
    command_line_with-fallback sparing sw_full_command_line_colored_dim sw_full_command_line argv
      (inl (λ n. refl))

path-IsBytes : IsBytes (codes "/usr/bin/id")
path-IsBytes = omega arith

read_exec_line-format_exec_line_example :
    Option.map (read_exec_line (front solo (some (codes "ada")))) (
      format_exec_line granting
        (some (codes "/usr/bin/id"))
        (some (codes "id" ∷ codes "-u" ∷ []))
        solo
        (some (codes "ada"))
        true
        true)
    ≡ some (some (codes "/usr/bin/id" ∷ codes "-u" ∷ [], []))
unfolding command_tokens sudowhat.Command.repeats_path sudowhat.Command.last_path_component
read_exec_line-format_exec_line_example =
    read_exec_line-format_exec_line granting (codes "/usr/bin/id")
      (some (codes "id" ∷ codes "-u" ∷ [])) solo (some (codes "ada")) true true granting-IsGranting
      path-IsBytes (omega arith, (omega arith, tt)) (omega arith)
