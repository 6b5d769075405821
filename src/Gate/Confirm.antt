-- ===== src/Gate/Confirm.antt =====
-- The caller outside the console: `sw_step_aside_allow` and `sw_confirm_run` of
-- plugin/sudowhat_approval.m, and the pin on the target that the console's path takes too.
use sudowhat.Prelude.{
  pos, negsuc, [], ◌∷◌, ◌++◌, true, false, some, none, Bytes, ℕ, List, Bool, Option, map, not, ◌==◌,
  ◌&&◌, ◌||◌, if◌then◌else◌,
}
use sudowhat.Gate.Answer.{ask_run_confirm}
use sudowhat.Gate.Chain.{has_integrity_line}
use sudowhat.Gate.Host.{
  Build, Host, Event, Outcome, ExecLayout, grouped, solo, after, stop, line_sent, opened, closed,
  asked,
}

-- `sw_confirm_decision`.
abbrev pub confirm_decision : Bool → Bool → Bool → Bool → Bool
confirm_decision confirm_on have_tty marker_present integrity_installed =
    if not confirm_on
    then false
    else if not have_tty
    then false
    else if marker_present
    then true
    else if not integrity_installed
    then true
    else false

-- `sw_step_aside_layout`.
abbrev pub step_aside_layout : Bool → ExecLayout
step_aside_layout marker_present = if marker_present then solo else grouped

abbrev pub is_solo : ExecLayout → Bool
is_solo solo = true
is_solo grouped = false

-- `emit_exec_line`.
abbrev pub emit_exec_line : Build → Host → Option Bytes → ExecLayout → List Event
emit_exec_line build host none layout = []
emit_exec_line build host (some path) layout =
    if not build.exec_display then [] else line_sent layout host.line_written ∷ []

-- The comparison of the pinned file with the one at the path, and the close between them.
unfoldable pub recheck : Host → Bytes → ℕ → ℕ × ℕ → Outcome
recheck host command fd pre_st = elim (host.file_at command) [
  | none ↦ stop (closed fd ∷ []) (pos 0)
  | some post_st ↦
      if not (post_st.0 == pre_st.0) || not (post_st.1 == pre_st.1)
      then stop (closed fd ∷ []) (pos 0)
      else stop (closed fd ∷ []) (pos 1)
]

-- `sw_confirm_run` behind the pin: the line, the question, the comparison.
unfoldable pub confirm_pinned : Host → Bytes → ExecLayout → ℕ → ℕ × ℕ → Outcome
unfolding ask_run_confirm recheck
confirm_pinned host command layout fd pre_st =
    let line = line_sent layout host.line_written in
    if not host.line_written
    then stop (line ∷ closed fd ∷ []) (pos 0)
    else let (prompts, run) =
        ask_run_confirm (host.color_allowed && host.controlling_tty) (is_solo layout)
          host.conversation in
      if not run
      then stop (line ∷ (map asked prompts ++ closed fd ∷ [])) (pos 0)
      else after (line ∷ map asked prompts) (recheck host command fd pre_st)

-- `open` and `fstat`: the target, pinned for what comes behind.
unfoldable pub with_pin : Host → Bytes → (ℕ → ℕ × ℕ → Outcome) → Outcome
with_pin host command next = elim (host.descriptor command) [
  | negsuc e ↦ stop (opened command (negsuc e) ∷ []) (pos 0)
  | pos fd ↦ elim (host.pinned_file fd) [
    | none ↦ stop (opened command (pos fd) ∷ closed fd ∷ []) (negsuc 0)
    | some pre_st ↦ after (opened command (pos fd) ∷ []) (next fd pre_st)
  ]
]

-- `sw_confirm_run`.
unfoldable pub confirm_run : Host → Bytes → ExecLayout → Outcome
unfolding with_pin confirm_pinned
confirm_run host command layout = with_pin host command (confirm_pinned host command layout)

-- `sw_step_aside_allow`.
unfoldable pub step_aside_allow : Build → Host → Option Bytes → Bool → Outcome
unfolding confirm_run
step_aside_allow build host command marker_present =
    let confirm_on = build.exec_confirm in
    let have_tty = if confirm_on then host.controlling_tty else false in
    let integrity_installed =
      if confirm_on && have_tty && not marker_present
      then has_integrity_line build.pam_path host.sudo_local
      else false in
    let layout = step_aside_layout marker_present in
    if not (confirm_decision confirm_on have_tty marker_present integrity_installed)
    then stop (emit_exec_line build host command layout) (pos 1)
    else elim command [ none ↦ stop [] (pos 0) | some path ↦ confirm_run host path layout ]
