-- ===== src/Tests/Gate.antt =====
-- The macOS gate at concrete answers of the system: a user at the console, and one behind ssh.
use mathlib.Core.List.{Mem, cons-ne-nil}
use sudowhat.Gate.Confirm.{step_aside_allow}
use sudowhat.Audit.Context.{find_kv}
use sudowhat.Color.Terminal.{strip_sgr}
use sudowhat.Gate.Answer.{
  Reply, replied, failed, Answer, confirm_answer, ask_run_confirm, reask_prompt, confirm_prompt,
}
use sudowhat.Gate.ReadBack.{blank, Line, entry, comment, pam_lines-file_text, Line, entry, comment}
use sudowhat.Gate.Lines.{is_whitespace, pam_lines}
use sudowhat.Utf8.{as_bytes}
use sudowhat.Gate.Chain.{
  is_gate_variant, is_nopasswd_only_variant, nonconsole_chain_of, nopasswd_only_lines,
}
use sudowhat.Gate.Shape.{nonconsole_allows-lines, integrity_line, gate_line}
use sudowhat.Gate.Host.{is_active_console, Session, Build, Host, allowed, returned}
use sudowhat.Gate.Check.{check, audit_bundle_ok}
use sudowhat.Gate.Protocol.{Process, Run, IsClean, start}
use sudowhat.Gate.Clean.{check-Keeps}
use sudowhat.Gate.Grants.{Unchanged}
use sudowhat.Gate.Allowed.{check-Allows, Granted, step_aside_allow-Answered, Answered}
use sudowhat.Gate.Unseen.{check-Unseen, IsUnseen}
use sudowhat.Gate.Waived.{check-waived, with_marker}
use sudowhat.Gate.Reply.{confirm_answer-Spells, Spells}
use sudowhat.Gate.Question.{ask_run_confirm-Decided, Decided, ask_run_confirm-color}
use sudowhat.Gate.Pam.{
  PamResult, invoking_uid, PamBuild, PamHost, success, cred_insufficient, pam_sm_authenticate,
}
use sudowhat.Gate.Seat.{AtSeat}
use sudowhat.Gate.Roles.{pam_sm_authenticate-success, AtConsole, Intact, console_only-check}
use sudowhat.Gate.Invoking.{Invoking, Terminals, approval_open, closed_ctx}
use sudowhat.Prelude.{
  ℤ, negsuc, inl, inr, pos, [], ◌∷◌, ◌≡◌, ◌≢◌, ◌↔◌, ◌⊎◌, true, false, some, none, refl, Bytes, Text,
  codes, List, All, map, arith,
}

abbrev build : Build
build = record {
  exec_display = true;
  exec_confirm = true;
  policy_deference = true;
  pam_path = codes "/p";
  audit_path = codes "/a";
}

abbrev gate_file : Text
gate_file = codes "auth requisite /p\n#\nauth  sufficient /p console-gate\n"

abbrev only_file : Text
only_file = codes "auth requisite /p\nauth requisite /p console-only\nauth sufficient pam_permit.so"

abbrev at_console : Session
at_console = record { known = true; graphic_access = true; remote = false; console_uid = 501 }

abbrev over_ssh : Session
over_ssh = record { known = true; graphic_access = false; remote = true; console_uid = 501 }

abbrev replies : List Reply
replies = replied (some (codes "maybe")) ∷ replied (some (codes " Yes\n")) ∷ failed ∷ []

abbrev host : Session → Text → Host
host session file = record {
  valid_signature = λ path ident. true;
  file_exists = λ path. false;
  marker_set = true;
  session = session;
  sudo_local = some file;
  controlling_tty = true;
  color_allowed = true;
  line_written = true;
  code_written = false;
  conversation = some replies;
  descriptor = λ path. pos 7;
  pinned_file = λ fd. some (1, 2);
  file_at = λ path. some (1, 2);
  prompt_rendered = true;
  euid_set = λ uid. true;
  can_evaluate = λ policy. true;
  evaluation = λ policy. allowed;
}

abbrev command_info : List Bytes
command_info = codes "cwd=/" ∷ codes "command=/bin/ls" ∷ []

check-Allows_example :
    (true ≡ true)
    × (audit_bundle_ok build (host at_console gate_file) ≡ true)
    × Granted build (host at_console gate_file) (some 501) (find_kv command_info (codes "command"))
unfolding check is_active_console find_kv as_bytes
check-Allows_example = check-Allows build (host at_console gate_file) (some 501) command_info refl

check-Keeps_example :
    (final : Process) × Run
      (some 501)
      start
      ((check build (host at_console gate_file) (some 501) command_info).events)
      final
    × IsClean true ((check build (host at_console gate_file) (some 501) command_info).verdict) final
check-Keeps_example = check-Keeps build (host at_console gate_file) (some 501) command_info

check-Unseen_example :
    All IsUnseen ((check build (host over_ssh gate_file) (some 501) command_info).events)
unfolding is_active_console
check-Unseen_example = check-Unseen build (host over_ssh gate_file) 501 command_info refl

check-waived_example :
    (check build (with_marker false (host over_ssh gate_file)) (some 501) command_info).verdict
    ≡ returned (pos 1)
unfolding check is_active_console find_kv as_bytes nonconsole_chain_of is_gate_variant pam_lines
    confirm_answer
check-waived_example = check-waived build (host over_ssh gate_file) (some 501) command_info refl

step_aside_allow-Answered_example :
    (path : Bytes) × (some (codes "/bin/ls") ≡ some path)
    × Answered (host over_ssh gate_file) true
    × Unchanged (host over_ssh gate_file) path
unfolding step_aside_allow confirm_answer
step_aside_allow-Answered_example =
    step_aside_allow-Answered build (host over_ssh gate_file) (some (codes "/bin/ls")) refl refl
      refl

nonconsole_allows-lines_example :
    (lines : List (List Text)) × (pam_lines (some gate_file) ≡ some lines)
    × Mem (integrity_line (codes "/p")) lines
    × (((rest : List Text) × Mem (gate_line (codes "/p") rest) lines)
        ⊎ ((true ≡ false) × (lines ≡ nopasswd_only_lines (codes "/p"))))
unfolding nonconsole_chain_of is_gate_variant pam_lines
nonconsole_allows-lines_example = nonconsole_allows-lines (codes "/p") (some gate_file) true refl

confirm_answer-Spells_example :
    ((confirm_answer (some (codes " Yes\r\n")) ≡ Answer.yes)
      ↔ (Spells (codes " Yes\r\n") (codes "y") ⊎ Spells (codes " Yes\r\n") (codes "yes")))
    × ((confirm_answer (some (codes " Yes\r\n")) ≡ Answer.no) ↔ (
        Spells (codes " Yes\r\n") []
        ⊎ (Spells (codes " Yes\r\n") (codes "n") ⊎ Spells (codes " Yes\r\n") (codes "no"))))
confirm_answer-Spells_example = confirm_answer-Spells (codes " Yes\r\n")

ask_run_confirm-Decided_example :
    (ask_run_confirm true true none ≡ ([], false))
    × Decided
        (reask_prompt true)
        (confirm_prompt true true)
        replies
        (ask_run_confirm true true (some replies))
ask_run_confirm-Decided_example = ask_run_confirm-Decided true true replies

ask_run_confirm-color_example :
    (map strip_sgr (ask_run_confirm true true (some replies)).0
      ≡ (ask_run_confirm false true (some replies)).0)
    × ((ask_run_confirm true true (some replies)).1 ≡ (ask_run_confirm false true (some replies)).1)
ask_run_confirm-color_example = ask_run_confirm-color true (some replies)

abbrev pam_build : PamBuild
pam_build = record { plugin_path = codes "/q"; audit_path = codes "/a" }

abbrev pam_host : Session → PamHost
pam_host session = record {
  user = some (codes "ada");
  passwd_uid = λ name. some 501;
  session = session;
  sudo_conf = some (codes "Plugin sudowhat_approval_plugin /q\n");
  valid_signature = λ path ident. true;
  file_exists = λ path. true;
  conversation = false;
}

pam_sm_authenticate-success_example :
    ((pam_sm_authenticate pam_build (pam_host at_console) (some (codes "console-gate") ∷ [])).code
        ≡ success
      ↔ AtConsole (pam_host at_console))
    × ((pam_sm_authenticate pam_build (pam_host at_console) (some (codes "console-only") ∷ [])).code
          ≡ success
        ↔ AtConsole (pam_host at_console))
    × ((pam_sm_authenticate pam_build (pam_host at_console) []).code ≡ success
        ↔ Intact pam_build (pam_host at_console))
pam_sm_authenticate-success_example = pam_sm_authenticate-success pam_build (pam_host at_console) []

-- What PAM answers, and what `check` decides with the mark that PAM has left.
abbrev answer : PamResult
answer = pam_sm_authenticate pam_build (pam_host at_console) (some (codes "console-only") ∷ [])

abbrev marked : Host
marked = with_marker (answer.marker_set) (host at_console only_file)

console_only-check_example :
    ((check build marked (some 501) command_info).verdict ≡ returned (pos 1)
      → AtSeat at_console 501 × (answer.code ≡ success))
    × (¬ AtSeat at_console 501
        → (answer.code ≡ cred_insufficient)
          × ((check build marked (some 501) command_info).verdict ≢ returned (pos 1)))
unfolding nonconsole_chain_of is_gate_variant is_nopasswd_only_variant pam_lines invoking_uid
console_only-check_example =
    console_only-check build (host at_console only_file) pam_build (pam_host at_console) 501 []
      command_info refl refl refl (λ e. omega (arith, e))

-- The line ` a  b` between a blank one and a comment.
abbrev lines : List Line
lines =
    blank (codes " ")
    ∷ entry (codes " ") ((codes "a", codes "  ") ∷ (codes "b", []) ∷ [])
    ∷ comment (codes " ") (codes "c")
    ∷ []

pam_lines-file_text_example :
    pam_lines (some (codes " \n a  b\n #c\n")) ≡ some ((codes "a" ∷ codes "b" ∷ []) ∷ [])
unfolding is_whitespace
pam_lines-file_text_example = pam_lines-file_text lines (
  (refl, tt),
  (
    (
      (refl, tt),
      (
        cons-ne-nil b'a' [],
        (refl, tt),
        (refl, (refl, tt)),
        inl (cons-ne-nil b' ' (codes " ")),
        (cons-ne-nil b'b' [], (refl, tt), tt, inr refl, tt),
      ),
      refl,
      ((refl, tt), ((refl, tt), tt)),
    ),
    (((refl, tt), (refl, tt)), tt),
  ),
)

abbrev terminals : Terminals
terminals = record {
  of_stderr = none;
  of_stdin = some (codes "/dev/ttys001");
  controlling = negsuc 1;
  of_controlling = none;
}

-- sudo's `uid=501`, which `strtoul` reads as the number.
abbrev opened : ℤ × Invoking
opened =
    approval_open (λ s. 501) terminals 0x10012 (codes "user=ada" ∷ codes "uid=501" ∷ []) []
      closed_ctx
