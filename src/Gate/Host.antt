-- ===== src/Gate/Host.antt =====
-- What the gate asks of the system, and what it does to it: the answers of macOS and of sudo as
-- records, the calls of plugin/sudowhat_approval.m as events in order.
use sudowhat.Prelude.{
  ℤ, ◌++◌, false, Bytes, Text, ℕ, List, Bool, Option, not, ◌==◌, ◌||◌, if◌then◌else◌,
}
use sudowhat.Gate.Answer.{Reply}

-- What `SessionGetInfo` and `SCDynamicStoreCopyConsoleUser` answer.
pub record Session : Type 0 where
  pub known : Bool
  pub graphic_access : Bool
  pub remote : Bool
  pub console_uid : ℕ

-- `(uid_t)-1`.
abbrev pub no_uid : ℕ
no_uid = 4294967295

-- `isInvokingUserActiveConsole` of shared/SessionGuard.m.
unfoldable pub is_active_console : Session → ℕ → Bool
is_active_console session invoking_uid =
    if not session.known
    then false
    else if not session.graphic_access
    then false
    else if session.remote
    then false
    else if session.console_uid == no_uid || session.console_uid == 0
    then false
    else session.console_uid == invoking_uid

-- The two policies that are asked for in a dialog, and the one whose availability is asked.
pub data Policy : Type 0 where
  device_owner biometrics_or_companion companion : Policy

-- The errors of LocalAuthentication that the gate tells apart.
pub data LaError : Type 0 where
  user_fallback authentication_failed biometry_lockout : LaError
  other_error : ℤ → LaError

-- What a dialog replies: a denial may come with an error of LocalAuthentication.
pub data Evaluation : Type 0 where
  allowed : Evaluation
  denied : Option LaError → Evaluation

-- The knobs and the path of the PAM module that a build sets.
pub record Build : Type 0 where
  pub exec_display : Bool
  pub exec_confirm : Bool
  pub policy_deference : Bool
  pub pam_path : Text
  pub audit_path : Text

pub record Host : Type 0 where
  pub valid_signature : Text → Text → Bool
  pub file_exists : Text → Bool
  pub marker_set : Bool
  pub session : Session
  pub sudo_local : Option Text
  pub controlling_tty : Bool
  pub color_allowed : Bool
  pub line_written : Bool
  pub code_written : Bool
  pub conversation : Option (List Reply)
  pub descriptor : Bytes → ℤ
  pub pinned_file : ℕ → Option (ℕ × ℕ)
  pub file_at : Bytes → Option (ℕ × ℕ)
  pub prompt_rendered : Bool
  pub euid_set : ℕ → Bool
  pub can_evaluate : Policy → Bool
  pub evaluation : Policy → Evaluation

-- `sw_exec_layout`.
pub data ExecLayout : Type 0 where
  grouped solo : ExecLayout

-- The line and the code are sent as a whole: opening the terminal, writing and closing it is one
-- event, which says whether all of it was written.
pub data Event : Type 0 where
  marker_cleared : Event
  bypass_logged : Event
  nonconsole_logged : Event
  deference_logged : Event
  line_sent : ExecLayout → Bool → Event
  code_sent : Bool → Event
  opened : Bytes → ℤ → Event
  closed : ℕ → Event
  asked : Text → Event
  euid_changed : ℕ → Bool → Event
  sheet : Policy → Event

-- How `check` ends: with a verdict, or by ending the process.
pub data Verdict : Type 0 where
  returned : ℤ → Verdict
  exited : Verdict

pub record Outcome : Type 0 where
  pub events : List Event
  pub verdict : Verdict

-- What is done first.
abbrev pub after : List Event → Outcome → Outcome
after events o = record { events = events ++ o.events; verdict = o.verdict }

abbrev pub stop : List Event → ℤ → Outcome
stop events v = record { events = events; verdict = returned v }
