-- ===== src/Gate/Pam.antt =====
-- pam/pam_sudowhat.m: the three roles of the PAM module, by its first argument.
use sudowhat.Prelude.{
  [], ◌∷◌, true, false, some, none, Bytes, Text, codes, ℕ, List, Bool, Option, not, ◌&&◌, bytes_eq,
  if◌then◌else◌,
}
use sudowhat.Gate.Lines.{verify_conf}
use sudowhat.Gate.Host.{Session, is_active_console}

pub data PamCode : Type 0 where
  success auth_err cred_insufficient : PamCode

-- The paths that a build sets.
pub record PamBuild : Type 0 where
  pub plugin_path : Text
  pub audit_path : Text

-- What `pam_get_user`, `getpwnam`, the session, /etc/sudo.conf and the signatures answer, and whether
-- the application has a conversation that shows a line.
pub record PamHost : Type 0 where
  pub user : Option Bytes
  pub passwd_uid : Bytes → Option ℕ
  pub session : Session
  pub sudo_conf : Option Text
  pub valid_signature : Text → Text → Bool
  pub file_exists : Text → Bool
  pub conversation : Bool

-- The marker behind the call, whether the caller was told why, and the result.
pub record PamResult : Type 0 where
  pub marker_set : Bool
  pub refusal_shown : Bool
  pub code : PamCode

abbrev pub result : Bool → PamCode → PamResult
result refusal_shown code = record { marker_set = true; refusal_shown = refusal_shown; code = code }

-- The uid of the invoking user, where both lookups succeed.
unfoldable pub invoking_uid : PamHost → Option ℕ
invoking_uid host = elim (host.user) [ none ↦ none | some user_name ↦ host.passwd_uid user_name ]

-- `sudowhat_conv_error`: whether the line is shown. Without a conversation, or with one that fails,
-- the refusal stands unexplained.
abbrev pub conv_error : PamHost → Bool
conv_error host = host.conversation

-- The role `console-gate`.
unfoldable pub console_gate : PamHost → PamResult
unfolding invoking_uid
console_gate host = elim (invoking_uid host) [
  | none ↦ result false auth_err
  | some uid ↦
      if is_active_console (host.session) uid then result false success else result false auth_err
]

-- The role `console-only`.
unfoldable pub console_only : PamHost → PamResult
unfolding invoking_uid
console_only host = elim (invoking_uid host) [
  | none ↦ result false cred_insufficient
  | some uid ↦
      if is_active_console (host.session) uid
      then result false success
      else result (conv_error host) cred_insufficient
]

-- The role without an argument.
unfoldable pub integrity : PamBuild → PamHost → PamResult
integrity build host =
    if not (verify_conf (host.sudo_conf) (codes "sudowhat_approval_plugin") (build.plugin_path))
    then result false auth_err
    else if not (host.valid_signature (build.plugin_path) (codes "sudowhat_approval"))
    then result false auth_err
    else if host.file_exists (build.audit_path)
        && not (host.valid_signature (build.audit_path) (codes "sudowhat_audit"))
    then result false auth_err
    else result false success

-- `pam_sm_authenticate`; an argument may be null.
unfoldable pub pam_sm_authenticate : PamBuild → PamHost → List (Option Bytes) → PamResult
unfolding console_gate console_only integrity
pam_sm_authenticate build host (some arg ∷ argv) =
    if bytes_eq arg (codes "console-gate")
    then console_gate host
    else if bytes_eq arg (codes "console-only")
    then console_only host
    else integrity build host
pam_sm_authenticate build host (none ∷ argv) = integrity build host
pam_sm_authenticate build host [] = integrity build host

-- `pam_sm_setcred`.
abbrev pub pam_sm_setcred : List (Option Bytes) → PamCode
pam_sm_setcred argv = success
