-- ===== src/Gate/Check.antt =====
-- `sudowhat_check` of plugin/sudowhat_approval.m, step by step.
use sudowhat.Prelude.{
  zero, suc, pos, negsuc, [], ◌∷◌, ◌++◌, true, false, some, none, Bytes, codes, ℕ, List, Bool,
  Option, not, ◌==◌, ◌&&◌, if◌then◌else◌,
}
use sudowhat.Audit.Context.{find_kv}
use sudowhat.Gate.Confirm.{emit_exec_line, recheck, with_pin, step_aside_allow}
use sudowhat.Gate.Chain.{has_integrity_line, nonconsole_chain_of, nonconsole_allows}
use sudowhat.Gate.Host.{
  Verdict, Build, Host, Event, Outcome, grouped, solo, Policy, device_owner,
  biometrics_or_companion, companion, LaError, user_fallback, authentication_failed,
  biometry_lockout, Evaluation, allowed, denied, after, stop, returned, exited, marker_cleared,
  bypass_logged, nonconsole_logged, deference_logged, code_sent, closed, euid_changed, sheet,
  is_active_console,
}

-- `sw_defer_decision`.
abbrev pub defer_decision : Bool → Bool → Bool → Bool
defer_decision deference_on marker_present integrity_installed =
    if not deference_on
    then false
    else if marker_present
    then false
    else if not integrity_installed
    then false
    else true

-- The policy of the first dialog, if any can be evaluated.
unfoldable pub chosen_policy : Host → Option Policy
chosen_policy host =
    if host.can_evaluate companion && host.can_evaluate biometrics_or_companion
    then some biometrics_or_companion
    else if not (host.can_evaluate device_owner)
    then none
    else some device_owner

-- Whether a denial is followed by the dialog with a password.
abbrev pub falls_back : Policy → Option LaError → Bool
falls_back biometrics_or_companion (some user_fallback) = true
falls_back biometrics_or_companion (some authentication_failed) = true
falls_back biometrics_or_companion (some biometry_lockout) = true
falls_back policy error = false

abbrev pub is_allowed : Evaluation → Bool
is_allowed allowed = true
is_allowed (denied error) = false

-- The dialogs that are raised, and whether the last of them is approved.
unfoldable pub dialogs : Host → Policy → List Event × Bool
dialogs host chosen = elim (host.evaluation chosen) [
  | allowed ↦ (sheet chosen ∷ [], true)
  | denied error ↦
      if falls_back chosen error
      then (sheet chosen ∷ sheet device_owner ∷ [], is_allowed (host.evaluation device_owner))
      else (sheet chosen ∷ [], false)
]

-- Behind the dialogs: back to root, and the verdict.
unfoldable pub decided : Host → Bytes → ℕ → ℕ × ℕ → Bool → Outcome
unfolding recheck
decided host command fd pre_st approved =
    if not (host.euid_set 0)
    then record { events = euid_changed 0 false ∷ []; verdict = exited }
    else after (euid_changed 0 true ∷ [])
        (if not approved then stop (closed fd ∷ []) (pos 0) else recheck host command fd pre_st)

-- As the invoking user: the choice of the policy, and the dialogs.
unfoldable pub authenticate : Host → Bytes → ℕ → ℕ × ℕ → Outcome
unfolding chosen_policy dialogs decided
authenticate host command fd pre_st = elim (chosen_policy host) [
  | none ↦ stop (euid_changed 0 (host.euid_set 0) ∷ closed fd ∷ []) (pos 0)
  | some chosen ↦
      let (shown, approved) = dialogs host chosen in
      after shown (decided host command fd pre_st approved)
]

-- Behind the pin: the code, which may be lost, the line, and the drop to the invoking user.
unfoldable pub prompt_pinned : Build → Host → ℕ → Bytes → ℕ → ℕ × ℕ → Outcome
unfolding authenticate
prompt_pinned build host uid command fd pre_st =
    if not host.prompt_rendered
    then stop (closed fd ∷ []) (negsuc 0)
    else after (code_sent host.code_written ∷ emit_exec_line build host (some command) grouped) (
        if not (host.euid_set uid)
        then stop (euid_changed uid false ∷ closed fd ∷ []) (negsuc 0)
        else after (euid_changed uid true ∷ []) (authenticate host command fd pre_st))

-- The caller on the console, from (3) on.
unfoldable pub check_console : Build → Host → ℕ → Option Bytes → Outcome
unfolding with_pin prompt_pinned
check_console build host uid none = stop [] (negsuc 0)
check_console build host uid (some command) =
    let deference_on = build.policy_deference in
    let integrity_installed =
      if deference_on && not host.marker_set
      then has_integrity_line build.pam_path host.sudo_local
      else false in
    if defer_decision deference_on host.marker_set integrity_installed
    then stop (emit_exec_line build host (some command) grouped ++ deference_logged ∷ []) (pos 1)
    else with_pin host command (prompt_pinned build host uid command)

-- A verdict of 1 is logged.
abbrev pub log_verdict : Outcome → Verdict → Outcome
log_verdict o (returned (pos (suc zero))) = stop (o.events ++ nonconsole_logged ∷ []) (pos 1)
log_verdict o v = o

-- The caller outside the console.
unfoldable pub check_nonconsole : Build → Host → Option Bytes → Outcome
unfolding step_aside_allow
check_nonconsole build host command =
    let o = step_aside_allow build host command host.marker_set in
    if nonconsole_allows (nonconsole_chain_of build.pam_path host.sudo_local) host.marker_set
    then log_verdict o (o.verdict)
    else stop [] (pos 0)

-- `sudowhat_audit_bundle_ok`.
abbrev pub audit_bundle_ok : Build → Host → Bool
audit_bundle_ok build host =
    if not (host.file_exists build.audit_path)
    then true
    else host.valid_signature build.audit_path (codes "sudowhat_audit")

-- The classification of the caller, (2).
unfoldable pub classify_caller : Build → Host → Option ℕ → Option Bytes → Outcome
unfolding check_nonconsole check_console
classify_caller build host none command = stop [] (negsuc 0)
classify_caller build host (some uid) command =
    if uid == 0
    then stop (bypass_logged ∷ emit_exec_line build host command solo) (pos 1)
    else if not (is_active_console host.session uid)
    then check_nonconsole build host command
    else check_console build host uid command

-- `sudowhat_check`, for the uid that `open` has captured.
unfoldable pub check : Build → Host → Option ℕ → List Bytes → Outcome
unfolding classify_caller
check build host invoking_uid command_info =
    if not (host.valid_signature build.pam_path (codes "pam_sudowhat"))
    then stop [] (pos 0)
    else if not (audit_bundle_ok build host)
    then stop [] (pos 0)
    else after (marker_cleared ∷ [])
        (classify_caller build host invoking_uid (find_kv command_info (codes "command")))
