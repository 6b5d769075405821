-- ===== src/Gate/Allowed.antt =====
-- Whom `check` lets run the command: the whole decision, and the confirmation it may ask for.
use sudowhat.Audit.Context.{find_kv}
use sudowhat.Gate.Chain.{nonconsole_chain_of, nonconsole_allows, has_integrity_line}
use sudowhat.Gate.Answer.{ask_run_confirm}
use sudowhat.Prelude.{
  [], none, pos, ◌≡◌, ◌⊎◌, inl, inr, refl, true, false, some, Bytes, ℕ, Bool, Bool-cases, not, ◌&&◌,
  ◌==◌, Option, if◌then◌else◌, List, Text, codes, ==_iff,
}
use sudowhat.Gate.Host.{stop, is_active_console, solo, ExecLayout, Build, Host, returned}
use sudowhat.Gate.Confirm.{
  confirm_decision, step_aside_layout, confirm_run, is_solo, step_aside_allow, confirm_pinned,
}
use sudowhat.Gate.Grants.{
  Allows, Approved, Unchanged, recheck-Allows, with_pin-Allows, prompt_pinned-Allows,
}
use sudowhat.Gate.Check.{
  audit_bundle_ok, check_nonconsole, classify_caller, check, check_console, defer_decision,
  prompt_pinned,
}

-- The command was shown whole, and answered with yes.
abbrev pub Answered : Host → Bool → Type 0
Answered host marker_present =
    (host.line_written ≡ true)
    × ((ask_run_confirm (host.color_allowed && host.controlling_tty)
          (is_solo (step_aside_layout marker_present)) (host.conversation)).1
        ≡ true)

confirm_pinned-Allows :
    (host : Host) (command : Bytes) (layout : ExecLayout) (fd : ℕ) (pre_st : ℕ × ℕ)
    → Allows (confirm_pinned host command layout fd pre_st)
    → (host.line_written ≡ true)
      × ((ask_run_confirm
            (host.color_allowed && host.controlling_tty)
            (is_solo layout)
            (host.conversation)).1
          ≡ true)
      × (host.file_at command ≡ some pre_st)
unfolding confirm_pinned
confirm_pinned-Allows host command layout fd pre_st h = elim (Bool-cases (host.line_written)) [
  | inr lost ↦ let gone = rw (confirm_pinned, lost) at h in cc
  | inl whole ↦ elim (Bool-cases (question.1)) [
    | inr declined ↦ let gone = rw (confirm_pinned, whole, declined) at h in cc
    | inl run ↦
        (whole, run, recheck-Allows host command fd pre_st (rw (confirm_pinned, whole, run) at h))
  ]
]
  where
    question : List Text × Bool
    question =
        ask_run_confirm (host.color_allowed && host.controlling_tty) (is_solo layout)
          (host.conversation)

-- Where the build asks for a confirmation, a caller outside the console who has authenticated on a
-- terminal is let through only with a command that was shown whole, that was answered with yes,
-- and whose file did not change meanwhile.
pub step_aside_allow-Answered :
    (build : Build) (host : Host) (command : Option Bytes)
    → build.exec_confirm ≡ true
    → host.controlling_tty ≡ true
    → (step_aside_allow build host command true).verdict ≡ returned (pos 1)
    → (path : Bytes) × (command ≡ some path) × Answered host true × Unchanged host path
unfolding step_aside_allow confirm_run
step_aside_allow-Answered build host command on tty h =
    answered command (rw (step_aside_allow, asks_user) at h)
  where
    have_tty : Bool
    have_tty = if build.exec_confirm then host.controlling_tty else false

    asks_user :
        confirm_decision (build.exec_confirm) have_tty true (
          if build.exec_confirm && have_tty && not true
          then has_integrity_line (build.pam_path) (host.sudo_local)
          else false)
        ≡ true
    asks_user = rw (on, tty) refl

    answered :
        (c : Option Bytes)
        → Allows (elim c [ none ↦ stop [] (pos 0) | some path ↦ confirm_run host path solo ])
        → (path : Bytes) × (c ≡ some path) × Answered host true × Unchanged host path
    answered none k = cc
    answered (some path) k =
        let (fd, file, opens, pins, allows) =
          with_pin-Allows host path (confirm_pinned host path solo) k in
        let (whole, run, same) = confirm_pinned-Allows host path solo fd file allows in
        (path, refl, (whole, run), (fd, file, opens, pins, same))

-- Why a caller who is not root is let through.
abbrev pub Deferred : Build → Host → Type 0
Deferred build host =
    (build.policy_deference ≡ true)
    × (host.marker_set ≡ false)
    × (has_integrity_line (build.pam_path) (host.sudo_local) ≡ true)

abbrev pub Console : Build → Host → Option Bytes → Type 0
Console build host command =
    Deferred build host
    ⊎ (Approved host × ((path : Bytes) × (command ≡ some path) × Unchanged host path))

defer_decision-true :
    (deference_on marker_present integrity_installed : Bool)
    → defer_decision deference_on marker_present
        (if deference_on && not marker_present then integrity_installed else false)
      ≡ true
    → (deference_on ≡ true) × (marker_present ≡ false) × (integrity_installed ≡ true)
defer_decision-true true false true h = (refl, refl, refl)
defer_decision-true true false false h = cc
defer_decision-true true true i h = cc
defer_decision-true false m i h = cc

check_console-Allows :
    (build : Build) (host : Host) (uid : ℕ) (command : Option Bytes)
    → Allows (check_console build host uid command)
    → Console build host command
unfolding check_console
check_console-Allows build host uid none h = cc
check_console-Allows build host uid (some path) h = elim (Bool-cases deferred) [
  | inl defers ↦ inl (defer_decision-true (build.policy_deference) (host.marker_set) _ defers)
  | inr asks_user ↦
      let (fd, file, opens, pins, allows) =
        with_pin-Allows host path (prompt_pinned build host uid path)
          (rw (check_console, asks_user) at h) in
      let (approval, same) = prompt_pinned-Allows build host uid path fd file allows in
      inr (approval, (path, refl, (fd, file, opens, pins, same)))
]
  where
    deferred : Bool
    deferred = defer_decision (build.policy_deference) (host.marker_set) (
        if build.policy_deference && not (host.marker_set)
        then has_integrity_line (build.pam_path) (host.sudo_local)
        else false)

-- The caller is root; or outside the console, and let through by the installed chain; or on it.
abbrev pub Granted : Build → Host → Option ℕ → Option Bytes → Type 0
Granted build host invoking_uid command =
    (uid : ℕ) × (invoking_uid ≡ some uid)
    × ((uid ≡ 0)
        ⊎ (((is_active_console (host.session) uid ≡ false)
              × (nonconsole_allows (nonconsole_chain_of (build.pam_path) (host.sudo_local))
                    (host.marker_set)
                  ≡ true))
            ⊎ ((is_active_console (host.session) uid ≡ true) × Console build host command)))

-- `check` lets sudo run a command only with the signatures intact, and only for one of three
-- callers: root; a caller outside the console whom the installed chain lets through; or one on the
-- console, for whom sudoers waived authentication with our integrity line in place, or who
-- approved a dialog while the target stayed the file that was pinned before.
pub check-Allows :
    (build : Build) (host : Host) (invoking_uid : Option ℕ) (command_info : List Bytes)
    → (check build host invoking_uid command_info).verdict ≡ returned (pos 1)
    → (host.valid_signature (build.pam_path) (codes "pam_sudowhat") ≡ true)
      × (audit_bundle_ok build host ≡ true)
      × Granted build host invoking_uid (find_kv command_info (codes "command"))
unfolding check classify_caller check_nonconsole
check-Allows build host invoking_uid command_info h =
    elim (Bool-cases (host.valid_signature (build.pam_path) (codes "pam_sudowhat"))) [
      | inr forged ↦ let gone = rw (check, forged) at h in cc
      | inl signed ↦ elim (Bool-cases (audit_bundle_ok build host)) [
        | inr tampered ↦ let gone = rw (check, signed, tampered) at h in cc
        | inl intact ↦ (signed, intact, caller invoking_uid (rw (check, signed, intact) at h))
      ]
    ]
  where
    command : Option Bytes
    command = find_kv command_info (codes "command")

    caller :
        (known : Option ℕ)
        → Allows (classify_caller build host known command)
        → Granted build host known command
    caller none k = cc
    caller (some uid) k = elim (Bool-cases (uid == 0)) [
      | inl root ↦ (uid, refl, inl ((==_iff uid 0).0 root))
      | inr other ↦ elim (Bool-cases (is_active_console (host.session) uid)) [
        | inl console ↦ (
          uid,
          refl,
          inr (
              inr (
                console,
                check_console-Allows build host uid command
                    (rw (classify_caller, other, console) at k),
              )),
        )
        | inr remote ↦
            elim (Bool-cases (
              nonconsole_allows (nonconsole_chain_of (build.pam_path) (host.sudo_local))
                (host.marker_set))) [
                  | inl allows ↦ (uid, refl, inr (inl (remote, allows)))
                  | inr refuses ↦
                      let gone =
                        rw (classify_caller, other, remote, check_nonconsole, refuses) at k in
                      cc
                ]
      ]
    ]
