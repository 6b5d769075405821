-- ===== src/Gate/Waived.antt =====
-- The mark that PAM ran only ever adds a gate: who sets it beforehand gains nothing.
use sudowhat.Prelude.{
  pos, none, some, ◌≡◌, inl, inr, refl, true, false, Bytes, codes, ℕ, List, Bool, Option,
  Bool-cases, not, ◌&&◌, ◌==◌, if◌then◌else◌,
}
use sudowhat.Audit.Context.{find_kv}
use sudowhat.Gate.Shape.{nonconsole_allows-integrity}
use sudowhat.Gate.Chain.{
  has_integrity_line, nonconsole_chain_of, nonconsole_allows, NonconsoleChain, deny, password,
  nopasswd_only,
}
use sudowhat.Gate.Host.{Build, Host, Verdict, Outcome, returned, is_active_console}
use sudowhat.Gate.Confirm.{recheck, with_pin, step_aside_allow, confirm_decision}
use sudowhat.Gate.Grants.{Allows}
use sudowhat.Gate.Check.{
  audit_bundle_ok, dialogs, decided, authenticate, chosen_policy, prompt_pinned, check_console,
  check_nonconsole, classify_caller, check, log_verdict, defer_decision,
}

abbrev pub with_marker : Bool → Host → Host
with_marker marker_set host = record host { marker_set = marker_set }

decision_waived :
    (confirm_on have_tty : Bool)
    → confirm_decision confirm_on (if confirm_on then have_tty else false) false (
        if confirm_on && (if confirm_on then have_tty else false) && not false then true else false)
      ≡ false
decision_waived true true = refl
decision_waived true false = refl
decision_waived false have_tty = refl

step_aside_allow-waived :
    (build : Build) (host : Host) (command : Option Bytes)
    → has_integrity_line (build.pam_path) (host.sudo_local) ≡ true
    → Allows (step_aside_allow build host command false)
unfolding step_aside_allow
step_aside_allow-waived build host command integrity =
    rw (step_aside_allow, integrity, decision_waived (build.exec_confirm) (host.controlling_tty))
      refl

nonconsole_allows-waived :
    (chain : NonconsoleChain)
    → nonconsole_allows chain true ≡ true
    → nonconsole_allows chain false ≡ true
nonconsole_allows-waived password h = refl
nonconsole_allows-waived nopasswd_only h = refl
nonconsole_allows-waived deny h = h

log_verdict-Allows : (o : Outcome) (v : Verdict) → v ≡ returned (pos 1) → Allows (log_verdict o v)
log_verdict-Allows o v e = rw e refl

check_nonconsole-waived :
    (build : Build) (host : Host) (command : Option Bytes)
    → Allows (check_nonconsole build (with_marker true host) command)
    → Allows (check_nonconsole build (with_marker false host) command)
unfolding check_nonconsole
check_nonconsole-waived build host command h = elim (Bool-cases (nonconsole_allows chain true)) [
  | inl allows ↦
      rw (check_nonconsole, nonconsole_allows-waived chain allows)
        (log_verdict-Allows (step_aside_allow build (with_marker false host) command false) _ (
          step_aside_allow-waived build (with_marker false host) command
            (nonconsole_allows-integrity (build.pam_path) (host.sudo_local) true allows)))
  | inr refuses ↦ let gone = rw (check_nonconsole, refuses) at h in cc
]
  where
    chain : NonconsoleChain
    chain = nonconsole_chain_of (build.pam_path) (host.sudo_local)

defers_not :
    (deference_on integrity_installed : Bool)
    → defer_decision deference_on true integrity_installed ≡ false
defers_not true i = refl
defers_not false i = refl

check_console-waived :
    (build : Build) (host : Host) (uid : ℕ) (command : Option Bytes)
    → Allows (check_console build (with_marker true host) uid command)
    → Allows (check_console build (with_marker false host) uid command)
unfolding check_console with_pin prompt_pinned authenticate chosen_policy dialogs decided recheck
check_console-waived build host uid none h = h
check_console-waived build host uid (some path) h = elim (Bool-cases deferred) [
  | inl defers ↦ rw (check_console, defers) refl
  | inr asks_user ↦
      rw (check_console, asks_user) (rw (check_console, defers_not (build.policy_deference)) at h)
]
  where
    deferred : Bool
    deferred = defer_decision (build.policy_deference) false (
        if build.policy_deference && not false
        then has_integrity_line (build.pam_path) (host.sudo_local)
        else false)

-- A caller whom `check` lets through with the mark set is let through without it as well, so a
-- caller who sets the mark beforehand in the environment can only gain a prompt.
pub check-waived :
    (build : Build) (host : Host) (invoking_uid : Option ℕ) (command_info : List Bytes)
    → (check build (with_marker true host) invoking_uid command_info).verdict ≡ returned (pos 1)
    → (check build (with_marker false host) invoking_uid command_info).verdict ≡ returned (pos 1)
unfolding check classify_caller
check-waived build host invoking_uid command_info h =
    elim (Bool-cases (host.valid_signature (build.pam_path) (codes "pam_sudowhat"))) [
      | inr forged ↦ let gone = rw (check, forged) at h in cc
      | inl signed ↦ elim (Bool-cases (audit_bundle_ok build host)) [
        | inr tampered ↦ let gone = rw (check, signed, tampered) at h in cc
        | inl intact ↦
            rw (check, signed, intact) (caller invoking_uid (rw (check, signed, intact) at h))
      ]
    ]
  where
    command : Option Bytes
    command = find_kv command_info (codes "command")

    caller :
        (known : Option ℕ)
        → Allows (classify_caller build (with_marker true host) known command)
        → Allows (classify_caller build (with_marker false host) known command)
    caller none k = k
    caller (some uid) k = elim (Bool-cases (uid == 0)) [
      | inl root ↦ rw (classify_caller, root) refl
      | inr other ↦ elim (Bool-cases (is_active_console (host.session) uid)) [
        | inl console ↦
            rw (classify_caller, other, console)
              (check_console-waived build host uid command
                (rw (classify_caller, other, console) at k))
        | inr remote ↦
            rw (classify_caller, other, remote)
              (check_nonconsole-waived build host command
                (rw (classify_caller, other, remote) at k))
      ]
    ]
