-- ===== src/Gate/Clean.antt =====
-- `check` keeps the protocol on every path: the callers, and the whole.
use sudowhat.Prelude.{
  pos, negsuc, zero, suc, [], ◌≡◌, ◌≢◌, inl, inr, refl, false, some, none, Bytes, ℕ, List, Bool,
  Option, Bool-cases, not, ◌&&◌, ◌==◌, arith, if◌then◌else◌, codes,
}
use mathlib.Core.Path.{subst}
use sudowhat.Audit.Context.{find_kv}
use sudowhat.Gate.Chain.{has_integrity_line, nonconsole_chain_of, nonconsole_allows}
use sudowhat.Gate.Host.{
  Build, Host, Verdict, Outcome, stop, returned, exited, is_active_console, grouped, solo,
}
use sudowhat.Gate.Confirm.{confirm_run, step_aside_allow, confirm_decision, step_aside_layout}
use sudowhat.Gate.Check.{
  audit_bundle_ok, prompt_pinned, check_console, check_nonconsole, classify_caller, check,
  log_verdict, defer_decision,
}
use sudowhat.Gate.Protocol.{
  Process, Run, IsClean, start, done, next, clears, logs_bypass, logs_nonconsole, logs_deference,
}
use sudowhat.Gate.Raised.{prompt_pinned-Keeps}
use sudowhat.Gate.Kept.{
  Keeps, state, Run-append, after-Keeps, emit_exec_line-Run, with_pin-Keeps, confirm_run-Keeps,
}

module _ (host : Host) (caller : Option ℕ) where
  abbrev as_root : Bool
  as_root = host.euid_set 0

  check_console-Keeps :
      (build : Build) (uid : ℕ) (command : Option Bytes)
      → uid ≢ 0
      → Keeps (some uid) as_root start (check_console build host uid command)
  unfolding check_console
  check_console-Keeps build uid none other = (start, done, (refl, λ h. refl))
  check_console-Keeps build uid (some command) other = elim (Bool-cases deferred) [
    | inl defers ↦
        let (shown, lines) =
          emit_exec_line-Run (some uid) as_root build host (some command) grouped none false
            false in
        rw (check_console, defers)
          (state 0 none false shown, Run-append lines (next logs_deference done), (refl, λ h. refl))
    | inr asks_user ↦
        rw (check_console, asks_user)
          (with_pin-Keeps (some uid) as_root host command (prompt_pinned build host uid command)
            false false
            (λ fd pre_st. prompt_pinned-Keeps host uid build command fd pre_st false false other))
  ]
    where
      deferred : Bool
      deferred = defer_decision (build.policy_deference) (host.marker_set) (
          if build.policy_deference && not (host.marker_set)
          then has_integrity_line (build.pam_path) (host.sudo_local)
          else false)

  step_aside_allow-Keeps :
      (build : Build) (command : Option Bytes)
      → Keeps caller as_root start (step_aside_allow build host command (host.marker_set))
  unfolding step_aside_allow
  step_aside_allow-Keeps build command = elim (Bool-cases confirms) [
    | inr passes ↦
        let (shown, lines) =
          emit_exec_line-Run caller as_root build host command (step_aside_layout (host.marker_set))
            none false false in
        rw (step_aside_allow, passes) (state 0 none false shown, lines, (refl, λ h. refl))
    | inl asks_user ↦ rw (step_aside_allow, asks_user) (confirmed command)
  ]
    where
      have_tty : Bool
      have_tty = if build.exec_confirm then host.controlling_tty else false

      confirms : Bool
      confirms = confirm_decision (build.exec_confirm) have_tty (host.marker_set) (
          if build.exec_confirm && have_tty && not (host.marker_set)
          then has_integrity_line (build.pam_path) (host.sudo_local)
          else false)

      confirmed :
          (c : Option Bytes)
          → Keeps caller as_root start (elim c [
            | none ↦ stop [] (pos 0)
            | some path ↦ confirm_run host path (step_aside_layout (host.marker_set))
          ])
      confirmed none = (start, done, (refl, λ h. refl))
      confirmed (some path) =
          confirm_run-Keeps caller as_root host path (step_aside_layout (host.marker_set)) false
            false

  log_verdict-Keeps :
      (o : Outcome) (v : Verdict)
      → o.verdict ≡ v
      → Keeps caller as_root start o
      → Keeps caller as_root start (log_verdict o v)
  log_verdict-Keeps o (returned (pos (suc zero))) e (t, r, clean) =
      (t, Run-append r (next logs_nonconsole done), subst (λ v. IsClean as_root v t) e clean)
  log_verdict-Keeps o (returned (pos zero)) e keeps = keeps
  log_verdict-Keeps o (returned (pos (suc (suc n)))) e keeps = keeps
  log_verdict-Keeps o (returned (negsuc n)) e keeps = keeps
  log_verdict-Keeps o exited e keeps = keeps

  check_nonconsole-Keeps :
      (build : Build) (command : Option Bytes)
      → Keeps caller as_root start (check_nonconsole build host command)
  unfolding check_nonconsole
  check_nonconsole-Keeps build command =
      elim (Bool-cases (
        nonconsole_allows (nonconsole_chain_of (build.pam_path) (host.sudo_local))
          (host.marker_set))) [
            | inl allows ↦
                rw (check_nonconsole, allows)
                  (log_verdict-Keeps (step_aside_allow build host command (host.marker_set)) _ refl
                    (step_aside_allow-Keeps build command))
            | inr refuses ↦ rw (check_nonconsole, refuses) (start, done, (refl, λ h. refl))
          ]

classify_caller-Keeps :
    (host : Host) (build : Build) (invoking_uid : Option ℕ) (command : Option Bytes)
    → Keeps invoking_uid (host.euid_set 0) start (classify_caller build host invoking_uid command)
unfolding classify_caller
classify_caller-Keeps host build none command = (start, done, (refl, λ h. refl))
classify_caller-Keeps host build (some uid) command = elim (Bool-cases (uid == 0)) [
  | inl root ↦
      let (shown, lines) =
        emit_exec_line-Run (some uid) (host.euid_set 0) build host command solo none false false in
      rw (classify_caller, root)
        (state 0 none false shown, next logs_bypass lines, (refl, λ h. refl))
  | inr other ↦ elim (Bool-cases (is_active_console (host.session) uid)) [
    | inl console ↦
        rw (classify_caller, other, console)
          (check_console-Keeps host (some uid) build uid command (ground (arith, other)))
    | inr remote ↦
        rw (classify_caller, other, remote) (check_nonconsole-Keeps host (some uid) build command)
  ]
]

-- Whatever the system answers, `check` keeps the protocol: it writes to the terminal and asks as
-- root only, raises a dialog only with the invoking user's uid as its effective one, which is not
-- root's, with the target pinned and after it has tried to show the code, and pins one file at a time.
-- It asks its question only under a line that was written whole, with the target pinned. It returns with the target unpinned, as root where
-- it allows the command, and as root always if the system lets it become root again.
pub check-Keeps :
    (build : Build) (host : Host) (invoking_uid : Option ℕ) (command_info : List Bytes)
    → let o = check build host invoking_uid command_info in
      (final : Process) × Run invoking_uid start (o.events) final
      × IsClean (host.euid_set 0) (o.verdict) final
unfolding check
check-Keeps build host invoking_uid command_info =
    elim (Bool-cases (host.valid_signature (build.pam_path) (codes "pam_sudowhat"))) [
      | inr forged ↦ rw (check, forged) (start, done, (refl, λ h. refl))
      | inl signed ↦ elim (Bool-cases (audit_bundle_ok build host)) [
        | inr tampered ↦ rw (check, signed, tampered) (start, done, (refl, λ h. refl))
        | inl intact ↦
            rw (check, signed, intact)
              (after-Keeps invoking_uid (host.euid_set 0)
                (classify_caller build host invoking_uid (find_kv command_info (codes "command")))
                (next clears done)
                (classify_caller-Keeps host build invoking_uid
                  (find_kv command_info (codes "command"))))
      ]
    ]
