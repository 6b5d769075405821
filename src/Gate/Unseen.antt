-- ===== src/Gate/Unseen.antt =====
-- Who never sees a dialog: the caller outside the console, whose dialog would stand on the screen
-- of the console's user.

use sudowhat.Prelude.{
  ℤ, pos, negsuc, zero, suc, none, some, [], ◌∷◌, ◌≡◌, inl, inr, refl, false, Bytes, Text, codes, ℕ,
  List, Bool, Option, map, Bool-cases, Option-cases, not, ◌&&◌, ◌||◌, ◌==◌, if◌then◌else◌, All,
  All-append,
}
use sudowhat.Audit.Context.{find_kv}
use sudowhat.Gate.Answer.{ask_run_confirm}
use sudowhat.Gate.Chain.{has_integrity_line, nonconsole_chain_of, nonconsole_allows}
use sudowhat.Gate.Host.{
  Build, Host, Event, Verdict, Outcome, ExecLayout, stop, returned, exited, is_active_console, solo,
  sheet, asked,
}
use sudowhat.Gate.Confirm.{
  is_solo, emit_exec_line, recheck, with_pin, confirm_pinned, confirm_run, step_aside_allow,
  confirm_decision, step_aside_layout,
}
use sudowhat.Gate.Check.{audit_bundle_ok, check_nonconsole, classify_caller, check, log_verdict}

-- The event raises no dialog.
abbrev pub IsUnseen : Event → Type 0
IsUnseen (sheet policy) = ⊥
IsUnseen _ = Unit

abbrev pub Unseen : Outcome → Type 0
Unseen o = All IsUnseen (o.events)

emit_exec_line-Unseen :
    (build : Build) (host : Host) (command : Option Bytes) (layout : ExecLayout)
    → All IsUnseen (emit_exec_line build host command layout)
emit_exec_line-Unseen build host none layout = tt
emit_exec_line-Unseen build host (some path) layout = elim (Bool-cases (build.exec_display)) [
  | inl on ↦ rw on (tt, tt)
  | inr off ↦ rw off tt
]

recheck-Unseen :
    (host : Host) (command : Bytes) (fd : ℕ) (pre_st : ℕ × ℕ)
    → Unseen (recheck host command fd pre_st)
unfolding recheck
recheck-Unseen host command fd pre_st = elim (Option-cases (host.file_at command)) [
  | inl e ↦ rw (e, recheck) (tt, tt)
  | inr (post_st, e) ↦
      elim (Bool-cases (not (post_st.0 == pre_st.0) || not (post_st.1 == pre_st.1))) [
        | inl changed ↦ rw (e, recheck, changed) (tt, tt)
        | inr same ↦ rw (e, recheck, same) (tt, tt)
      ]
]

asked-Unseen : (prompts : List Text) → All IsUnseen (map asked prompts)
asked-Unseen [] = tt
asked-Unseen (prompt ∷ prompts) = (tt, asked-Unseen prompts)

confirm_pinned-Unseen :
    (host : Host) (command : Bytes) (layout : ExecLayout) (fd : ℕ) (pre_st : ℕ × ℕ)
    → Unseen (confirm_pinned host command layout fd pre_st)
unfolding confirm_pinned
confirm_pinned-Unseen host command layout fd pre_st = elim (Bool-cases (host.line_written)) [
  | inr lost ↦ rw (confirm_pinned, lost) (tt, (tt, tt))
  | inl whole ↦ elim (Bool-cases (question.1)) [
    | inr declined ↦
        rw (confirm_pinned, whole, declined)
          (tt, All-append IsUnseen (map asked (question.0)) _ (asked-Unseen (question.0)) (tt, tt))
    | inl run ↦
        rw (confirm_pinned, whole, run)
          (
            tt,
            All-append IsUnseen (map asked (question.0)) _ (asked-Unseen (question.0))
                (recheck-Unseen host command fd pre_st),
          )
  ]
]
  where
    question : List Text × Bool
    question =
        ask_run_confirm (host.color_allowed && host.controlling_tty) (is_solo layout)
          (host.conversation)

with_pin-Unseen :
    (host : Host) (command : Bytes) (body : ℕ → ℕ × ℕ → Outcome)
    → ((fd : ℕ) (pre_st : ℕ × ℕ) → Unseen (body fd pre_st))
    → Unseen (with_pin host command body)
unfolding with_pin
with_pin-Unseen host command body h = opening (host.descriptor command) refl
  where
    opening : (d : ℤ) → host.descriptor command ≡ d → Unseen (with_pin host command body)
    opening (negsuc n) e = rw (e, with_pin) (tt, tt)
    opening (pos fd) e = elim (Option-cases (host.pinned_file fd)) [
      | inl nothing ↦ rw (e, with_pin, nothing) (tt, (tt, tt))
      | inr (pre_st, there) ↦ rw (e, with_pin, there) (tt, h fd pre_st)
    ]

step_aside_allow-Unseen :
    (build : Build) (host : Host) (command : Option Bytes) (marker_present : Bool)
    → Unseen (step_aside_allow build host command marker_present)
unfolding step_aside_allow confirm_run
step_aside_allow-Unseen build host command marker_present = elim (Bool-cases confirms) [
  | inr passes ↦ rw (step_aside_allow, passes) (emit_exec_line-Unseen build host command layout)
  | inl asks_user ↦ rw (step_aside_allow, asks_user) (confirmed command)
]
  where
    layout : ExecLayout
    layout = step_aside_layout marker_present

    have_tty : Bool
    have_tty = if build.exec_confirm then host.controlling_tty else false

    confirms : Bool
    confirms = confirm_decision (build.exec_confirm) have_tty marker_present (
        if build.exec_confirm && have_tty && not marker_present
        then has_integrity_line (build.pam_path) (host.sudo_local)
        else false)

    confirmed :
        (c : Option Bytes)
        → Unseen (elim c [ none ↦ stop [] (pos 0) | some path ↦ confirm_run host path layout ])
    confirmed none = tt
    confirmed (some path) =
        with_pin-Unseen host path (confirm_pinned host path layout)
          (confirm_pinned-Unseen host path layout)

log_verdict-Unseen : (o : Outcome) (v : Verdict) → Unseen o → Unseen (log_verdict o v)
log_verdict-Unseen o (returned (pos (suc zero))) h = All-append IsUnseen (o.events) _ h (tt, tt)
log_verdict-Unseen o (returned (pos zero)) h = h
log_verdict-Unseen o (returned (pos (suc (suc n)))) h = h
log_verdict-Unseen o (returned (negsuc n)) h = h
log_verdict-Unseen o exited h = h

check_nonconsole-Unseen :
    (build : Build) (host : Host) (command : Option Bytes)
    → Unseen (check_nonconsole build host command)
unfolding check_nonconsole
check_nonconsole-Unseen build host command =
    elim (Bool-cases (
      nonconsole_allows (nonconsole_chain_of (build.pam_path) (host.sudo_local))
        (host.marker_set))) [
          | inl allows ↦
              rw (check_nonconsole, allows)
                (log_verdict-Unseen (step_aside_allow build host command (host.marker_set)) _
                  (step_aside_allow-Unseen build host command (host.marker_set)))
          | inr refuses ↦ rw (check_nonconsole, refuses) tt
        ]

-- A caller outside the console raises no dialog, whatever is installed, configured or answered.
pub check-Unseen :
    (build : Build) (host : Host) (uid : ℕ) (command_info : List Bytes)
    → is_active_console (host.session) uid ≡ false
    → All IsUnseen ((check build host (some uid) command_info).events)
unfolding check classify_caller
check-Unseen build host uid command_info outside =
    elim (Bool-cases (host.valid_signature (build.pam_path) (codes "pam_sudowhat"))) [
      | inr forged ↦ rw (check, forged) tt
      | inl signed ↦ elim (Bool-cases (audit_bundle_ok build host)) [
        | inr tampered ↦ rw (check, signed, tampered) tt
        | inl intact ↦ elim (Bool-cases (uid == 0)) [
          | inl root ↦
              rw (check, signed, intact, classify_caller, root)
                (tt, (tt, emit_exec_line-Unseen build host command solo))
          | inr other ↦
              rw (check, signed, intact, classify_caller, other, outside)
                (tt, check_nonconsole-Unseen build host command)
        ]
      ]
    ]
  where
    command : Option Bytes
    command = find_kv command_info (codes "command")
