-- ===== src/Gate/Kept.antt =====
-- `check` keeps the protocol on every path.
use sudowhat.Gate.Answer.{ask_run_confirm}
use sudowhat.Prelude.{
  negsuc, ℤ, pos, [], ◌∷◌, ◌++◌, inl, inr, refl, true, some, none, Bytes, Text, ℕ, List, Bool,
  Option, map, Bool-cases, Option-cases, not, ◌==◌, ◌||◌, ◌≡◌, ◌&&◌,
}
use sudowhat.Gate.Host.{Build, Host, Event, Outcome, ExecLayout, after, stop, closed, asked}
use sudowhat.Gate.Confirm.{is_solo, confirm_pinned, confirm_run, with_pin, emit_exec_line, recheck}
use sudowhat.Gate.Protocol.{
  pins, fails_open, Process, Run, IsClean, done, next, unpins, sends_line, loses_line, asks,
}

-- The outcome is that of a run of the protocol from a state, and the run ends as it has to.
abbrev pub Keeps : Option ℕ → Bool → Process → Outcome → Type 0
Keeps caller restores s o = (t : Process) × Run caller s o.events t × IsClean restores o.verdict t

abbrev pub state : ℕ → Option ℕ → Bool → Bool → Process
state e p c l = record { euid = e; pin = p; code = c; line = l }

pub Run-append :
    {k : Option ℕ} {s t u : Process} {es fs : List Event}
    → Run k s es t
    → Run k t fs u
    → Run k s (es ++ fs) u
Run-append done r = r
Run-append (next st q) r = next st (Run-append q r)

module _ (caller : Option ℕ) (restores : Bool) where
  pub after-Keeps :
      {s t : Process} {es : List Event} (o : Outcome)
      → Run caller s es t
      → Keeps caller restores t o
      → Keeps caller restores s (after es o)
  after-Keeps o r (u, q, clean) = (u, Run-append r q, clean)

  pub closing :
      (fd : ℕ) (c l : Bool) (v : ℤ)
      → Keeps caller restores (state 0 (some fd) c l) (stop (closed fd ∷ []) v)
  closing fd c l v = (state 0 none c l, next (unpins fd) done, (refl, λ h. refl))

  pub recheck-Keeps :
      (host : Host) (command : Bytes) (fd : ℕ) (pre_st : ℕ × ℕ) (c l : Bool)
      → Keeps caller restores (state 0 (some fd) c l) (recheck host command fd pre_st)
  unfolding recheck
  recheck-Keeps host command fd pre_st c l = elim (Option-cases (host.file_at command)) [
    | inl e ↦ rw (e, recheck) (closing fd c l (pos 0))
    | inr (post_st, e) ↦
        elim (Bool-cases (not (post_st.0 == pre_st.0) || not (post_st.1 == pre_st.1))) [
          | inl changed ↦ rw (e, recheck, changed) (closing fd c l (pos 0))
          | inr same ↦ rw (e, recheck, same) (closing fd c l (pos 1))
        ]
  ]

  pub emit_exec_line-Run :
      (build : Build) (host : Host) (command : Option Bytes) (layout : ExecLayout) (p : Option ℕ)
      (c l : Bool)
      → (shown : Bool) × Run caller
          (state 0 p c l)
          (emit_exec_line build host command layout)
          (state 0 p c shown)
  emit_exec_line-Run build host none layout p c l = (l, done)
  emit_exec_line-Run build host (some path) layout p c l = elim (Bool-cases (build.exec_display)) [
    | inr off ↦ (l, rw off done)
    | inl on ↦ elim (Bool-cases (host.line_written)) [
      | inl whole ↦ (true, rw (on, whole) (next (sends_line layout) done))
      | inr lost ↦ (l, rw (on, lost) (next (loses_line layout) done))
    ]
  ]

  asked-Run :
      (fd : ℕ) (c : Bool) (prompts : List Text)
      → Run caller (state 0 (some fd) c true) (map asked prompts) (state 0 (some fd) c true)
  asked-Run fd c [] = done
  asked-Run fd c (prompt ∷ prompts) = next (asks prompt) (asked-Run fd c prompts)

  pub with_pin-Keeps :
      (host : Host) (command : Bytes) (body : ℕ → ℕ × ℕ → Outcome) (c l : Bool)
      → ((fd : ℕ) (pre_st : ℕ × ℕ) → Keeps caller restores (state 0 (some fd) c l) (body fd pre_st))
      → Keeps caller restores (state 0 none c l) (with_pin host command body)
  unfolding with_pin
  with_pin-Keeps host command body c l h = opening (host.descriptor command) refl
    where
      opening :
          (d : ℤ)
          → host.descriptor command ≡ d
          → Keeps caller restores (state 0 none c l) (with_pin host command body)
      opening (negsuc n) e =
          rw (e, with_pin) (state 0 none c l, next (fails_open command n) done, (refl, λ k. refl))
      opening (pos fd) e = elim (Option-cases (host.pinned_file fd)) [
        | inl none_there ↦
            rw (e, with_pin, none_there)
              (after-Keeps (stop (closed fd ∷ []) (negsuc 0)) (next (pins command fd) done)
                (closing fd c l (negsuc 0)))
        | inr (pre_st, there) ↦
            rw (e, with_pin, there)
              (after-Keeps (body fd pre_st) (next (pins command fd) done) (h fd pre_st))
      ]

  confirm_pinned-Keeps :
      (host : Host) (command : Bytes) (layout : ExecLayout) (fd : ℕ) (pre_st : ℕ × ℕ) (c l : Bool)
      → Keeps caller restores (state 0 (some fd) c l) (confirm_pinned host command layout fd pre_st)
  unfolding confirm_pinned
  confirm_pinned-Keeps host command layout fd pre_st c l = elim (Bool-cases (host.line_written)) [
    | inr lost ↦
        rw (confirm_pinned, lost)
          (after-Keeps (stop (closed fd ∷ []) (pos 0)) (next (loses_line layout) done)
            (closing fd c l (pos 0)))
    | inl whole ↦ elim (Bool-cases (question.1)) [
      | inr declined ↦
          rw (confirm_pinned, whole, declined)
            (after-Keeps (stop (closed fd ∷ []) (pos 0))
              (next (sends_line layout) (asked-Run fd c (question.0))) (closing fd c true (pos 0)))
      | inl run ↦
          rw (confirm_pinned, whole, run)
            (after-Keeps (recheck host command fd pre_st)
              (next (sends_line layout) (asked-Run fd c (question.0)))
              (recheck-Keeps host command fd pre_st c true))
    ]
  ]
    where
      question : List Text × Bool
      question =
          ask_run_confirm (host.color_allowed && host.controlling_tty) (is_solo layout)
            (host.conversation)

  pub confirm_run-Keeps :
      (host : Host) (command : Bytes) (layout : ExecLayout) (c l : Bool)
      → Keeps caller restores (state 0 none c l) (confirm_run host command layout)
  unfolding confirm_run
  confirm_run-Keeps host command layout c l =
      with_pin-Keeps host command (confirm_pinned host command layout) c l
        (λ fd pre_st. confirm_pinned-Keeps host command layout fd pre_st c l)
