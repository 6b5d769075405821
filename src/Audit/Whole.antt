-- ===== src/Audit/Whole.antt =====
-- `write_tty` of linux/sudowhat_audit/src/tty.rs, where no `write` fails.
use mathlib.Core.Option
use mathlib.Core.Path.{subst}
use sudowhat.Utf8.{as_bytes}
use sudowhat.Audit.Calls.{
  delivered, delivered-append, Talk, Talk-append, shut, held, silent, opening, confirming, sending,
  closing,
}
use sudowhat.Audit.Delivery.{Quiet, interrupted_early, length-drop}
use sudowhat.Prelude.{
  true, false, zero, suc, pos, [], ◌∷◌, ◌≡◌, some, refl, Bytes, Option, ℕ, ◌⊎◌, Text, length, List,
  drop, ◌+◌, ap, ◌-◌, arith, take, Bool, ◌++◌, is_empty, ◌≤◌, ◌∙◌, ◌||◌, sym, inl, take-append-drop,
  append-nil, inr,
}
use sudowhat.Audit.Tty.{
  has_nul, open_flags, write_terminal, write_opened, write_tty, after_write, Outcome, wrote, failed,
  System, Call, opened, asked, sent, closed, write_loop, eintr,
}

-- Every `write` takes some byte, or is interrupted.
abbrev pub Willing : System → Type 0
Willing sys =
    (n : ℕ) (bytes : Bytes)
    → (sys.answer n bytes ≡ failed eintr) ⊎ ((w : ℕ) × (sys.answer n bytes ≡ wrote (suc w)))

-- The terminal at the path, opened and closed again, takes all the bytes.
abbrev pub Whole : Bytes → Bytes → Option (List Call) → Type 0
Whole path bytes run =
    (calls : List Call) × (run ≡ some calls) × (delivered calls ≡ bytes) × Talk path shut calls shut

-- The loop, on the descriptor that is open.
abbrev WholeLoop : Bytes → ℕ → Bytes → Option (List Call) → Type 0
WholeLoop path fd bytes run =
    (calls : List Call) × (run ≡ some calls)
    × (delivered calls ≡ bytes)
    × Talk path (held fd true) calls (held fd true)

Whole-sent :
    (path : Bytes) (fd w : ℕ) (bytes : Bytes) (again : Option (List Call))
    (next : ℕ → Option (List Call))
    → WholeLoop path fd (drop (suc w) bytes) (next (suc w))
    → WholeLoop path fd bytes (after_write fd bytes (wrote (suc w)) again next)
unfolding after_write delivered
Whole-sent path fd w bytes again next (calls, e, d, t) = (
  sent fd bytes (wrote (suc w)) ∷ calls,
  ap (Option.map (λ cs. sent fd bytes (wrote (suc w)) ∷ cs)) e,
  ap (λ t. take (suc w) bytes ++ t) d ∙ take-append-drop (suc w) bytes,
  sending fd bytes (wrote (suc w)) t,
)

Whole-interrupted :
    (path : Bytes) (fd : ℕ) (bytes : Bytes) (again : Option (List Call))
    (next : ℕ → Option (List Call))
    → WholeLoop path fd bytes again
    → WholeLoop path fd bytes (after_write fd bytes (failed eintr) again next)
unfolding after_write delivered
Whole-interrupted path fd bytes again next (calls, e, d, t) = (
  sent fd bytes (failed eintr) ∷ calls,
  ap (Option.map (λ cs. sent fd bytes (failed eintr) ∷ cs)) e,
  d,
  sending fd bytes (failed eintr) t,
)

write_loop-Whole :
    (sys : System) (path : Bytes) (quiet fd fuel n : ℕ) (bytes : Bytes)
    → Quiet sys quiet
    → Willing sys
    → length bytes + (quiet - n) ≤ fuel
    → WholeLoop path fd bytes (write_loop sys fd fuel n bytes)
unfolding write_loop delivered
write_loop-Whole sys path quiet fd fuel n [] q t h = ([], refl, refl, silent)
write_loop-Whole sys path quiet fd zero n (b ∷ bytes) q t h = absurd (omega (arith, h))
write_loop-Whole sys path quiet fd (suc fuel) n (b ∷ bytes) q t h = elim (t n (b ∷ bytes)) [
  | inl e ↦ answered e (
      Whole-interrupted path fd (b ∷ bytes) again next (
        write_loop-Whole sys path quiet fd fuel (n + 1) (b ∷ bytes) q t
          (omega (arith, h, interrupted_early sys quiet n (b ∷ bytes) q e))))
  | inr (w, e) ↦ answered e (
      Whole-sent path fd w (b ∷ bytes) again next (
        write_loop-Whole sys path quiet fd fuel (n + 1) (drop (suc w) (b ∷ bytes)) q t
          (omega (arith, h, length-drop w b bytes))))
]
  where
    again : Option (List Call)
    again = write_loop sys fd fuel (n + 1) (b ∷ bytes)

    next : ℕ → Option (List Call)
    next w = write_loop sys fd fuel (n + 1) (drop w (b ∷ bytes))

    round : Outcome → Option (List Call)
    round o = after_write fd (b ∷ bytes) o again next

    answered :
        {o : Outcome}
        → sys.answer n (b ∷ bytes) ≡ o
        → WholeLoop path fd (b ∷ bytes) (round o)
        → WholeLoop path fd (b ∷ bytes) (round (sys.answer n (b ∷ bytes)))
    answered e whole = subst (λ o. WholeLoop path fd (b ∷ bytes) (round o)) (sym e) whole

write_terminal-Whole :
    (sys : System) (quiet fd : ℕ) (path bytes : Bytes)
    → Quiet sys quiet
    → Willing sys
    → sys.terminal fd ≡ pos 1
    → Whole path bytes (write_opened sys (length bytes + quiet) path (pos fd) bytes)
unfolding write_opened delivered
write_terminal-Whole sys quiet fd path bytes q t tty =
    subst
      (λ r. Whole path bytes (
        Option.map (λ calls. opened path open_flags (pos fd) ∷ calls)
          (write_terminal sys (length bytes + quiet) fd r bytes)))
      (sym tty) shown
  where
    shown : Whole path bytes (
        Option.map
          (λ calls. opened path open_flags (pos fd) ∷ calls)
          (write_terminal sys (length bytes + quiet) fd (pos 1) bytes))
    shown =
        let (calls, e, d, talk) =
          write_loop-Whole sys path quiet fd (length bytes + quiet) 0 bytes q t (omega arith) in
        (
          opened path open_flags (pos fd) ∷ asked fd (pos 1) ∷ (calls ++ closed fd ∷ []),
          ap
              (λ r.
                Option.map (λ cs. opened path open_flags (pos fd) ∷ cs)
                  (Option.map (λ cs. asked fd (pos 1) ∷ (cs ++ closed fd ∷ [])) r))
              e,
          delivered-append calls (closed fd ∷ []) ∙ append-nil (delivered calls) ∙ d,
          opening open_flags fd
              (confirming fd (pos 1) (λ e. cc) (Talk-append talk (closing fd true silent))),
        )

-- Where the path has no NUL and opens a terminal, and every `write` takes some byte or is
-- interrupted, which ends at some call, the whole block is written, byte for byte, and every byte of
-- it to the descriptor that was opened at the path, which is closed again.
pub write_tty-Whole :
    (sys : System) (quiet fd : ℕ) (tty_path block : Text)
    → Quiet sys quiet
    → Willing sys
    → has_nul (as_bytes tty_path) ≡ false
    → sys.descriptor (as_bytes tty_path) open_flags ≡ pos fd
    → sys.terminal fd ≡ pos 1
    → Whole
        (as_bytes tty_path)
        (as_bytes block)
        (write_tty sys (length (as_bytes block) + quiet) tty_path block)
unfolding write_tty delivered
write_tty-Whole sys quiet fd tty_path block q t no_nul open_answer tty =
    whole (as_bytes block) (has_nul (as_bytes tty_path)) no_nul
  where
    whole :
        (bytes : Bytes) (nul : Bool)
        → nul ≡ false
        → Whole (as_bytes tty_path) bytes (elim (is_empty bytes || nul) [
          | true ↦ some []
          | false ↦
              write_opened sys
                (length bytes + quiet)
                (as_bytes tty_path)
                (sys.descriptor (as_bytes tty_path) open_flags)
                bytes
        ])
    whole [] nul h = ([], refl, refl, silent)
    whole (b ∷ bytes) true h = absurd (cc)
    whole (b ∷ bytes) false h =
        subst
          (λ r.
            Whole (as_bytes tty_path) (b ∷ bytes)
              (write_opened sys (length (b ∷ bytes) + quiet) (as_bytes tty_path) r (b ∷ bytes)))
          (sym open_answer)
          (write_terminal-Whole sys quiet fd (as_bytes tty_path) (b ∷ bytes) q t tty)
