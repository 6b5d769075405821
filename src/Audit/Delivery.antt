-- ===== src/Audit/Delivery.antt =====
-- `write_tty` of linux/sudowhat_audit/src/tty.rs, whatever libc answers.
use mathlib.Core.Option
use sudowhat.Utf8.{as_bytes}
use sudowhat.Audit.Calls.{
  delivered, delivered-append, Talk, Talk-append, shut, held, silent, opening, failing, asking,
  confirming, sending, closing,
}
use sudowhat.Prelude.{
  ℤ, true, false, zero, suc, pos, negsuc, [], ◌∷◌, ◌≡◌, some, refl, Bytes, List, ℕ, Option, ◌++◌,
  take, length, drop, ap, ◌≤◌, append_assoc, ◌≢◌, ◌+◌, ◌-◌, ◌∙◌, arith, take-append-drop, ◌<◌,
  Bool-cases, ◌==◌, ltb, inl, inr, ==_iff, Text, Bool, append-nil, is_empty, ◌||◌,
}
use sudowhat.Audit.Tty.{
  has_nul, open_flags, write_terminal, write_opened, write_tty, after_write, Outcome, wrote, failed,
  System, Call, opened, asked, sent, closed, write_loop, eintr,
}

-- A run that ends, with the beginning of the bytes delivered to the terminal at a path.
abbrev pub Delivers : Bytes → Bytes → Option (List Call) → Type 0
Delivers path bytes run =
    (calls : List Call) × (rest : Bytes) × (run ≡ some calls)
    × (delivered calls ++ rest ≡ bytes)
    × Talk path shut calls shut

-- From the call `quiet` on, no signal interrupts a `write`.
abbrev pub Quiet : System → ℕ → Type 0
Quiet sys quiet = (n : ℕ) (bytes : Bytes) → quiet ≤ n → sys.answer n bytes ≢ failed eintr

-- The calls of the loop: what they deliver, all of it to the one terminal that is open.
abbrev pub Loops : Bytes → ℕ → Bytes → Option (List Call) → Type 0
Loops path fd bytes run =
    (calls : List Call) × (rest : Bytes) × (run ≡ some calls)
    × (delivered calls ++ rest ≡ bytes)
    × Talk path (held fd true) calls (held fd true)

Loops-sent :
    (path : Bytes) (fd w : ℕ) (bytes : Bytes) (run : Option (List Call))
    → Loops path fd (drop w bytes) run
    → Loops path fd bytes (Option.map (λ calls. sent fd bytes (wrote w) ∷ calls) run)
unfolding delivered
Loops-sent path fd w bytes run (calls, rest, e, d, t) = (
  sent fd bytes (wrote w) ∷ calls,
  rest,
  ap (Option.map (λ cs. sent fd bytes (wrote w) ∷ cs)) e,
  append_assoc (take w bytes) (delivered calls) rest
      ∙ ap (λ t. take w bytes ++ t) d
      ∙ take-append-drop w bytes,
  sending fd bytes (wrote w) t,
)

Loops-failed :
    (path : Bytes) (fd e : ℕ) (bytes : Bytes) (run : Option (List Call))
    → Loops path fd bytes run
    → Loops path fd bytes (Option.map (λ calls. sent fd bytes (failed e) ∷ calls) run)
unfolding delivered
Loops-failed path fd e bytes run (calls, rest, same, d, t) = (
  sent fd bytes (failed e) ∷ calls,
  rest,
  ap (Option.map (λ cs. sent fd bytes (failed e) ∷ cs)) same,
  d,
  sending fd bytes (failed e) t,
)

Loops-after_write :
    (path : Bytes) (fd : ℕ) (bytes : Bytes) (o : Outcome) (again : Option (List Call))
    (next : ℕ → Option (List Call))
    → (o ≡ failed eintr → Loops path fd bytes again)
    → ((w : ℕ) → Loops path fd (drop (suc w) bytes) (next (suc w)))
    → Loops path fd bytes (after_write fd bytes o again next)
unfolding after_write delivered
Loops-after_write path fd bytes (wrote zero) again next ha hn =
    (sent fd bytes (wrote 0) ∷ [], bytes, refl, refl, sending fd bytes (wrote 0) silent)
Loops-after_write path fd bytes (wrote (suc w)) again next ha hn =
    Loops-sent path fd (suc w) bytes (next (suc w)) (hn w)
Loops-after_write path fd bytes (failed e) again next ha hn =
    retried (e == eintr) (λ same. ha (ap failed ((==_iff e eintr).0 same)))
  where
    retried :
        (again_now : Bool)
        → (again_now ≡ true → Loops path fd bytes again)
        → Loops path fd bytes (elim again_now [
          | true ↦ Option.map (λ calls. sent fd bytes (failed e) ∷ calls) again
          | false ↦ some (sent fd bytes (failed e) ∷ [])
        ])
    retried true h = Loops-failed path fd e bytes again (h refl)
    retried false h =
        (sent fd bytes (failed e) ∷ [], bytes, refl, refl, sending fd bytes (failed e) silent)

pub interrupted_early :
    (sys : System) (quiet n : ℕ) (bytes : Bytes)
    → Quiet sys quiet
    → sys.answer n bytes ≡ failed eintr
    → n < quiet
interrupted_early sys quiet n bytes q e = elim (Bool-cases (ltb n quiet)) [
  | inl same ↦ ground arith
  | inr other ↦ absurd (q n bytes (ground arith) e)
]

pub length-drop : (w b : ℕ) (bytes : Bytes) → length (drop (suc w) (b ∷ bytes)) ≤ length bytes
length-drop zero b bytes = omega arith
length-drop (suc w) b [] = omega arith
length-drop (suc w) b (c ∷ bytes) = omega (arith, length-drop w c bytes)

pub write_loop-Loops :
    (sys : System) (path : Bytes) (quiet fd fuel n : ℕ) (bytes : Bytes)
    → Quiet sys quiet
    → length bytes + (quiet - n) ≤ fuel
    → Loops path fd bytes (write_loop sys fd fuel n bytes)
unfolding write_loop delivered
write_loop-Loops sys path quiet fd fuel n [] q h = ([], [], refl, refl, silent)
write_loop-Loops sys path quiet fd zero n (b ∷ bytes) q h = absurd (omega (arith, h))
write_loop-Loops sys path quiet fd (suc fuel) n (b ∷ bytes) q h =
    Loops-after_write path fd (b ∷ bytes) (sys.answer n (b ∷ bytes)) _ _
      (λ e.
        write_loop-Loops sys path quiet fd fuel (n + 1) (b ∷ bytes) q
          (omega (arith, h, interrupted_early sys quiet n (b ∷ bytes) q e)))
      (λ w.
        write_loop-Loops sys path quiet fd fuel (n + 1) (drop (suc w) (b ∷ bytes)) q
          (omega (arith, h, length-drop w b bytes)))

-- A loop between `open` and `close`, where `isatty` has said that there is a terminal.
pub Delivers-terminal :
    (path : Bytes) (flags fd : ℕ) (tty : ℤ) (bytes : Bytes) (run : Option (List Call))
    → tty ≢ pos 0
    → Loops path fd bytes run
    → Delivers path bytes (
        Option.map
          (λ calls. opened path flags (pos fd) ∷ calls)
          (Option.map (λ calls. asked fd tty ∷ (calls ++ closed fd ∷ [])) run))
unfolding delivered
Delivers-terminal path flags fd tty bytes run is_tty (calls, rest, e, d, t) = (
  opened path flags (pos fd) ∷ asked fd tty ∷ (calls ++ closed fd ∷ []),
  rest,
  ap
      (λ r.
        Option.map (λ cs. opened path flags (pos fd) ∷ cs)
          (Option.map (λ cs. asked fd tty ∷ (cs ++ closed fd ∷ [])) r))
      e,
  ap (λ t. t ++ rest) (delivered-append calls (closed fd ∷ []) ∙ append-nil (delivered calls)) ∙ d,
  opening flags fd (confirming fd tty is_tty (Talk-append t (closing fd true silent))),
)

-- No terminal: the descriptor is closed again.
pub Delivers-no_terminal :
    (path : Bytes) (flags fd : ℕ) (tty : ℤ) (bytes : Bytes)
    → Delivers path bytes (some (opened path flags (pos fd) ∷ asked fd tty ∷ closed fd ∷ []))
unfolding delivered
Delivers-no_terminal path flags fd tty bytes =
    (_, bytes, refl, refl, opening flags fd (asking fd tty (closing fd false silent)))

pub Delivers-failed :
    (path : Bytes) (flags e : ℕ) (bytes : Bytes)
    → Delivers path bytes (some (opened path flags (negsuc e) ∷ []))
unfolding delivered
Delivers-failed path flags e bytes = (_, bytes, refl, refl, failing flags e silent)

write_opened-Delivers :
    (sys : System) (quiet : ℕ) (path : Bytes) (r : ℤ) (bytes : Bytes)
    → Quiet sys quiet
    → Delivers path bytes (write_opened sys (length bytes + quiet) path r bytes)
unfolding write_opened write_terminal
write_opened-Delivers sys quiet path (negsuc e) bytes q = Delivers-failed path open_flags e bytes
write_opened-Delivers sys quiet path (pos fd) bytes q = answered (sys.terminal fd)
  where
    answered :
        (tty : ℤ)
        → Delivers path bytes (
            Option.map
              (λ calls. opened path open_flags (pos fd) ∷ calls)
              (write_terminal sys (length bytes + quiet) fd tty bytes))
    answered (pos zero) = Delivers-no_terminal path open_flags fd (pos 0) bytes
    answered (pos (suc zero)) =
        Delivers-terminal path open_flags fd (pos 1) bytes _ (λ e. cc)
          (write_loop-Loops sys path quiet fd (length bytes + quiet) 0 bytes q (omega arith))
    answered (pos (suc (suc k))) = Delivers-no_terminal path open_flags fd (pos (suc (suc k))) bytes
    answered (negsuc e) = Delivers-no_terminal path open_flags fd (negsuc e) bytes

-- If no `write` is interrupted any more from some call on, the write to the terminal comes to an
-- end, within as many rounds as there are bytes and interruptions. Whatever libc answers, short
-- writes and errors included, the calls talk to the terminal at the path: what is written goes to the
-- descriptor that was opened there, after `isatty` has said that it is a terminal, and that descriptor
-- is closed, once. What was taken is the beginning of the block, with no byte twice or left out.
pub write_tty-Delivers :
    (sys : System) (quiet : ℕ) (tty_path block : Text)
    → Quiet sys quiet
    → Delivers
        (as_bytes tty_path)
        (as_bytes block)
        (write_tty sys (length (as_bytes block) + quiet) tty_path block)
unfolding write_tty delivered
write_tty-Delivers sys quiet tty_path block q =
    guarded (is_empty (as_bytes block) || has_nul (as_bytes tty_path))
  where
    guarded :
        (nothing : Bool)
        → Delivers (as_bytes tty_path) (as_bytes block) (elim nothing [
          | true ↦ some []
          | false ↦
              write_opened sys
                (length (as_bytes block) + quiet)
                (as_bytes tty_path)
                (sys.descriptor (as_bytes tty_path) open_flags)
                (as_bytes block)
        ])
    guarded true = ([], as_bytes block, refl, refl, silent)
    guarded false = write_opened-Delivers sys quiet _ _ (as_bytes block) q
