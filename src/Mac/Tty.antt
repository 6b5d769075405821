-- ===== src/Mac/Tty.antt =====
-- `sw_audit_write_tty` of plugin/sudowhat_audit.m, over the calls of libc that Audit/Tty records.
use sudowhat.Audit.Tty.{
  System, Call, Outcome, wrote, failed, opened, asked, sent, closed, eintr, write_loop, after_write,
}
use sudowhat.Audit.Delivery.{
  Delivers-no_terminal, Delivers-failed, Quiet, Delivers, Loops, write_loop-Loops,
  Delivers-terminal,
}
use sudowhat.Audit.Calls.{silent}
use mathlib.Core.Option
use sudowhat.Prelude.{
  ℕ, zero, suc, ◌+◌, ℤ, pos, negsuc, List, [], ◌∷◌, ◌++◌, Bytes, Option, none, some, drop, is_empty,
  if◌then◌else◌, ◌==◌, true, false, ◌≡◌, ◌≢◌, refl, ap, length, arith, ◌∙◌, Bool,
}

-- `O_WRONLY | O_NOCTTY | O_CLOEXEC` on macOS, three bits that do not overlap.
abbrev pub mac_open_flags : ℕ
mac_open_flags = 0x1 + 0x20000 + 0x1000000

-- One round of the loop, where `write` has answered: a count of 0 is a round at the same bytes.
unfoldable pub mac_after_write :
    ℕ → Bytes → Outcome → Option (List Call) → (ℕ → Option (List Call)) → Option (List Call)
mac_after_write fd bytes (failed errno) again next = elim (errno == eintr) [
  | true ↦ Option.map (λ calls. sent fd bytes (failed errno) ∷ calls) again
  | false ↦ some (sent fd bytes (failed errno) ∷ [])
]
mac_after_write fd bytes (wrote w) again next =
    Option.map (λ calls. sent fd bytes (wrote w) ∷ calls) (next w)

-- The loop at the bytes behind `off`; `none` where the fuel runs out.
unfoldable pub mac_write_loop : System → ℕ → ℕ → ℕ → Bytes → Option (List Call)
unfolding mac_after_write
mac_write_loop sys fd fuel n [] = some []
mac_write_loop sys fd zero n (b ∷ bytes) = none
mac_write_loop sys fd (suc fuel) n (b ∷ bytes) =
    mac_after_write fd (b ∷ bytes) (sys.answer n (b ∷ bytes))
      (mac_write_loop sys fd fuel (n + 1) (b ∷ bytes))
      (λ w. mac_write_loop sys fd fuel (n + 1) (drop w (b ∷ bytes)))

-- Where `isatty` has answered.
unfoldable pub mac_write_terminal : System → ℕ → ℕ → ℤ → Bytes → Option (List Call)
unfolding mac_write_loop
mac_write_terminal sys fuel fd (pos zero) bytes = some (asked fd (pos 0) ∷ closed fd ∷ [])
mac_write_terminal sys fuel fd tty bytes =
    Option.map (λ calls. asked fd tty ∷ (calls ++ closed fd ∷ []))
      (mac_write_loop sys fd fuel 0 bytes)

-- Where `open` has answered.
unfoldable pub mac_write_opened : System → ℕ → Bytes → ℤ → Bytes → Option (List Call)
unfolding mac_write_terminal
mac_write_opened sys fuel path (negsuc e) bytes = some (opened path mac_open_flags (negsuc e) ∷ [])
mac_write_opened sys fuel path (pos fd) bytes =
    Option.map (λ calls. opened path mac_open_flags (pos fd) ∷ calls)
      (mac_write_terminal sys fuel fd (sys.terminal fd) bytes)

unfoldable pub mac_write_tty : System → ℕ → Bytes → Bytes → Option (List Call)
unfolding mac_write_opened
mac_write_tty sys fuel tty_path bytes =
    if is_empty bytes
    then some []
    else mac_write_opened sys fuel tty_path (sys.descriptor tty_path mac_open_flags) bytes

-- `write` never takes nothing.
abbrev pub Progresses : System → Type 0
Progresses sys = (n : ℕ) (bytes : Bytes) → sys.answer n bytes ≢ wrote 0

after_write-agrees :
    (fd : ℕ) (bytes : Bytes) (o : Outcome) (again : Option (List Call))
    (next : ℕ → Option (List Call))
    → o ≢ wrote 0
    → mac_after_write fd bytes o again next ≡ after_write fd bytes o again next
unfolding mac_after_write after_write
after_write-agrees fd bytes (failed e) again next h = refl
after_write-agrees fd bytes (wrote zero) again next h = absurd (h refl)
after_write-agrees fd bytes (wrote (suc w)) again next h = refl

mac_write_loop-write_loop :
    (sys : System) (fd fuel n : ℕ) (bytes : Bytes)
    → Progresses sys
    → mac_write_loop sys fd fuel n bytes ≡ write_loop sys fd fuel n bytes
unfolding mac_write_loop write_loop
mac_write_loop-write_loop sys fd fuel n [] h = refl
mac_write_loop-write_loop sys fd zero n (b ∷ bytes) h = refl
mac_write_loop-write_loop sys fd (suc fuel) n (b ∷ bytes) h =
    (λ i.
      mac_after_write fd (b ∷ bytes) (sys.answer n (b ∷ bytes))
        (mac_write_loop-write_loop sys fd fuel (n + 1) (b ∷ bytes) h i)
        (λ w. mac_write_loop-write_loop sys fd fuel (n + 1) (drop w (b ∷ bytes)) h i))
    ∙ after_write-agrees fd (b ∷ bytes) (sys.answer n (b ∷ bytes)) _ _ (h n (b ∷ bytes))

mac_write_loop-Loops :
    (sys : System) (path : Bytes) (quiet fd : ℕ) (bytes : Bytes)
    → Quiet sys quiet
    → Progresses sys
    → Loops path fd bytes (mac_write_loop sys fd (length bytes + quiet) 0 bytes)
mac_write_loop-Loops sys path quiet fd bytes q h =
    rw (mac_write_loop-write_loop sys fd (length bytes + quiet) 0 bytes h)
      (write_loop-Loops sys path quiet fd (length bytes + quiet) 0 bytes q (omega arith))

mac_write_opened-Delivers :
    (sys : System) (quiet : ℕ) (path : Bytes) (r : ℤ) (bytes : Bytes)
    → Quiet sys quiet
    → Progresses sys
    → Delivers path bytes (mac_write_opened sys (length bytes + quiet) path r bytes)
unfolding mac_write_opened mac_write_terminal
mac_write_opened-Delivers sys quiet path (negsuc e) bytes q h =
    Delivers-failed path mac_open_flags e bytes
mac_write_opened-Delivers sys quiet path (pos fd) bytes q h = answered (sys.terminal fd)
  where
    answered :
        (tty : ℤ)
        → Delivers path bytes (
            Option.map
              (λ calls. opened path mac_open_flags (pos fd) ∷ calls)
              (mac_write_terminal sys (length bytes + quiet) fd tty bytes))
    answered (pos zero) = Delivers-no_terminal path mac_open_flags fd (pos 0) bytes
    answered (pos (suc k)) =
        Delivers-terminal path mac_open_flags fd (pos (suc k)) bytes _ (λ e. cc)
          (mac_write_loop-Loops sys path quiet fd bytes q h)
    answered (negsuc e) =
        Delivers-terminal path mac_open_flags fd (negsuc e) bytes _ (λ e. cc)
          (mac_write_loop-Loops sys path quiet fd bytes q h)

-- If no `write` is interrupted any more from some call on, and none takes nothing, the write to the
-- terminal comes to an end on macOS too, within as many rounds as there are bytes and interruptions.
-- The calls talk to the terminal at the path: what is written goes to the descriptor that was opened
-- there, after `isatty` has said that it is a terminal, and that descriptor is closed, once. What was
-- taken is the beginning of the block, with no byte twice or left out.
pub mac_write_tty-Delivers :
    (sys : System) (quiet : ℕ) (tty_path bytes : Bytes)
    → Quiet sys quiet
    → Progresses sys
    → Delivers tty_path bytes (mac_write_tty sys (length bytes + quiet) tty_path bytes)
unfolding mac_write_tty sudowhat.Audit.Calls.delivered
mac_write_tty-Delivers sys quiet tty_path bytes q h = guarded (is_empty bytes)
  where
    guarded :
        (nothing : Bool)
        → Delivers tty_path bytes (
            if nothing
            then some []
            else mac_write_opened sys
                (length bytes + quiet)
                tty_path
                (sys.descriptor tty_path mac_open_flags)
                bytes)
    guarded true = ([], bytes, refl, refl, silent)
    guarded false = mac_write_opened-Delivers sys quiet tty_path _ bytes q h

-- A device whose `write` always takes nothing.
abbrev pub Stalls : System → Type 0
Stalls sys = (n : ℕ) (bytes : Bytes) → sys.answer n bytes ≡ wrote 0

-- On such a device the loop never ends, whatever the fuel is, unless there is nothing to write.
pub mac_write_loop-Stalls :
    (sys : System) (fd fuel n : ℕ) (b : ℕ) (bytes : Bytes)
    → Stalls sys
    → mac_write_loop sys fd fuel n (b ∷ bytes) ≡ none
unfolding mac_write_loop
mac_write_loop-Stalls sys fd zero n b bytes h = refl
mac_write_loop-Stalls sys fd (suc fuel) n b bytes h =
    rw (h n (b ∷ bytes), mac_after_write)
      (ap (Option.map (λ calls. sent fd (b ∷ bytes) (wrote 0) ∷ calls))
        (mac_write_loop-Stalls sys fd fuel (n + 1) b bytes h))
