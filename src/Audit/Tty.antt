-- ===== src/Audit/Tty.antt =====
-- `write_tty` of linux/sudowhat_audit/src/tty.rs. The calls of libc, `open`, `isatty` and `write`,
-- are a record of what each answers; a run yields the calls that it makes, in order.
use sudowhat.Prelude.{
  ℤ, pos, negsuc, [], ◌∷◌, true, false, some, none, Bytes, Text, zero, suc, Bool, ℕ, Option, ◌==◌,
  ◌||◌, List, ◌+◌, is_empty, drop, ◌++◌,
}
use sudowhat.Utf8.{as_bytes}
use mathlib.Core.Option

-- `write` returns a count, or fails with an `errno`.
pub data Outcome : Type 0 where
  wrote : ℕ → Outcome
  failed : ℕ → Outcome

-- `answer n bytes` is what the call of `write` behind n others returns.
pub record System : Type 0 where
  pub descriptor : Bytes → ℕ → ℤ
  pub terminal : ℕ → ℤ
  pub answer : ℕ → Bytes → Outcome

pub data Call : Type 0 where
  opened : Bytes → ℕ → ℤ → Call
  asked : ℕ → ℤ → Call
  sent : ℕ → Bytes → Outcome → Call
  closed : ℕ → Call

-- `O_WRONLY | O_NOCTTY | O_CLOEXEC` on Linux, three bits that do not overlap.
abbrev pub open_flags : ℕ
open_flags = 1 + 256 + 524288

abbrev pub eintr : ℕ
eintr = 4

-- One round of the loop, where `write` has answered: again at the same bytes, or behind those that
-- were written, or the end of the loop.
unfoldable pub after_write :
    ℕ → Bytes → Outcome → Option (List Call) → (ℕ → Option (List Call)) → Option (List Call)
after_write fd bytes (failed errno) again next = elim (errno == eintr) [
  | true ↦ Option.map (λ calls. sent fd bytes (failed errno) ∷ calls) again
  | false ↦ some (sent fd bytes (failed errno) ∷ [])
]
after_write fd bytes (wrote zero) again next = some (sent fd bytes (wrote 0) ∷ [])
after_write fd bytes (wrote (suc w)) again next =
    Option.map (λ calls. sent fd bytes (wrote (suc w)) ∷ calls) (next (suc w))

-- The loop of `write_tty` at the bytes behind `off`; `none` where the fuel runs out.
unfoldable pub write_loop : System → ℕ → ℕ → ℕ → Bytes → Option (List Call)
unfolding after_write
write_loop sys fd fuel n [] = some []
write_loop sys fd zero n (b ∷ bytes) = none
write_loop sys fd (suc fuel) n (b ∷ bytes) =
    after_write fd (b ∷ bytes) (sys.answer n (b ∷ bytes))
      (write_loop sys fd fuel (n + 1) (b ∷ bytes))
      (λ w. write_loop sys fd fuel (n + 1) (drop w (b ∷ bytes)))

-- Where `isatty` has answered.
unfoldable pub write_terminal : System → ℕ → ℕ → ℤ → Bytes → Option (List Call)
unfolding write_loop
write_terminal sys fuel fd (pos (suc zero)) bytes =
    Option.map (λ calls. asked fd (pos 1) ∷ (calls ++ closed fd ∷ []))
      (write_loop sys fd fuel 0 bytes)
write_terminal sys fuel fd tty bytes = some (asked fd tty ∷ closed fd ∷ [])

-- Where `open` has answered.
unfoldable pub write_opened : System → ℕ → Bytes → ℤ → Bytes → Option (List Call)
unfolding write_terminal
write_opened sys fuel path (negsuc e) bytes = some (opened path open_flags (negsuc e) ∷ [])
write_opened sys fuel path (pos fd) bytes =
    Option.map (λ calls. opened path open_flags (pos fd) ∷ calls)
      (write_terminal sys fuel fd (sys.terminal fd) bytes)

-- Whether `CString::new` finds a NUL within.
abbrev pub has_nul : Bytes → Bool
has_nul [] = false
has_nul (b ∷ s) = b == 0 || has_nul s

unfoldable pub write_tty : System → ℕ → Text → Text → Option (List Call)
unfolding write_opened
write_tty sys fuel tty_path block =
    let bytes = as_bytes block in
    let path = as_bytes tty_path in
    elim (is_empty bytes || has_nul path) [
      | true ↦ some []
      | false ↦ write_opened sys fuel path (sys.descriptor path open_flags) bytes
    ]
