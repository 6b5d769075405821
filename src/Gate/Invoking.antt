-- ===== src/Gate/Invoking.antt =====
-- `sudowhat_open` and `sudowhat_close` of plugin/sudowhat_approval.m: what is known of the invoking
-- user between them. `strtoul` is the C library's, and an argument.
use sudowhat.Prelude.{
  ℤ, pos, negsuc, false, some, none, Bytes, codes, ℕ, List, Bool, Option, not, ◌==◌, ◌/◌, ◌%◌, ◌-◌,
  is_empty, take, if◌then◌else◌,
}
use sudowhat.Audit.Context.{find_kv}

-- `sw_invoking_ctx`: a field is `none` where its `have` flag is off.
pub record Invoking : Type 0 where
  pub uid : Option ℕ
  pub tty : Option Bytes
  pub cwd : Option Bytes
  pub term_program : Option Bytes
  pub term : Option Bytes
  pub no_color : Bool

-- What `ttyname` and the open of the controlling terminal answer.
pub record Terminals : Type 0 where
  pub of_stderr : Option Bytes
  pub of_stdin : Option Bytes
  pub controlling : ℤ
  pub of_controlling : Option Bytes

-- `sudowhat_close`, and the state before any `open`.
abbrev pub closed_ctx : Invoking
closed_ctx = record {
  uid = none;
  tty = none;
  cwd = none;
  term_program = none;
  term = none;
  no_color = false;
}

-- A value that is there and not empty is copied into a buffer of the given size.
abbrev pub capture : ℕ → Option Bytes → Option Bytes → Option Bytes
capture size none old = old
capture size (some v) old = if is_empty v then old else some (take (size - 1) v)

abbrev pub or_else : Option Bytes → Option Bytes → Option Bytes
or_else (some v) other = some v
or_else none other = other

-- The terminal's name, from three sources in turn.
unfoldable pub capture_tty : Terminals → List Bytes → Option Bytes → Option Bytes
capture_tty terminals user_info old =
    let told = capture 256 (find_kv user_info (codes "tty")) old in
    let named =
      or_else told (capture 256 (or_else (terminals.of_stderr) (terminals.of_stdin)) none) in
    or_else named (elim (terminals.controlling) [
      | pos fd ↦ capture 256 (terminals.of_controlling) none
      | negsuc n ↦ none
    ])

abbrev pub is_set : Option Bytes → Bool
is_set none = false
is_set (some v) = not (is_empty v)

-- `(uid_t)strtoul(…)`: the low 32 bits.
abbrev pub to_uid : (Bytes → ℕ) → Bytes → ℕ
to_uid strtoul uid_str = strtoul uid_str % 4294967296

-- `sudowhat_open`: its result, and the context behind it.
unfoldable pub approval_open :
    (Bytes → ℕ) → Terminals → ℕ → List Bytes → List Bytes → Invoking → ℤ × Invoking
unfolding capture_tty
approval_open strtoul terminals version user_info submit_envp ctx =
    if not (version / 65536 == 1) then (negsuc 0, ctx) else elim (find_kv user_info (codes "uid")) [
      | none ↦ (negsuc 0, ctx)
      | some uid_str ↦ (
        pos 1,
        record {
          uid = some (to_uid strtoul uid_str);
          tty = capture_tty terminals user_info (ctx.tty);
          cwd = capture 1024 (find_kv user_info (codes "cwd")) (ctx.cwd);
          term_program = capture 64 (find_kv submit_envp (codes "TERM_PROGRAM")) (ctx.term_program);
          term = capture 64 (find_kv submit_envp (codes "TERM")) (ctx.term);
          no_color = is_set (find_kv submit_envp (codes "NO_COLOR"));
        },
      )
    ]
