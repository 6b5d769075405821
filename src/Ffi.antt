-- ===== src/Ffi.antt =====
-- The C boundary of shared/escape_core/src/lib.rs. A pointer is null or the memory behind it; the
-- caller's buffer and its `needed` cell are passed in and given back.
pub mod CString
pub mod Input
pub mod Contract
pub mod Lines
use sudowhat.Prelude.{
  [], ◌∷◌, some, none, Bytes, Text, zero, suc, ℕ, ◌++◌, Option, List, drop, if◌then◌else◌, length,
  ltb, ◌==◌, ◌+◌, take,
}
use sudowhat.Utf8.{as_bytes}
use sudowhat.Escape.{escape_bytes}
use sudowhat.Quote.{quote_bytes}
use sudowhat.Command.{full_command_line_bytes}
use sudowhat.Color.Line.{render_command_line}
use sudowhat.Color.Palette.{roles, dim}
use mathlib.Core.Option

abbrev pub sw_escape_ok : ℕ
sw_escape_ok = 0

abbrev pub sw_escape_truncated : ℕ
sw_escape_truncated = 1

abbrev pub read_input : Option Bytes → ℕ → Bytes
read_input none len = []
read_input (some memory) len = if len == 0 then [] else take len memory

-- The loop of `read_argv` over the elements that both arrays hold.
abbrev pub read_elements : ℕ → List (Option Bytes) → List ℕ → List Bytes
read_elements zero argv argv_lens = []
read_elements (suc count) [] argv_lens = []
read_elements (suc count) (ptr ∷ argv) [] = []
read_elements (suc count) (ptr ∷ argv) (len ∷ argv_lens) =
    read_input ptr len ∷ read_elements count argv argv_lens

abbrev pub read_argv : Option (List (Option Bytes)) → Option (List ℕ) → ℕ → List Bytes
read_argv none argv_lens count = []
read_argv (some argv) none count = []
read_argv (some argv) (some argv_lens) count = read_elements count argv argv_lens

-- What a call gives back: its result, the caller's cell and the caller's buffer.
pub record Written : Type 0 where
  pub code : ℕ
  pub needed : Option ℕ
  pub out : Option Bytes

abbrev pub copy_result : Bytes → Bytes → Bytes
copy_result bytes memory = bytes ++ 0 ∷ drop (length bytes + 1) memory

unfoldable pub write_result : Text → Option Bytes → ℕ → Option ℕ → Written
write_result result none out_cap needed =
    let n = length (as_bytes result) in
    record { code = sw_escape_truncated; needed = Option.map (λ _. n) needed; out = none }
write_result result (some memory) out_cap needed =
    let n = length (as_bytes result) in
    if ltb out_cap (n + 1)
    then record {
      code = sw_escape_truncated;
      needed = Option.map (λ _. n) needed;
      out = some memory;
    }
    else record {
      code = sw_escape_ok;
      needed = Option.map (λ _. n) needed;
      out = some (copy_result (as_bytes result) memory);
    }

-- The input and its length, then the buffer, its capacity and the cell.
unfoldable pub sw_escape_control : Option Bytes → ℕ → Option Bytes → ℕ → Option ℕ → Written
unfolding write_result
sw_escape_control input input_len = write_result (escape_bytes (read_input input input_len) [])

unfoldable pub sw_quote_token : Option Bytes → ℕ → Option Bytes → ℕ → Option ℕ → Written
unfolding write_result
sw_quote_token input input_len = write_result (quote_bytes (read_input input input_len) [])

module _ (path : Option Bytes) (path_len : ℕ) (argv : Option (List (Option Bytes)))
    (argv_lens : Option (List ℕ)) (argv_count : ℕ) where
  unfoldable pub sw_full_command_line : Option Bytes → ℕ → Option ℕ → Written
  unfolding write_result
  sw_full_command_line =
      write_result (
        full_command_line_bytes (read_input path path_len) (read_argv argv argv_lens argv_count) [])

  unfoldable pub sw_full_command_line_colored : Option Bytes → ℕ → Option ℕ → Written
  unfolding write_result
  sw_full_command_line_colored = write_result (
      render_command_line (read_input path path_len) (read_argv argv argv_lens argv_count) roles [])

  unfoldable pub sw_full_command_line_colored_dim : Option Bytes → ℕ → Option ℕ → Written
  unfolding write_result
  sw_full_command_line_colored_dim =
      write_result (
        render_command_line (read_input path path_len) (read_argv argv argv_lens argv_count) dim [])
