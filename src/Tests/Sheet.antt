-- ===== src/Tests/Sheet.antt =====
-- The sheet at concrete inputs.

use sudowhat.Command.{command_tokens}
use sudowhat.Sheet.Bounds.{format_overflow_bounds}
use sudowhat.Sheet.Told.{read_sheet-format_overflow, nothing_over}
use sudowhat.Sheet.Reader.{read_sheet}
use sudowhat.Sheet.Shown.{call_report, call_sheet}
use sudowhat.Sheet.Units.{Units, utf16}
use sudowhat.Sheet.ReadBack.{reading, IsUnmarked}
use sudowhat.Sheet.Value.{Memory}
use sudowhat.Sheet.Layout.{
  bottom_clean, styled, system_headline, format_truncated, PromptOverflow, format_overflow, format,
  system_sheet,
}
use sudowhat.Sheet.Rendered.{IsSized}
use sudowhat.Utf8.{as_bytes}
use sudowhat.Tests.{argv, argv-IsBytes}
use sudowhat.Sheet.Shown.{format_overflow-all_granted}
use sudowhat.Sheet.Told.{format_truncated-whole}
use sudowhat.Prelude.{
  zero, suc, ◌≡◌, refl, some, none, List, [], ◌∷◌, replicate, ℕ, Bytes, codes, true, length, suc,
  ap, Every, ◌≤◌, false, arith,
}

length-replicate : (n : ℕ) → length (replicate {A = ℕ} n 0) ≡ n
length-replicate zero = refl
length-replicate (suc n) = ap suc (length-replicate n)

-- A system that grants every buffer, filled with zeros.
abbrev generous : Memory
generous = record { malloc = λ value n. some (replicate n 0); toks = λ n. true; lens = λ n. true }

generous-IsSized : IsSized generous
generous-IsSized value n = length-replicate n

abbrev echo : Bytes
echo = codes "/bin/echo"

abbrev hello : List Bytes
hello = codes "echo" ∷ codes "hello" ∷ []

-- The sheet that the repository's own tests expect.
expected_sheet :
    format generous
      (some echo)
      (some (codes "root"))
      none
      (some (codes "AB12"))
      (some hello)
      system_sheet
    ≡ some (
        codes
          "run a command.\n\nRUN AS\nroot\n\nEXECUTE\n/bin/echo hello\n\nVerify Code: AB12\n\nCode must match your terminal.")
unfolding format sudowhat.Escape.escape_bytes sudowhat.Sheet.Value.sw_pf_escape
    sudowhat.Ffi.sw_escape_control as_bytes sudowhat.Utf8.decode sudowhat.Ffi.CString.c_string
    sudowhat.Escape.is_hidden sudowhat.Sheet.Value.sw_pf_command_line
    sudowhat.Ffi.sw_full_command_line sudowhat.Command.full_command_line_bytes
expected_sheet = refl

format_overflow_bounds_example :
    Every
      (λ r. length r.0 ≤ 480)
      (format_overflow generous
        (some echo)
        none
        (some (codes "/tmp"))
        (some (codes "Z96"))
        (some argv)
        system_headline)
format_overflow_bounds_example =
    format_overflow_bounds generous (some echo) none (some (codes "/tmp")) (some (codes "Z96"))
      (some argv) system_headline

format_overflow-all_granted_example :
    format_overflow generous
      (some echo)
      (some (codes "ada"))
      (some (codes "/tmp"))
      (some (codes "Z96"))
      (some argv)
      system_sheet
    ≡ some (
      call_sheet echo
          (some (codes "ada"))
          (some (codes "/tmp"))
          (some (codes "Z96"))
          (some argv)
          system_sheet,
      call_report echo
          (some (codes "ada"))
          (some (codes "/tmp"))
          (some (codes "Z96"))
          (some argv)
          system_sheet,
    )
format_overflow-all_granted_example =
    format_overflow-all_granted echo (some (codes "ada")) (some (codes "/tmp")) (some (codes "Z96"))
      (some argv) system_sheet generous generous-IsSized (omega arith) (omega arith) (omega arith)
      (omega arith) argv-IsBytes

ada-IsUnmarked : IsUnmarked (codes "ada")
ada-IsUnmarked e = cc

tmp-IsUnmarked : IsUnmarked (codes "/tmp")
tmp-IsUnmarked e = cc

read_sheet-format_overflow_example :
    (sheet : Units) × (ov : PromptOverflow) × (format_overflow generous
        (some echo)
        (some (codes "ada"))
        (some (codes "/tmp"))
        (some (codes "Z96"))
        (some argv)
        system_sheet
      ≡ some (sheet, ov))
    × (read_sheet sheet
        ≡ some (
            reading system_sheet
              (codes "Verify Code: Z96")
              (codes "ada")
              (some (codes "/tmp"))
              (command_tokens echo argv)
              ov))
unfolding sudowhat.Escape.escape_bytes as_bytes sudowhat.Utf8.decode sudowhat.Ffi.CString.c_string
    sudowhat.Escape.is_hidden utf16
read_sheet-format_overflow_example =
    read_sheet-format_overflow generous echo (some (codes "ada")) (some (codes "/tmp"))
      (some (codes "Z96")) (some argv) system_sheet generous-IsSized (omega arith) (omega arith)
      (omega arith) (omega arith) argv-IsBytes ada-IsUnmarked tmp-IsUnmarked refl

format_truncated-whole_example :
    (sheet : Units) × (format_truncated generous
        (some echo)
        (some (codes "ada"))
        (some (codes "/tmp"))
        (some (codes "Z96"))
        (some argv)
        system_sheet
      ≡ (some sheet, false))
    × (format generous
          (some echo)
          (some (codes "ada"))
          (some (codes "/tmp"))
          (some (codes "Z96"))
          (some argv)
          system_sheet
        ≡ some sheet)
    × (format_overflow generous
          (some echo)
          (some (codes "ada"))
          (some (codes "/tmp"))
          (some (codes "Z96"))
          (some argv)
          system_sheet
        ≡ some (sheet, nothing_over))
    × (read_sheet sheet
        ≡ some record {
          user = some (codes "ada");
          directory = some (some (codes "/tmp"));
          command = some (command_tokens echo argv);
          verify = codes "Verify Code: Z96";
          closing = styled system_sheet bottom_clean;
        })
unfolding sudowhat.Escape.escape_bytes as_bytes sudowhat.Utf8.decode sudowhat.Ffi.CString.c_string
    sudowhat.Escape.is_hidden utf16 sudowhat.Command.full_command_line_bytes sudowhat.Hex.format_hex
    sudowhat.Hex.format_hex2
format_truncated-whole_example =
    format_truncated-whole generous echo (some (codes "ada")) (some (codes "/tmp"))
      (some (codes "Z96")) (some argv) system_sheet generous-IsSized (omega arith) (omega arith)
      (omega arith) (omega arith) argv-IsBytes ada-IsUnmarked tmp-IsUnmarked refl (omega arith)
      (omega arith) (omega arith)
