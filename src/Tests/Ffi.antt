-- ===== src/Tests/Ffi.antt =====
-- What C gets at concrete buffers.
use mathlib.Core.Option
use sudowhat.Ffi.Contract.{write_result_bounds, Leaves}
use sudowhat.Escape.{is_hidden}
use sudowhat.Command.{full_command_line_bytes}
use sudowhat.Ffi.{write_result, sw_full_command_line}
use sudowhat.Utf8.{decode, as_bytes}
use sudowhat.Ffi.CString.{c_string}
use sudowhat.Ffi.Lines.{c_string-sw_full_command_line}
use sudowhat.Prelude.{
  [], ◌∷◌, ◌≡◌, some, none, refl, Bytes, codes, IsBytes, arith, length, replicate,
}

abbrev path : Bytes
path = codes "/bin/id"

path-IsBytes : IsBytes path
path-IsBytes = omega arith

c_string-sw_full_command_line_example :
    Option.map c_string
      (sw_full_command_line (some path) 7 none none 0 (some (replicate 8 7)) 8 (some 0)).out
    ≡ some (as_bytes (full_command_line_bytes path [] []))
unfolding as_bytes sw_full_command_line full_command_line_bytes decode is_hidden
c_string-sw_full_command_line_example =
    c_string-sw_full_command_line (some path) 7 none none 0 (replicate 8 7) 7 path-IsBytes tt refl
      refl

write_result_bounds_example :
    ((write_result (codes "ok") (some (7 ∷ 7 ∷ 7 ∷ 9 ∷ [])) 3 (some 0)).needed
      ≡ some (length (as_bytes (codes "ok"))))
    × Leaves
        (as_bytes (codes "ok"))
        (some (7 ∷ 7 ∷ 7 ∷ 9 ∷ []))
        3
        (write_result (codes "ok") (some (7 ∷ 7 ∷ 7 ∷ 9 ∷ [])) 3 (some 0)).code
        (write_result (codes "ok") (some (7 ∷ 7 ∷ 7 ∷ 9 ∷ [])) 3 (some 0)).out
write_result_bounds_example =
    write_result_bounds (codes "ok") (some (7 ∷ 7 ∷ 7 ∷ 9 ∷ [])) 3 (some 0) (omega arith)
      (omega arith)
