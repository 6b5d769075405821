-- ===== src/Ffi/Lines.antt =====
-- What C gets of each rendering with the second call.
use mathlib.Core.Option.{some-injective}
use mathlib.Core.Option
use sudowhat.Color.Sound.{render_command_line-IsSound}
use sudowhat.Escape.{escape_bytes}
use sudowhat.Quote.{quote_bytes}
use sudowhat.Color.Line.{render_command_line}
use sudowhat.Command.{full_command_line_bytes}
use sudowhat.Prelude.{
  Every, [], ◌≡◌, some, none, Bytes, Text, ℕ, All, IsBytes, length, ◌+◌, List, Option,
}
use sudowhat.Utf8.{as_bytes}
use sudowhat.Ffi.{
  sw_full_command_line_colored_dim, sw_quote_token, sw_escape_control, sw_full_command_line_colored,
  read_input, read_argv, sw_full_command_line,
}
use sudowhat.Escape.Clean.{escape_bytes-IsVisible}
use sudowhat.Command.Visible.{quote_bytes-IsVisible, full_command_line_bytes-IsVisible}
use sudowhat.Color.NoNul.{IsNonzero, IsSound-IsNonzero}
use sudowhat.Ffi.CString.{c_string, IsVisible-IsNonzero}
use sudowhat.Ffi.Input.{read_input-IsBytes, read_argv-IsBytes}
use sudowhat.Ffi.Contract.{c_string-write_result}
use sudowhat.Color.Palette.{RoleBase, roles, dim}

-- An escaped value reaches C whole: after a call that asks for the length with no buffer, one with
-- room for that length and a byte yields its bytes. No NUL of the escaping cuts them off.
pub c_string-sw_escape_control :
    (input : Option Bytes) (len : ℕ) (memory : Bytes) (n : ℕ)
    → Every IsBytes input
    → (sw_escape_control input len none 0 (some 0)).needed ≡ some n
    → length memory ≡ n + 1
    → Option.map c_string (sw_escape_control input len (some memory) (n + 1) (some 0)).out
      ≡ some (as_bytes (escape_bytes (read_input input len) []))
unfolding sw_escape_control
c_string-sw_escape_control input len memory n h asked room =
    c_string-write_result (escape_bytes (read_input input len) []) memory n
      (IsVisible-IsNonzero _ (escape_bytes-IsVisible _ [] (read_input-IsBytes input len h) tt))
      asked room

-- A quoted token reaches C whole after a call that asks for the length, like an escaped value.
pub c_string-sw_quote_token :
    (input : Option Bytes) (len : ℕ) (memory : Bytes) (n : ℕ)
    → Every IsBytes input
    → (sw_quote_token input len none 0 (some 0)).needed ≡ some n
    → length memory ≡ n + 1
    → Option.map c_string (sw_quote_token input len (some memory) (n + 1) (some 0)).out
      ≡ some (as_bytes (quote_bytes (read_input input len) []))
unfolding sw_quote_token
c_string-sw_quote_token input len memory n h asked room =
    c_string-write_result (quote_bytes (read_input input len) []) memory n
      (IsVisible-IsNonzero _ (quote_bytes-IsVisible _ (read_input-IsBytes input len h))) asked room

render_command_line-IsNonzero :
    (path : Bytes) (argv : List Bytes) (base : RoleBase)
    → IsBytes path
    → All IsBytes argv
    → All IsNonzero (render_command_line path argv base [])
render_command_line-IsNonzero path argv base hp ha =
    IsSound-IsNonzero _ (render_command_line-IsSound path argv base hp ha)

module _ (path : Option Bytes) (path_len : ℕ) (argv : Option (List (Option Bytes)))
    (lens : Option (List ℕ)) (count : ℕ) (memory : Bytes) (n : ℕ) (hp : Every IsBytes path)
    (ha : Every (All (Every IsBytes)) argv) (room : length memory ≡ n + 1) where
  abbrev plain : Text
  plain = full_command_line_bytes (read_input path path_len) (read_argv argv lens count) []

  abbrev colored : RoleBase → Text
  colored base = render_command_line (read_input path path_len) (read_argv argv lens count) base []

  plain-IsNonzero : All IsNonzero plain
  plain-IsNonzero = IsVisible-IsNonzero _ (
      full_command_line_bytes-IsVisible _ _ [] (read_input-IsBytes path path_len hp)
        (read_argv-IsBytes argv lens count ha) tt)

  colored-IsNonzero : (base : RoleBase) → All IsNonzero (colored base)
  colored-IsNonzero base =
      render_command_line-IsNonzero (read_input path path_len) (read_argv argv lens count) base
        (read_input-IsBytes path path_len hp) (read_argv-IsBytes argv lens count ha)

  -- The command line reaches C whole: after a call that asks for the length with no buffer, one with
  -- room for that length and a byte yields its bytes. No NUL of the rendering cuts them off.
  pub c_string-sw_full_command_line :
      (sw_full_command_line path path_len argv lens count none 0 (some 0)).needed ≡ some n
      → Option.map c_string
          (sw_full_command_line path path_len argv lens count (some memory) (n + 1) (some 0)).out
        ≡ some (as_bytes plain)
  unfolding sw_full_command_line
  c_string-sw_full_command_line asked =
      c_string-write_result plain memory n plain-IsNonzero asked room

  -- The coloured line reaches C whole, its sequences included: the call that asks for the length
  -- with no buffer, and then one with room for that length and a byte, yields its bytes.
  pub c_string-sw_full_command_line_colored :
      (sw_full_command_line_colored path path_len argv lens count none 0 (some 0)).needed ≡ some n
      → Option.map c_string
          (sw_full_command_line_colored path path_len argv lens count
            (some memory)
            (n + 1)
            (some 0)).out
        ≡ some (as_bytes (colored roles))
  unfolding sw_full_command_line_colored
  c_string-sw_full_command_line_colored asked =
      c_string-write_result (colored roles) memory n (colored-IsNonzero roles) asked room

  -- The dim variant of the coloured line reaches C whole in the same way.
  pub c_string-sw_full_command_line_colored_dim :
      (sw_full_command_line_colored_dim path path_len argv lens count none 0 (some 0)).needed
        ≡ some n
      → Option.map c_string
          (sw_full_command_line_colored_dim path path_len argv lens count
            (some memory)
            (n + 1)
            (some 0)).out
        ≡ some (as_bytes (colored dim))
  unfolding sw_full_command_line_colored_dim
  c_string-sw_full_command_line_colored_dim asked =
      c_string-write_result (colored dim) memory n (colored-IsNonzero dim) asked room
