-- ===== src/Tests.antt =====
-- The theorems of the rendering at concrete inputs: the path and argv of a command, and bytes that
-- are not UTF-8.
mod Plugin
mod Sheet
mod Mac
mod Ffi
mod Gate
use mathlib.Core.Option
use mathlib.Core.List.{cons-ne-nil}
use sudowhat.Audit.Whole.{write_tty-Whole, Willing, Whole}
use sudowhat.Audit.Emphasis.{strip_sgr-build_block}
use sudowhat.Audit.Display.{read_block-build_block}
use sudowhat.Audit.Block.{build_block}
use sudowhat.Audit.Open.{audit_open-Ends, Ends, open_display-uid}
use sudowhat.Ffi.Contract.{write_result-retry}
use sudowhat.Audit.Lookup.{decimal, find_kv-first, Lacks, entry_of, parse_uid-decimal}
use sudowhat.Audit.Context.{runs_shell, setting_true, find_kv, parse_uid}
use sudowhat.Audit.Tty.{wrote, eintr, failed, write_tty, Outcome, System}
use sudowhat.Audit.Preview.{read_shown, preview}
use sudowhat.Audit.Delivery.{write_tty-Delivers, Quiet, Delivers}
use sudowhat.Ffi.{write_result, sw_full_command_line}
use sudowhat.Audit.Plugin.{show_block, CArray, audit_open, open_display}
use sudowhat.Command.Visible.{full_command_line_bytes-IsVisible}
use sudowhat.Color.Cells.{span_cells}
use sudowhat.Color.LineCells.{flag_style, line_cells}
use sudowhat.Quote.Words.{shell_words-quote_bytes}
use sudowhat.Quote.Visible.{render_token-IsVisiblePart, IsVisiblePart}
use sudowhat.Escape.Clean.{escape_bytes-IsVisible, IsVisible}
use sudowhat.Command.Basename.{last_path_component_cases}
use sudowhat.Color.Strip.{draw-render_command_line, strip_sgr-render_command_line}
use sudowhat.Escape.RoundTrip.{source_bytes-read-escape_bytes}
use sudowhat.Escape.{is_hidden, escape_bytes}
use sudowhat.Color.Palette.{sgr_flag, roles, dim}
use sudowhat.Command.Words.{
  shell_words-full_command_line_bytes, escaped, read_tokens-full_command_line_bytes, read_tokens,
}
use sudowhat.Color.Paint.{paint}
use sudowhat.Quote.{render_token, quote_bytes}
use sudowhat.Color.Line.{render_command_line}
use sudowhat.Escape.Reader.{read}
use sudowhat.Quote.Shell.{shell_words}
use sudowhat.Color.Span.{draw-paint}
use sudowhat.Command.{full_command_line_bytes, last_path_component, command_tokens}
use sudowhat.Command.Tokens.{command_tokens-cons, Repeats}
use sudowhat.Color.Terminal.{showing, empty, draw, strip_sgr}
use sudowhat.Utf8.{as_bytes, source_bytes, decode}
use sudowhat.Prelude.{
  pos, ℕ, zero, suc, none, refl, refl, ◌≡◌, ◌∷◌, IsBytes, codes, Bytes, All, false, [], List, some,
  arith, map, true, ℕ, ◌++◌, ◌≢◌, replicate, ◌⊎◌, ap, get_elem?, length, inl, ◌+◌, inr,
}

-- `/bin/echo echo 'a b' -n`, with an ESC and an invalid byte behind the flag.
abbrev pub path : Bytes
path = codes "/bin/echo"

abbrev pub odd : Bytes
odd = b'-' ∷ b'n' ∷ 0x1B ∷ 0xFF ∷ b'\'' ∷ []

abbrev pub argv : List Bytes
argv = codes "echo" ∷ codes "a b" ∷ odd ∷ []

pub path-IsBytes : IsBytes path
path-IsBytes = omega arith

pub odd-IsBytes : IsBytes odd
odd-IsBytes = omega arith

pub argv-IsBytes : All IsBytes argv
argv-IsBytes = (omega arith, (omega arith, (odd-IsBytes, tt)))

source_bytes-read-escape_bytes_example : source_bytes (read (escape_bytes odd [])) ≡ odd
source_bytes-read-escape_bytes_example = source_bytes-read-escape_bytes odd odd-IsBytes

read_tokens-full_command_line_bytes_example :
    read_tokens (full_command_line_bytes path argv []) ≡ some (path ∷ codes "a b" ∷ odd ∷ [])
unfolding command_tokens last_path_component
read_tokens-full_command_line_bytes_example =
    read_tokens-full_command_line_bytes path argv path-IsBytes argv-IsBytes

shell_words-full_command_line_bytes_example :
    shell_words (full_command_line_bytes path argv [])
    ≡ some (map escaped (command_tokens path argv))
shell_words-full_command_line_bytes_example =
    shell_words-full_command_line_bytes path argv path-IsBytes argv-IsBytes

strip_sgr-render_command_line_example :
    strip_sgr (render_command_line path argv roles []) ≡ full_command_line_bytes path argv []
strip_sgr-render_command_line_example =
    strip_sgr-render_command_line path argv roles path-IsBytes argv-IsBytes

draw-render_command_line_example :
    draw (render_command_line path argv dim []) empty
    ≡ showing (line_cells dim (command_tokens path argv)) []
draw-render_command_line_example = draw-render_command_line path argv dim path-IsBytes argv-IsBytes

shell_words-quote_bytes_example : shell_words (quote_bytes odd []) ≡ some (escape_bytes odd [] ∷ [])
shell_words-quote_bytes_example = shell_words-quote_bytes odd odd-IsBytes

last_path_component_cases_example :
    (last_path_component (codes "/usr/bin/id//") ≡ codes "id")
    × (last_path_component (codes "id//") ≡ codes "id")
    × (last_path_component (codes "///") ≡ codes "/")
    × (last_path_component [] ≡ [])
last_path_component_cases_example =
    last_path_component_cases (codes "/usr/bin") (codes "id") (codes "//")
      (cons-ne-nil b'i' (codes "d")) (refl, (refl, tt)) (refl, (refl, tt))

full_command_line_bytes-IsVisible_example : All IsVisible (full_command_line_bytes path argv [])
full_command_line_bytes-IsVisible_example =
    full_command_line_bytes-IsVisible path argv [] path-IsBytes argv-IsBytes tt
