-- ===== src/Gate/ExecShown.antt =====
-- The value of the execute: line of plugin/sudowhat_approval.m where memory is granted.

use sudowhat.Audit.Emphasis.{IsVisible-NoEscape}
use sudowhat.Color.Line.{render_command_line}
use sudowhat.Color.NoNul.{IsSound-IsScalar}
use sudowhat.Color.Palette.{roles}
use sudowhat.Color.Sound.{render_command_line-IsSound}
use sudowhat.Color.Terminal.{strip_from}
use sudowhat.Audit.Display.{is_empty-read_tokens}
use sudowhat.Command.{command_tokens, full_command_line_bytes}
use sudowhat.Command.Visible.{full_command_line_bytes-IsVisible, full_command_line_bytes-IsDrawn}
use sudowhat.Command.Words.{read_tokens, read_tokens-full_command_line_bytes}
use sudowhat.Ffi.{sw_full_command_line, sw_full_command_line_colored, write_result, read_argv}
use sudowhat.Gate.ExecLine.{
  exec_command_line_with, exec_value, exec_render, exec_command_line, exec_frame, format_exec_line,
  exec_arrays,
}
use sudowhat.Gate.Host.{ExecLayout}
use sudowhat.Mac.Emphasis.{Strips, Strips-plain, Strips-render_command_line}
use sudowhat.Mac.Granted.{IsGranting, rendered}
use sudowhat.Mac.Values.{Allocator, Field, string_text}
use sudowhat.Sheet.Rendered.{read_input-length, read_argv-length, IsDrawn-IsScalar}
use sudowhat.Sheet.Value.{two_calls, arguments}
use sudowhat.Prelude.{
  ◌≡◌, ap, ap₂, ◌∙◌, sym, List, [], ◌∷◌, All, refl, none, some, Option, true, false, Bytes, Text,
  IsBytes, Bool, is_empty, ℕ, length, map, append-nil, if◌then◌else◌,
}

-- The value, coloured by role or plain.
abbrev pub exec_text : Bytes → List Bytes → Bool → Text
exec_text path argv true = render_command_line path argv roles []
exec_text path argv false = full_command_line_bytes path argv []

pub exec_text-Strips :
    (path : Bytes) (argv : List Bytes) (color : Bool)
    → IsBytes path
    → All IsBytes argv
    → Strips (exec_text path argv color) (full_command_line_bytes path argv [])
exec_text-Strips path argv true hp ha = Strips-render_command_line path argv roles hp ha
exec_text-Strips path argv false hp ha =
    Strips-plain _ (IsVisible-NoEscape _ (full_command_line_bytes-IsVisible path argv [] hp ha tt))

-- A text that strips to the line is not empty, because the line has a token.
exec_text-not_empty :
    (path : Bytes) (argv : List Bytes) (t : Text)
    → IsBytes path
    → All IsBytes argv
    → Strips t (full_command_line_bytes path argv [])
    → is_empty t ≡ false
unfolding strip_from command_tokens
exec_text-not_empty path argv [] hp ha s =
    is_empty-read_tokens [] path _
      (ap read_tokens (sym nothing) ∙ read_tokens-full_command_line_bytes path argv hp ha)
  where
    nothing : full_command_line_bytes path argv [] ≡ []
    nothing = sym (append-nil _) ∙ sym (s [])
exec_text-not_empty path argv (c ∷ t) hp ha s = refl

module _ (mem : Allocator) (granting : IsGranting mem) where
  -- Each renderer gives its text, over arrays that are read as the arguments.
  exec_render-colored :
      (path : Bytes) (argv : List Bytes) (ptrs : Option (List (Option Bytes)))
      (lens : Option (List ℕ)) (n : ℕ)
      → IsBytes path
      → All IsBytes argv
      → read_argv ptrs lens n ≡ argv
      → exec_render mem Field.colored sw_full_command_line_colored path ptrs lens n
        ≡ some (exec_text path argv true)
  unfolding exec_render sw_full_command_line_colored
  exec_render-colored path argv ptrs lens n hp ha e =
      ap₂
        (λ p w. string_text (
          two_calls (λ buf cap. write_result (render_command_line p w roles []) buf cap (some 0))
            (mem.malloc Field.colored)))
        (read_input-length path) e
      ∙ rendered mem granting Field.colored (exec_text path argv true)
          (IsSound-IsScalar _ (render_command_line-IsSound path argv roles hp ha))

  exec_render-plain :
      (path : Bytes) (argv : List Bytes) (ptrs : Option (List (Option Bytes)))
      (lens : Option (List ℕ)) (n : ℕ)
      → IsBytes path
      → All IsBytes argv
      → read_argv ptrs lens n ≡ argv
      → exec_render mem Field.plain sw_full_command_line path ptrs lens n
        ≡ some (exec_text path argv false)
  unfolding exec_render sw_full_command_line
  exec_render-plain path argv ptrs lens n hp ha e =
      ap₂
        (λ p w. string_text (
          two_calls (λ buf cap. write_result (full_command_line_bytes p w []) buf cap (some 0))
            (mem.malloc Field.plain)))
        (read_input-length path) e
      ∙ rendered mem granting Field.plain (exec_text path argv false)
          (IsDrawn-IsScalar _ (full_command_line_bytes-IsDrawn path argv hp ha))

  exec_arrays-exec_text :
      (path : Bytes) (argv : List Bytes) (color : Bool)
      → IsBytes path
      → All IsBytes argv
      → exec_arrays mem sw_full_command_line_colored sw_full_command_line path argv color
        ≡ some (exec_text path argv color)
  unfolding exec_arrays exec_value
  exec_arrays-exec_text path [] true hp ha =
      rw (exec_render-colored path [] none none 0 hp ha refl) refl
  exec_arrays-exec_text path [] false hp ha = exec_render-plain path [] none none 0 hp ha refl
  exec_arrays-exec_text path (a ∷ argv) true hp ha =
      rw
        (
          granting.argv_granted (length (a ∷ argv)),
          granting.lens_granted (length (a ∷ argv)),
          exec_render-colored path (a ∷ argv) (some (map some (a ∷ argv)))
              (some (map length (a ∷ argv))) (length (a ∷ argv)) hp ha
              (read_argv-length (a ∷ argv)),
        )
        refl
  exec_arrays-exec_text path (a ∷ argv) false hp ha =
      rw
        (
          granting.argv_granted (length (a ∷ argv)),
          granting.lens_granted (length (a ∷ argv)),
          exec_render-plain path (a ∷ argv) (some (map some (a ∷ argv)))
              (some (map length (a ∷ argv))) (length (a ∷ argv)) hp ha
              (read_argv-length (a ∷ argv)),
        )
        refl

  -- What is in the frame, for every path.
  pub format_exec_line-exec_frame :
      (path : Bytes) (argv : Option (List Bytes)) (layout : ExecLayout) (runas : Option Bytes)
      (frame_color value_color : Bool)
      → IsBytes path
      → All IsBytes (arguments argv)
      → format_exec_line mem (some path) argv layout runas frame_color value_color
        ≡ exec_frame mem layout runas frame_color (exec_text path (arguments argv) value_color)
  unfolding format_exec_line exec_command_line exec_command_line_with
  format_exec_line-exec_frame path argv layout runas frame_color value_color hp ha =
      let text = exec_text path (arguments argv) value_color in
      ap framed (exec_arrays-exec_text path (arguments argv) value_color hp ha)
      ∙ ap (λ nothing. if nothing then none else exec_frame mem layout runas frame_color text)
          (exec_text-not_empty path (arguments argv) text hp ha
            (exec_text-Strips path (arguments argv) value_color hp ha))
    where
      framed : Option Text → Option Text
      framed t = elim t [
        | some value ↦
            if is_empty value then none else exec_frame mem layout runas frame_color value
        | none ↦ none
      ]
