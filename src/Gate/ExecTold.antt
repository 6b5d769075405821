-- ===== src/Gate/ExecTold.antt =====
-- The execute: line of plugin/sudowhat_approval.m and its reader, together.
use sudowhat.Audit.Lookup.{strip_prefix-append}
use sudowhat.Audit.Preview.{lines}
use sudowhat.Audit.Shown.{lines-row}
use sudowhat.Color.Terminal.{strip_sgr, strip_from}
use sudowhat.Command.{command_tokens, full_command_line_bytes}
use sudowhat.Command.Visible.{full_command_line_bytes-IsVisible}
use sudowhat.Command.Words.{read_tokens, read_tokens-full_command_line_bytes}
use sudowhat.Gate.ExecLine.{format_exec_line, exec_ending}
use sudowhat.Gate.ExecRead.{
  front, behind, read_framed, read_exec_line, front-IsVisible, exec_frame-Strips,
}
use sudowhat.Gate.ExecShown.{exec_text, exec_text-Strips, format_exec_line-exec_frame}
use sudowhat.Gate.Host.{ExecLayout, grouped, solo}
use sudowhat.Mac.Granted.{IsGranting}
use sudowhat.Mac.Values.{Allocator}
use sudowhat.Sheet.Value.{arguments}
use mathlib.Core.Option
use sudowhat.Prelude.{
  ◌≡◌, ap, ◌∙◌, sym, List, [], ◌∷◌, ◌++◌, All, refl, none, some, Option, false, Bytes, Text, Every,
  IsBytes, Bool, append-nil, append_assoc,
}

lines-behind : (layout : ExecLayout) → lines (exec_ending layout) ≡ behind layout
unfolding lines
lines-behind grouped = refl
lines-behind solo = refl

-- A line without its sequences, read behind its frame.
read_framed-front :
    (layout : ExecLayout) (runas : Option Bytes) (path : Bytes) (argv : List Bytes)
    → Every IsBytes runas
    → IsBytes path
    → All IsBytes argv
    → read_framed (front layout runas) (
        lines (
          front layout runas
          ++ (full_command_line_bytes path argv [] ++ b'\n' ∷ exec_ending layout)))
      ≡ some (command_tokens path argv, behind layout)
read_framed-front layout runas path argv hr hp ha =
    let frame = front layout runas in
    let text = full_command_line_bytes path argv [] in
    ap (λ t. read_framed frame (lines t))
      (ap (λ u. frame ++ u) (sym (append_assoc text (b'\n' ∷ []) (exec_ending layout)))
        ∙ sym (append_assoc frame (text ++ b'\n' ∷ []) (exec_ending layout)))
    ∙ ap (read_framed frame) (
        lines-row frame text (exec_ending layout) (front-IsVisible layout runas hr)
          (full_command_line_bytes-IsVisible path argv [] hp ha tt))
    ∙ ap at_line (strip_prefix-append frame text)
    ∙ (λ i.
        Option.map (λ tokens. (tokens, lines-behind layout i))
          (read_tokens-full_command_line_bytes path argv hp ha i))
  where
    at_line : Option Text → Option (List Bytes × List Text)
    at_line found = elim found [
      | some line ↦ Option.map (λ tokens. (tokens, lines (exec_ending layout))) (read_tokens line)
      | none ↦ none
    ]

-- The execute: line is always made where memory is granted, and its reader, who knows the frame of the
-- site and the user that it names, finds behind the frame every token of the resolved command: the
-- path, and the arguments, the first of them left out where it repeats the path. Nothing follows but
-- the blank line of a table. This holds in both layouts, with a named user or without, for arguments
-- and none, and whatever is coloured.
pub read_exec_line-format_exec_line :
    (mem : Allocator) (path : Bytes) (argv : Option (List Bytes)) (layout : ExecLayout)
    (runas : Option Bytes) (frame_color value_color : Bool)
    → IsGranting mem
    → IsBytes path
    → All IsBytes (arguments argv)
    → Every IsBytes runas
    → Option.map
        (read_exec_line (front layout runas))
        (format_exec_line mem (some path) argv layout runas frame_color value_color)
      ≡ some (some (command_tokens path (arguments argv), behind layout))
unfolding read_exec_line strip_sgr
read_exec_line-format_exec_line mem path argv layout runas frame_color value_color granting hp ha
      hr =
    let frame = front layout runas in
    let line = full_command_line_bytes path (arguments argv) [] in
    let (t, e, s) =
      exec_frame-Strips mem granting layout runas frame_color
        (exec_text path (arguments argv) value_color) line hr
        (exec_text-Strips path (arguments argv) value_color hp ha) in
    ap (Option.map (read_exec_line frame)) (
      format_exec_line-exec_frame mem granting path argv layout runas frame_color value_color hp ha
      ∙ e)
    ∙ ap (λ u. some (read_framed frame (lines u)))
        (ap (strip_from false) (sym (append-nil t)) ∙ s [] ∙ append-nil _)
    ∙ ap some (read_framed-front layout runas path (arguments argv) hr hp ha)
