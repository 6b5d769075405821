-- ===== src/Color/Sound.antt =====
-- The coloured line holds scalar values other than NUL.
use sudowhat.Color.Line.{render_command_line}
use sudowhat.Color.NoNul.{IsSound, draw-IsSound}
use sudowhat.Color.Palette.{RoleBase}
use sudowhat.Color.Strip.{draw-render_command_line, strip_sgr-render_command_line}
use sudowhat.Color.Terminal.{ready, strip_sgr}
use sudowhat.Command.Visible.{full_command_line_bytes-IsDrawn}
use sudowhat.Escape.Clean.{IsDrawn, IsVisible-ne_control}
use sudowhat.Prelude.{All, All-map, IsBytes, Bytes, Text, List, [], ap, arith}

pub IsDrawn-IsSound : (t : Text) → All IsDrawn t → All IsSound t
IsDrawn-IsSound t =
    All-map {P = IsDrawn} (λ c h. (omega (arith, (IsVisible-ne_control c h.0).0), h.1)) t

pub render_command_line-IsSound :
    (path : Bytes) (argv : List Bytes) (base : RoleBase)
    → IsBytes path
    → All IsBytes argv
    → All IsSound (render_command_line path argv base [])
unfolding strip_sgr
render_command_line-IsSound path argv base hp ha =
    draw-IsSound _ [] [] ready (ap (λ s. s.state) (draw-render_command_line path argv base hp ha)) (
      rw (strip_sgr-render_command_line path argv base hp ha)
        (IsDrawn-IsSound _ (full_command_line_bytes-IsDrawn path argv hp ha)))
