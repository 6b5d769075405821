-- ===== src/Color/Strip.antt =====
-- The coloured line on the terminal, and the plain line in it.
use sudowhat.Color.Paint.{is_space}
use sudowhat.Color.Cells.{span_cells}
use sudowhat.Color.Line.{is_slash, paint_tokens, paint_token, render_command_line}
use sudowhat.Color.LineDraws.{Draws, paint_tokens-Draws, paint_program-Draws, split_head-take}
use sudowhat.Color.LineCells.{line_cells, arguments_cells, argument_cells, program_cells, dir_cells}
use sudowhat.Color.Palette.{RoleBase, roles, dim}
use sudowhat.Color.Screen.{strip_sgr-draw, characters}
use sudowhat.Color.Terminal.{Style, Cell, draw, showing, styled, empty, strip_sgr}
use sudowhat.Command.{command_tokens, full_command_line_bytes}
use sudowhat.Command.Words.{command_tokens-IsBytes, spaced, push_tokens-line_text}
use sudowhat.Prelude.{
  ℕ, ◌+◌, ◌≡◌, refl, sym, ap, ◌∙◌, Bool, true, false, List, [], ◌∷◌, ◌++◌, Text, Bytes, take, drop,
  rposition, arith, All, inl, inr, IsBytes, Option-cases, take-append-drop,
}
use sudowhat.Quote.Shape.{shown, shown-append}
use sudowhat.Quote.Visible.{render_token-IsVisiblePart}
use sudowhat.Quote.{Part, Rendered, render_token}

-- On a terminal that knows only the palette, the coloured line is drawn as `line_cells` says:
-- every part of every token in the style of its mark, and the routine parts in the styles of the
-- program, of a flag or of a value, whichever variant is drawn. No other sequence is sent, and
-- no style is left in force.
pub draw-render_command_line :
    (path : Bytes) (argv : List Bytes) (base : RoleBase)
    → IsBytes path
    → All IsBytes argv
    → draw (render_command_line path argv base []) empty
      ≡ showing (line_cells base (command_tokens path argv)) []
unfolding render_command_line command_tokens line_cells paint_token paint_tokens draw
draw-render_command_line path argv base hp ha =
    let h = command_tokens-IsBytes path argv hp ha in
    let drawn : Draws (paint_token base 0 path []) (program_cells base (render_token path)) =
      paint_program-Draws base (render_token path) [] [] (render_token-IsVisiblePart path hp)
        refl in
    paint_tokens-Draws base 1 _ _ _ (omega arith) h.1 drawn

characters-append :
    (a b : List Cell) (t u : Text)
    → characters a ≡ t
    → characters b ≡ u
    → characters (a ++ b) ≡ t ++ u
characters-append [] b t u ha hb = rw (← ha) hb
characters-append (c ∷ a) b t u ha hb =
    rw (← ha) (ap (λ x. c.0 ∷ x) (characters-append a b (characters a) u refl hb))

characters-styled : (style : Style) (t : Text) → characters (styled style t) ≡ t
characters-styled style [] = refl
characters-styled style (c ∷ t) = ap (λ u. c ∷ u) (characters-styled style t)

-- The texts of a list of parts, cut at a place.
shown-cut : (n : ℕ) (r : List Part) → shown (take n r) ++ shown (drop n r) ≡ shown r
shown-cut n r = sym (shown-append (take n r) (drop n r)) ∙ ap shown (take-append-drop n r)

-- The characters of a painted span are those of its parts.
characters-span_cells :
    (style : Style) (ms behind : Bool) (r : List Part)
    → characters (span_cells style ms behind r) ≡ shown r
unfolding span_cells
characters-span_cells style ms behind [] = refl
characters-span_cells style ms behind (p ∷ r) =
    characters-append _ _ _ _ (characters-styled _ p.0)
      (characters-span_cells style ms (is_space p) r)

characters-dir_cells :
    (base : RoleBase) (dir : List Part) → characters (dir_cells base dir) ≡ shown dir
unfolding dir_cells
characters-dir_cells dim dir = characters-span_cells _ true true dir
characters-dir_cells roles dir =
    let (n, e) = split_head-take dir in
    rw e (
      characters-append _ _ _ _ (characters-span_cells _ true true (take n dir))
        (characters-span_cells _ true true (drop n dir))
      ∙ shown-cut n dir)

characters-program_cells :
    (base : RoleBase) (r : Rendered) → characters (program_cells base r) ≡ shown r
unfolding program_cells
characters-program_cells base r = elim (Option-cases (rposition is_slash r)) [
  | inl e ↦ rw (e, program_cells) (characters-span_cells _ true true r)
  | inr (idx, e) ↦
      rw (e, program_cells)
        (characters-append _ _ _ _ (characters-dir_cells base (take (idx + 1) r))
            (characters-span_cells _ true true (drop (idx + 1) r))
          ∙ shown-cut (idx + 1) r)
]

characters-arguments_cells :
    (base : RoleBase) (ts : List Bytes) → characters (arguments_cells base ts) ≡ spaced ts
unfolding arguments_cells argument_cells
characters-arguments_cells base [] = refl
characters-arguments_cells base (t ∷ ts) =
    ap (λ u. b' ' ∷ u)
      (characters-append _ _ _ _ (characters-span_cells _ false true (render_token t))
        (characters-arguments_cells base ts))

-- Colour is layout and never content: with the sequences taken out, either variant of the
-- coloured line is the plain command line, character for character.
pub strip_sgr-render_command_line :
    (path : Bytes) (argv : List Bytes) (base : RoleBase)
    → IsBytes path
    → All IsBytes argv
    → strip_sgr (render_command_line path argv base []) ≡ full_command_line_bytes path argv []
unfolding command_tokens line_cells full_command_line_bytes
strip_sgr-render_command_line path argv base hp ha =
    strip_sgr-draw _ (draw-render_command_line path argv base hp ha)
    ∙ characters-append _ _ _ _ (characters-program_cells base (render_token path))
        (characters-arguments_cells base _)
    ∙ sym (push_tokens-line_text path _ [])
