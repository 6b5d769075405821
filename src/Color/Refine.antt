-- ===== src/Color/Refine.antt =====
-- What the terminal shows of a pen's text after each push.

use sudowhat.Color.Paint.{Pen, push_plain, push_span, finish}
use sudowhat.Color.Palette.{sgr_reset}
use sudowhat.Color.Screen.{draw-append, draw-IsVisible, Begins, reset_lem}
use sudowhat.Color.Terminal.{Style, Cell, Screen, draw, showing, styled, empty}
use sudowhat.Escape.Clean.{IsVisible}
use sudowhat.Prelude.{
  ◌≡◌, refl, sym, ap, ◌∙◌, Bool, true, false, ◌&&◌, List, [], ◌∷◌, ◌++◌, if◌then◌else◌, Text,
  is_empty, All, not, push_str,
}

-- What `armed` and `out` show, the base's style in force while it is armed.
abbrev pub Shows : Style → Bool → Text → List Cell → Type 0
Shows style armed out cells = draw out empty ≡ showing cells (if armed then style else [])

disarm :
    (style : Style) (armed : Bool) (out : Text) (cells : List Cell)
    → Shows style armed out cells
    → draw (if armed then push_str out sgr_reset else out) empty ≡ showing cells []
disarm style true out cells h = rw (draw-append, h) (reset_lem cells style)
disarm style false out cells h = h

-- Before plain text the base is put in force, unless it is empty or in force already.
abbrev arms : Text → Bool → Bool
arms base armed = not (is_empty base) && not armed

arm :
    (base : Text) (style : Style) (armed : Bool) (out : Text) (cells : List Cell)
    → Begins base style
    → Shows style armed out cells
    → draw (if arms base armed then push_str out base else out) empty ≡ showing cells style
arm [] style true out cells b h = h
arm [] style false out cells b h = unfold draw in h ∙ b cells
arm (c ∷ base) style true out cells b h = h
arm (c ∷ base) style false out cells b h = rw (draw-append, h) (b cells)

armed_style :
    (base : Text) (style : Style) (armed : Bool)
    → Begins base style
    → style ≡ (if (if arms base armed then true else armed) then style else [])
armed_style [] style true b = refl
armed_style [] style false b = unfold draw in ap (λ (s : Screen). s.style) (sym (b []))
armed_style (c ∷ base) style true b = refl
armed_style (c ∷ base) style false b = refl

abbrev pub Inked : Style → Pen → List Cell → Type 0
Inked style pen cells = Shows style pen.armed pen.out cells

module _ (base : Text) (style : Style) (begins : Begins base style) where
  pub push_span-Inked :
      (text color : Text) (mark : Style) (pen : Pen) (cells : List Cell)
      → Begins color mark
      → All IsVisible text
      → Inked style pen cells
      → Inked style (push_span text color pen) (cells ++ styled mark text)
  unfolding push_span
  push_span-Inked text color mark pen cells begun h ink =
      rw
        (
          draw-append,
          draw-append,
          draw-append,
          disarm style pen.armed pen.out cells ink,
          begun cells,
          draw-IsVisible text cells mark h,
        )
        (reset_lem _ mark)

  pub push_plain-Inked :
      (text : Text) (pen : Pen) (cells : List Cell)
      → All IsVisible text
      → Inked style pen cells
      → Inked style (push_plain text base pen) (cells ++ styled style text)
  unfolding push_plain
  push_plain-Inked text pen cells h ink =
      draw-append _ text empty
      ∙ ap (draw text) (arm base style pen.armed pen.out cells begins ink)
      ∙ draw-IsVisible text cells style h
      ∙ ap (showing (cells ++ styled style text)) (armed_style base style pen.armed begins)

  pub finish-Inked :
      (pen : Pen) (cells : List Cell)
      → Inked style pen cells
      → draw (finish pen) empty ≡ showing cells []
  unfolding finish
  finish-Inked pen cells ink = disarm style pen.armed pen.out cells ink
