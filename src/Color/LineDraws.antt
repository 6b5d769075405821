-- ===== src/Color/LineDraws.antt =====
-- Each part of `render_command_line` draws its cells.
use sudowhat.Escape.Clean.{ascii-IsVisible}
use sudowhat.Quote.Visible.{render_token-IsVisiblePart, IsVisiblePart}
use sudowhat.Color.Line.{
  paint_token, paint_tokens, head_start, some_and, is_slash, split_head, is_flag, paint_dir,
  paint_program, paint_argument,
}
use sudowhat.Color.Palette.{RoleBase, roles, dim, prog_head, prog_middle, prog_base, flag, value}
use sudowhat.Color.Screen.{draw-IsVisible, draw-append, Begins}
use sudowhat.Color.Span.{draw-paint}
use sudowhat.Color.Terminal.{Cell, draw, showing, empty}
use sudowhat.Prelude.{
  ℕ, ◌+◌, ◌≡◌, refl, true, false, List, [], ◌∷◌, ◌++◌, Text, Bytes, take, drop, rposition, All,
  All-drop, append_assoc, Bool-cases, inl, inr, Option-cases, All-take, get_elem?, position, push,
  ◌<◌, arith, IsBytes, append-nil, lt→ltb,
}
use sudowhat.Quote.{Part, Rendered, render_token}
use sudowhat.Color.LineCells.{
  head_style, middle_style, base_style, flag_style, value_style, dir_cells, program_cells,
  argument_cells, arguments_cells,
}

-- Text that a terminal shows as these cells, with no style left in force.
abbrev pub Draws : Text → List Cell → Type 0
Draws out cells = draw out empty ≡ showing cells []

Begins-prog_head : (base : RoleBase) → Begins (prog_head base) (head_style base)
unfolding draw
Begins-prog_head roles cells = refl
Begins-prog_head dim cells = refl

Begins-prog_middle : (base : RoleBase) → Begins (prog_middle base) (middle_style base)
unfolding draw
Begins-prog_middle roles cells = refl
Begins-prog_middle dim cells = refl

Begins-prog_base : (base : RoleBase) → Begins (prog_base base) (base_style base)
unfolding draw
Begins-prog_base roles cells = refl
Begins-prog_base dim cells = refl

Begins-flag : (base : RoleBase) → Begins (flag base) (flag_style base)
unfolding draw
Begins-flag roles cells = refl
Begins-flag dim cells = refl

Begins-value : (base : RoleBase) → Begins (value base) (value_style base)
unfolding draw
Begins-value roles cells = refl
Begins-value dim cells = refl

-- The two parts of a split are what stands before and behind one place.
pub split_head-take : (dir : List Part) → (n : ℕ) × (split_head dir ≡ (take n dir, drop n dir))
unfolding split_head
split_head-take dir = elim (Bool-cases (some_and (get_elem? dir (head_start dir)) is_slash)) [
  | inr e ↦ (0, rw e)
  | inl e ↦ elim (Option-cases (position is_slash (drop (head_start dir + 1) dir))) [
    | inl f ↦ (0, rw (e, f))
    | inr (p, f) ↦ (head_start dir + 1 + p, rw (e, f))
  ]
]

paint_dir-Draws :
    (base : RoleBase) (dir : List Part) (out : Text) (cells : List Cell)
    → All IsVisiblePart dir
    → Draws out cells
    → Draws (paint_dir base dir out) (cells ++ dir_cells base dir)
unfolding paint_dir dir_cells
paint_dir-Draws dim dir out cells v h =
    draw-paint (prog_head dim) (head_style dim) true dir out cells (Begins-prog_head dim) v h
paint_dir-Draws roles dir out cells v h =
    let (n, e) = split_head-take dir in
    rw (e, ← append_assoc cells _ _)
      (draw-paint (prog_middle roles) (middle_style roles) true (drop n dir) _ _
        (Begins-prog_middle roles) (All-drop _ n dir v)
        (draw-paint (prog_head roles) (head_style roles) true (take n dir) out cells
          (Begins-prog_head roles) (All-take _ n dir v) h))

pub paint_program-Draws :
    (base : RoleBase) (r : Rendered) (out : Text) (cells : List Cell)
    → All IsVisiblePart r
    → Draws out cells
    → Draws (paint_program base r out) (cells ++ program_cells base r)
unfolding paint_program program_cells
paint_program-Draws base r out cells v h = elim (Option-cases (rposition is_slash r)) [
  | inl e ↦
      rw (e, paint_program, program_cells)
        (draw-paint (prog_base base) (base_style base) true r out cells (Begins-prog_base base) v h)
  | inr (idx, e) ↦
      rw (e, paint_program, program_cells)
        (rw (← append_assoc cells _ _) (
          draw-paint (prog_base base) (base_style base) true (drop (idx + 1) r) _ _
            (Begins-prog_base base) (All-drop _ (idx + 1) r v)
            (paint_dir-Draws base (take (idx + 1) r) out cells (All-take _ (idx + 1) r v) h)))
]

paint_argument-Draws :
    (base : RoleBase) (r : Rendered) (out : Text) (cells : List Cell)
    → All IsVisiblePart r
    → Draws out cells
    → Draws (paint_argument base r out) (cells ++ argument_cells base r)
unfolding paint_argument argument_cells
paint_argument-Draws base r out cells v h = elim (Bool-cases (is_flag r)) [
  | inl e ↦ rw e (draw-paint (flag base) (flag_style base) false r out cells (Begins-flag base) v h)
  | inr e ↦
      rw e (draw-paint (value base) (value_style base) false r out cells (Begins-value base) v h)
]

paint_token-argument :
    (base : RoleBase) (i : ℕ) (t : Bytes) (out : Text)
    → 0 < i
    → paint_token base i t out ≡ paint_argument base (render_token t) out
unfolding paint_token
paint_token-argument base i t out pos = ground arith

space-Draws :
    (out : Text) (cells : List Cell)
    → Draws out cells
    → Draws (push out b' ') (cells ++ (b' ', []) ∷ [])
space-Draws out cells h =
    rw (draw-append, h)
      (draw-IsVisible (b' ' ∷ []) cells [] (ascii-IsVisible b' ' (omega arith) (omega arith), tt))

pub paint_tokens-Draws :
    (base : RoleBase) (i : ℕ) (ts : List Bytes) (out : Text) (cells : List Cell)
    → 0 < i
    → All IsBytes ts
    → Draws out cells
    → Draws (paint_tokens base i ts out) (cells ++ arguments_cells base ts)
unfolding paint_tokens arguments_cells
paint_tokens-Draws base i [] out cells pos hb h = rw append-nil h
paint_tokens-Draws base i (t ∷ ts) out cells pos hb h =
    let spaced = space-Draws out cells h in
    let drawn =
      paint_argument-Draws base (render_token t) _ _ (render_token-IsVisiblePart t hb.0) spaced in
    rw (lt→ltb 0 i pos) (
      rw
        (
          paint_token-argument base i t _ pos,
          ← append_assoc cells ((b' ', []) ∷ []) _,
          ← append_assoc (cells ++ (b' ', []) ∷ []) _ _,
        )
        (paint_tokens-Draws base (i + 1) ts _ _ (omega arith) hb.1 drawn))
