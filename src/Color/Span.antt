-- ===== src/Color/Span.antt =====
-- `paint` draws the cells that `span_cells` describes.
use sudowhat.Quote.Visible.{IsVisiblePart}
use sudowhat.Color.Run.{replicate-IsVisible, run_cells, run_style}
use sudowhat.Color.Cells.{
  span_cells, part_style, edge, hidden_style, meta_style, ours_style, space_style,
  starts_with_space, starts_with_space-drop, run_test,
}
use sudowhat.Color.Paint.{
  Pen, push_plain, push_span, is_space, spaces_ahead, paint_run, paint_part, paint_from, paint,
}
use sudowhat.Color.Refine.{Inked, push_span-Inked, push_plain-Inked, finish-Inked}
use sudowhat.Color.Palette.{sgr_ours, sgr_meta, sgr_hidden, sgr_space}
use sudowhat.Color.Screen.{Begins, Begins-hidden, Begins-meta, Begins-ours, Begins-space}
use sudowhat.Color.Terminal.{Style, Cell, draw, showing, styled, empty}
use sudowhat.Escape.Clean.{IsVisible}
use sudowhat.Prelude.{
  ℕ, zero, suc, ◌+◌, ◌≡◌, refl, sym, ap, ◌∙◌, Bool, true, false, ◌&&◌, ◌||◌, ◌==◌, List, [], ◌∷◌,
  ◌++◌, if◌then◌else◌, Text, replicate, drop, arith, All, append_assoc, append-nil, Bool-cases, inl,
  inr, ◌⊎◌, bytes_eq_iff, and_parts,
}
use sudowhat.Quote.{Mark, plain, ours, meta, Part}

not_start : (i : ℕ) → false ≡ (i + 1 == 0)
not_start i = ground arith

-- `behind` matters only where a space stands next, and then it is the test for the start.
abbrev Fits : Bool → Bool → ℕ → ℕ → List Part → Type 0
Fits ms behind i drawn rest =
    ((ms && starts_with_space (drop drawn rest)) ≡ false) ⊎ ((drawn ≡ 0) × (behind ≡ (i == 0)))

Fits-suc :
    (ms behind : Bool) (i d : ℕ) (p : Part) (rest : List Part)
    → Fits ms behind i (suc d) (p ∷ rest)
    → Fits ms behind (i + 1) d rest
Fits-suc ms behind i d p rest (inl h) = inl h
Fits-suc ms behind i d p rest (inr h) = absurd (omega arith)

Fits-start :
    (ms behind : Bool) (i : ℕ) (t : Text) (rest : List Part)
    → (ms && is_space (t, plain)) ≡ true
    → Fits ms behind i 0 ((t, plain) ∷ rest)
    → behind ≡ (i == 0)
Fits-start ms behind i t rest e (inl h) = cc
Fits-start ms behind i t rest e (inr h) = h.1

no_run :
    (ms space : Bool) (i : ℕ) (rest : List Part)
    → (ms && space) ≡ false
    → Fits ms space (i + 1) 0 rest
no_run false space i rest h = inl refl
no_run true space i rest h = inr (refl, h ∙ not_start i)

module _ (base : Text) (ms : Bool) (i : ℕ) (p : Part) (rest : List Part) (pen : Pen) where
  paint_from-suc :
      (d : ℕ) → paint_from base ms (suc d) i (p ∷ rest) pen ≡ paint_from base ms d (i + 1) rest pen
  unfolding paint_from
  paint_from-suc d = refl

  paint_from-zero :
      paint_from base ms 0 i (p ∷ rest) pen
      ≡ paint_from base ms
          (paint_part base ms i p rest pen).1
          (i + 1)
          rest
          (paint_part base ms i p rest pen).0
  unfolding paint_from
  paint_from-zero = refl

module _ (base : Text) (style : Style) (begins : Begins base style) where
  choose-Inked :
      (b : Bool) (text : Text) (pen : Pen) (cells : List Cell)
      → All IsVisible text
      → Inked style pen cells
      → Inked style
          (if b then push_span text sgr_space pen else push_plain text base pen)
          (cells ++ styled (if b then space_style else style) text)
  choose-Inked true text pen cells h ink =
      push_span-Inked base style begins text sgr_space space_style pen cells Begins-space h ink
  choose-Inked false text pen cells h ink = push_plain-Inked base style begins text pen cells h ink

  paint_run-Inked :
      (i : ℕ) (rest : List Part) (pen : Pen) (cells : List Cell)
      → Inked style pen cells
      → Inked style (paint_run base i rest pen) (
          cells
          ++ styled (run_style style (i == 0) rest) (replicate (suc (spaces_ahead rest)) b' '))
  unfolding paint_run
  paint_run-Inked i rest pen cells ink = rw (run_test (i == 0) rest) (
      choose-Inked ((i == 0) || edge rest) _ pen cells
        (replicate-IsVisible (suc (spaces_ahead rest))) ink)

  -- What one round of the loop at `p` comes to: the pen's cells, and what is left to draw.
  record Round (ms behind : Bool) (i : ℕ) (p : Part) (rest : List Part) (cells : List Cell)
      (r : Pen × ℕ) : Type 0 where
    shown_cells : List Cell
    next_behind : Bool
    inked : Inked style r.0 shown_cells
    fits : Fits ms next_behind (i + 1) r.1 rest
    left :
        shown_cells ++ span_cells style ms next_behind (drop r.1 rest)
        ≡ cells ++ span_cells style ms behind (p ∷ rest)

  span-Round :
      (ms behind : Bool) (i : ℕ) (p : Part) (rest : List Part) (pen : Pen) (cells : List Cell)
      (color : Text) (mark : Style)
      → Begins color mark
      → part_style style ms behind p rest ≡ mark
      → is_space p ≡ false
      → IsVisiblePart p
      → Inked style pen cells
      → Round ms behind i p rest cells (push_span p.0 color pen, 0)
  span-Round ms behind i p rest pen cells color mark begun e f v ink = record {
    shown_cells = cells ++ styled mark p.0;
    next_behind = false;
    inked = push_span-Inked base style begins p.0 color mark pen cells begun v ink;
    fits = inr (refl, not_start i);
    left = unfold span_cells in rw (e, f) (append_assoc cells (styled mark p.0) _);
  }

  run-Round :
      (behind : Bool) (i : ℕ) (rest : List Part) (pen : Pen) (cells : List Cell)
      → behind ≡ (i == 0)
      → Inked style pen cells
      → Round true behind i
          (b' ' ∷ [], plain)
          rest
          cells
          (paint_run base i rest pen, spaces_ahead rest)
  run-Round behind i rest pen cells h ink = record {
    shown_cells = _;
    next_behind = false;
    inked = paint_run-Inked i rest pen cells ink;
    fits = inl (starts_with_space-drop rest);
    left =
        append_assoc cells _ _
        ∙ ap (λ cs. cells ++ cs)
            (sym (
              run_cells style behind false ((i == 0) || edge rest) rest
                (ap (λ b. b || edge rest) h)));
  }

  plain-Round :
      (ms behind : Bool) (i : ℕ) (t : Text) (rest : List Part) (pen : Pen) (cells : List Cell)
      → (ms && is_space (t, plain)) ≡ false
      → All IsVisible t
      → Inked style pen cells
      → Round ms behind i (t, plain) rest cells (push_plain t base pen, 0)
  plain-Round ms behind i t rest pen cells e v ink = record {
    shown_cells = cells ++ styled style t;
    next_behind = is_space (t, plain);
    inked = push_plain-Inked base style begins t pen cells v ink;
    fits = no_run ms (is_space (t, plain)) i rest e;
    left = unfold span_cells in rw e (append_assoc cells (styled style t) _);
  }

  paint_part-Round :
      (ms behind : Bool) (i : ℕ) (p : Part) (rest : List Part) (pen : Pen) (cells : List Cell)
      → Fits ms behind i 0 (p ∷ rest)
      → IsVisiblePart p
      → Inked style pen cells
      → Round ms behind i p rest cells (paint_part base ms i p rest pen)
  unfolding paint_part
  paint_part-Round ms behind i (t, ours) rest pen cells h v ink =
      span-Round ms behind i (t, ours) rest pen cells sgr_ours ours_style Begins-ours refl refl v
        ink
  paint_part-Round ms behind i (t, meta) rest pen cells h v ink =
      span-Round ms behind i (t, meta) rest pen cells sgr_meta meta_style Begins-meta refl refl v
        ink
  paint_part-Round ms behind i (t, Mark.hidden) rest pen cells h v ink =
      span-Round ms behind i (t, Mark.hidden) rest pen cells sgr_hidden hidden_style Begins-hidden
        refl refl v ink
  paint_part-Round ms behind i (t, plain) rest pen cells h v ink =
      elim (Bool-cases (ms && is_space (t, plain))) [
        | inl e ↦
            let (is_ms, is_sp) = and_parts ms (is_space (t, plain)) e in
            let t_is = (bytes_eq_iff t (b' ' ∷ [])).0 is_sp in
            rw (is_ms, t_is)
              (run-Round behind i rest pen cells (Fits-start ms behind i t rest e h) ink)
        | inr e ↦ rw e (plain-Round ms behind i t rest pen cells e v ink)
      ]

  paint_from-Inked :
      (ms : Bool) (drawn i : ℕ) (rest : List Part) (behind : Bool) (pen : Pen) (cells : List Cell)
      → All IsVisiblePart rest
      → Fits ms behind i drawn rest
      → Inked style pen cells
      → Inked style
          (paint_from base ms drawn i rest pen)
          (cells ++ span_cells style ms behind (drop drawn rest))
  paint_from-Inked ms zero i [] behind pen cells v h ink =
      unfold paint_from span_cells in rw append-nil ink
  paint_from-Inked ms (suc d) i [] behind pen cells v h ink =
      unfold paint_from span_cells in rw append-nil ink
  paint_from-Inked ms (suc d) i (p ∷ rest) behind pen cells v h ink = rw paint_from-suc (
      paint_from-Inked ms d (i + 1) rest behind pen cells v.1 (Fits-suc ms behind i d p rest h) ink)
  paint_from-Inked ms zero i (p ∷ rest) behind pen cells v h ink =
      let round = paint_part-Round ms behind i p rest pen cells h v.0 ink in
      rw (paint_from-zero, ← round.left)
        (paint_from-Inked ms (paint_part base ms i p rest pen).1 (i + 1) rest round.next_behind
          (paint_part base ms i p rest pen).0 round.shown_cells v.1 round.fits round.inked)

-- `paint` appends to a line, between two sequences, the cells of its span: each part in the style
-- of its mark, plain parts in the base's, and in the program the spaces that stand at an end of
-- the span or beside another space marked. It leaves no style in force.
pub draw-paint :
    (base : Text) (style : Style) (ms : Bool) (span : List Part) (out : Text) (cells : List Cell)
    → Begins base style
    → All IsVisiblePart span
    → draw out empty ≡ showing cells []
    → draw (paint span base ms out) empty ≡ showing (cells ++ span_cells style ms true span) []
unfolding paint
draw-paint base style ms span out cells begins v h =
    let start : Pen = record { armed = false; out = out } in
    finish-Inked base style begins _ _
      (paint_from-Inked base style begins ms 0 0 span true start cells v (inr (refl, refl)) h)
