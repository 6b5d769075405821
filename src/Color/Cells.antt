-- ===== src/Color/Cells.antt =====
-- What a painted span looks like, part by part: each part in the style of its mark, and a space of
-- the program marked if it stands at an end of its span or beside another space.
use sudowhat.Color.Paint.{is_space, spaces_ahead}
use sudowhat.Color.Terminal.{Style, Cell, styled}
use sudowhat.Prelude.{
  suc, ◌≡◌, refl, Bool, true, false, ◌&&◌, ◌||◌, List, [], ◌∷◌, ◌++◌, if◌then◌else◌, codes,
  is_empty, leb, ◌==◌, length, replicate, drop, arith, ap, Bool-cases, bytes_eq_iff, inl, inr, ◌∙◌,
}
use sudowhat.Quote.{Mark, plain, ours, meta, Part}

abbrev pub hidden_style : Style
hidden_style = codes "7;31" ∷ []

abbrev pub meta_style : Style
meta_style = codes "1;36" ∷ []

abbrev pub ours_style : Style
ours_style = codes "2" ∷ []

abbrev pub space_style : Style
space_style = codes "100" ∷ []

abbrev pub starts_with_space : List Part → Bool
starts_with_space [] = false
starts_with_space (p ∷ _) = is_space p

-- Whether the end of the span or a space stands next.
abbrev pub edge : List Part → Bool
edge rest = is_empty rest || starts_with_space rest

-- The style of a part. `behind` tells whether the start of the span or a space stands before it.
abbrev pub part_style : Style → Bool → Bool → Part → List Part → Style
part_style base mark_spaces behind (t, ours) rest = ours_style
part_style base mark_spaces behind (t, meta) rest = meta_style
part_style base mark_spaces behind (t, Mark.hidden) rest = hidden_style
part_style base mark_spaces behind (t, plain) rest =
    if (mark_spaces && is_space (t, plain)) && (behind || edge rest) then space_style else base

unfoldable pub span_cells : Style → Bool → Bool → List Part → List Cell
span_cells base mark_spaces behind [] = []
span_cells base mark_spaces behind (p ∷ rest) =
    styled (part_style base mark_spaces behind p rest) p.0
    ++ span_cells base mark_spaces (is_space p) rest

-- What stands before a part that is no space does not matter.
pub span_cells-behind :
    (base : Style) (ms a b : Bool) (rest : List Part)
    → (ms && starts_with_space rest) ≡ false
    → span_cells base ms a rest ≡ span_cells base ms b rest
unfolding span_cells
span_cells-behind base ms a b [] h = refl
span_cells-behind base ms a b ((t, ours) ∷ rest) h = refl
span_cells-behind base ms a b ((t, meta) ∷ rest) h = refl
span_cells-behind base ms a b ((t, Mark.hidden) ∷ rest) h = refl
span_cells-behind base ms a b ((t, plain) ∷ rest) h = rw h

pub is_space-part : (p : Part) → is_space p ≡ true → p ≡ (b' ' ∷ [], plain)
is_space-part (t, plain) h = ap (λ u. (u, plain)) ((bytes_eq_iff t (b' ' ∷ [])).0 h)
is_space-part (t, ours) h = cc
is_space-part (t, meta) h = cc
is_space-part (t, Mark.hidden) h = cc

pub span_cells_space :
    (base : Style) (rest : List Part)
    → span_cells base true true ((b' ' ∷ [], plain) ∷ rest)
      ≡ (b' ', space_style) ∷ span_cells base true true rest
unfolding span_cells
span_cells_space base rest = refl

-- The spaces behind a space are all marked.
pub span_cells_run :
    (base : Style) (b : Bool) (rest : List Part)
    → span_cells base true true rest
      ≡ styled space_style (replicate (spaces_ahead rest) b' ')
        ++ span_cells base true b (drop (spaces_ahead rest) rest)
unfolding spaces_ahead
span_cells_run base b [] = unfold span_cells in refl
span_cells_run base b (p ∷ rest) = elim (Bool-cases (is_space p)) [
  | inl e ↦ rw (is_space-part p e) (
      span_cells_space base rest ∙ ap (λ cs. (b' ', space_style) ∷ cs) (span_cells_run base b rest))
  | inr e ↦ rw e (span_cells-behind base true true b (p ∷ rest) e)
]

-- No space stands behind the run.
pub starts_with_space-drop :
    (rest : List Part) → starts_with_space (drop (spaces_ahead rest) rest) ≡ false
unfolding spaces_ahead
starts_with_space-drop [] = refl
starts_with_space-drop (p ∷ rest) = ground (arith, starts_with_space-drop rest)

-- The test of `paint` on a run, by what stands beside its first space.
pub run_test :
    (start : Bool) (rest : List Part)
    → (leb 2 (suc (spaces_ahead rest)) || start || spaces_ahead rest == length rest)
      ≡ (start || edge rest)
unfolding spaces_ahead
run_test start [] = ground arith
run_test start (p ∷ rest) = ground arith
