-- ===== src/Color/Run.antt =====
-- The cells of a run of spaces.
use sudowhat.Color.Cells.{
  span_cells, edge, space_style, starts_with_space, span_cells-behind, span_cells_run,
}
use sudowhat.Color.Paint.{spaces_ahead}
use sudowhat.Color.Terminal.{Style, styled}
use sudowhat.Escape.Clean.{IsVisible, ascii-IsVisible}
use sudowhat.Prelude.{
  ℕ, zero, suc, ◌≡◌, refl, ap, Bool, true, false, ◌||◌, List, [], ◌∷◌, ◌++◌, if◌then◌else◌,
  is_empty, replicate, drop, arith, All, or_parts,
}
use sudowhat.Quote.{plain, Part}

pub replicate-IsVisible : (n : ℕ) → All IsVisible (replicate n b' ')
replicate-IsVisible zero = tt
replicate-IsVisible (suc n) =
    (ascii-IsVisible b' ' (omega arith) (omega arith), replicate-IsVisible n)

-- The style of a run of spaces, by what stands before and behind its first space.
abbrev pub run_style : Style → Bool → List Part → Style
run_style style behind rest = if behind || edge rest then space_style else style

spaces_ahead-zero : (rest : List Part) → edge rest ≡ false → spaces_ahead rest ≡ 0
unfolding spaces_ahead
spaces_ahead-zero [] h = refl
spaces_ahead-zero (p ∷ rest) h = rw h

pub run_cells :
    (style : Style) (behind c marked : Bool) (rest : List Part)
    → (behind || edge rest) ≡ marked
    → span_cells style true behind ((b' ' ∷ [], plain) ∷ rest)
      ≡ styled (if marked then space_style else style) (replicate (suc (spaces_ahead rest)) b' ')
        ++ span_cells style true c (drop (spaces_ahead rest) rest)
unfolding span_cells
run_cells style behind c true rest e =
    rw e (ap (λ cs. (b' ', space_style) ∷ cs) (span_cells_run style c rest))
run_cells style behind c false rest e =
    let (_, k) = or_parts behind (edge rest) e in
    let (_, ahead) = or_parts (is_empty rest) (starts_with_space rest) k in
    rw (e, spaces_ahead-zero rest k)
      (ap (λ cs. (b' ', style) ∷ cs) (span_cells-behind style true true c rest ahead))
