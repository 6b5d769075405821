-- ===== src/Color/Screen.antt =====
-- Laws of the terminal: texts that it draws one behind the other, and what `strip_sgr` keeps.
use sudowhat.Color.Palette.{sgr_reset, sgr_hidden, sgr_meta, sgr_space, sgr_ours}
use sudowhat.Color.Terminal.{
  Style, Cell, State, ready, after_escape, params, broken, Screen, put, draw, showing, styled,
  strip_from, strip_sgr, empty, apply, is_known,
}
use sudowhat.Escape.Clean.{IsVisible, IsVisible-ne_control}
use sudowhat.Prelude.{
  ℕ, ◌≡◌, refl, ap, Bool, true, false, List, [], ◌∷◌, ◌++◌, map, ◌==◌, Text, codes, bytes_eq, All,
  append_assoc, append-nil, map-append, arith, ◌∙◌, sym, Bool-cases, ◌⊎◌, inl, inr,
}

pub draw-append : (t u : Text) (s : Screen) → draw (t ++ u) s ≡ draw u (draw t s)
unfolding draw
draw-append [] u s = refl
draw-append (c ∷ t) u s = draw-append t u (put s.state c s)

IsVisible-ne_escape : (c : ℕ) → IsVisible c → (c == 0x1B) ≡ false
IsVisible-ne_escape c h = ground (arith, IsVisible-ne_control c h)

-- Visible characters are drawn in the style in force.
pub draw-IsVisible :
    (t : Text) (cells : List Cell) (style : Style)
    → All IsVisible t
    → draw t (showing cells style) ≡ showing (cells ++ styled style t) style
unfolding draw
draw-IsVisible [] cells style h = ap (λ cs. showing cs style) (sym (append-nil cells))
draw-IsVisible (c ∷ t) cells style h = rw (IsVisible-ne_escape c h.0) (
    draw-IsVisible t (cells ++ (c, style) ∷ []) style h.1
    ∙ ap (λ cs. showing cs style) (append_assoc cells ((c, style) ∷ []) (styled style t)))

-- The sequence begins a style, out of none.
abbrev pub Begins : Text → Style → Type 0
Begins color style = (cells : List Cell) → draw color (showing cells []) ≡ showing cells style

pub reset_lem :
    (cells : List Cell) (style : Style) → draw sgr_reset (showing cells style) ≡ showing cells []
unfolding draw
reset_lem cells style = refl

pub Begins-hidden : Begins sgr_hidden (codes "7;31" ∷ [])
unfolding draw
Begins-hidden cells = refl

pub Begins-meta : Begins sgr_meta (codes "1;36" ∷ [])
unfolding draw
Begins-meta cells = refl

pub Begins-space : Begins sgr_space (codes "100" ∷ [])
unfolding draw
Begins-space cells = refl

pub Begins-ours : Begins sgr_ours (codes "2" ∷ [])
unfolding draw
Begins-ours cells = refl

-- Whether `strip_sgr` is within a sequence where the terminal is in a state.
abbrev pub in_sequence : State → Bool
in_sequence ready = false
in_sequence _ = true

abbrev pub characters : List Cell → Text
characters = map (λ c. c.0)

pub broken_stays :
    (t : Text) (cells : List Cell) (style : Style)
    → (draw t (record { cells = cells; style = style; state = broken })).state ≡ broken
unfolding draw
broken_stays [] cells style = refl
broken_stays (c ∷ t) cells style = broken_stays t cells style

-- A sequence that is not known is seen at the end.
not_broken :
    {A : Type 0} (t : Text) (cells : List Cell) (style : Style)
    → (draw t (record { cells = cells; style = style; state = broken })).state ≡ ready
    → A
not_broken t cells style h = absurd (cc (broken_stays t cells style))

characters-append :
    (cells : List Cell) (c : ℕ) (style : Style) (t : Text)
    → characters (cells ++ (c, style) ∷ []) ++ t ≡ characters cells ++ c ∷ t
characters-append cells c style t = rw map-append (append_assoc (characters cells) (c ∷ []) t)

-- The end of a sequence draws nothing.
pub apply-cases :
    (p : Text) (cells : List Cell) (style : Style)
    → ((style' : Style) × (apply p (record { cells = cells; style = style; state = params p })
          ≡ record { cells = cells; style = style'; state = ready }))
      ⊎ (apply p (record { cells = cells; style = style; state = params p })
          ≡ record { cells = cells; style = style; state = broken })
unfolding apply
apply-cases p cells style = elim (Bool-cases (bytes_eq p (codes "0"))) [
  | inl e ↦ rw e (inl ([], refl))
  | inr e ↦ rw e (elim (Bool-cases (is_known p)) [
    | inl f ↦ rw f (inl (style ++ p ∷ [], refl))
    | inr f ↦ rw f (inr refl)
  ])
]

-- While the terminal meets only sequences that it knows, `strip_sgr` keeps just the characters
-- that are drawn.
characters-draw :
    (t : Text) (cells : List Cell) (style : Style) (st : State)
    → (draw t (record { cells = cells; style = style; state = st })).state ≡ ready
    → characters (draw t (record { cells = cells; style = style; state = st })).cells
      ≡ characters cells ++ strip_from (in_sequence st) t
unfolding draw strip_from
characters-draw [] cells style ready h = sym (append-nil _)
characters-draw [] cells style after_escape h = cc
characters-draw [] cells style (params p) h = cc
characters-draw [] cells style broken h = cc
characters-draw (c ∷ t) cells style ready h = ground (
  arith,
  characters-draw t cells style after_escape,
  characters-draw t (cells ++ (c, style) ∷ []) style ready,
  characters-append cells c style (strip_from false t),
)
characters-draw (c ∷ t) cells style after_escape h =
    ground (arith, characters-draw t cells style (params []), broken_stays t cells style)
characters-draw (c ∷ t) cells style (params p) h = elim (apply-cases p cells style) [
  | inl (style', a) ↦ ground (
    arith,
    a,
    characters-draw t cells style' ready,
    characters-draw t cells style (params (p ++ c ∷ [])),
  )
  | inr a ↦
      ground
        (arith, a, broken_stays t cells style, characters-draw t cells style (params (p ++ c ∷ [])))
]
characters-draw (c ∷ t) cells style broken h = not_broken t cells style h

-- A text that the terminal understands, and draws from an empty screen, strips to what is drawn.
pub strip_sgr-draw :
    (t : Text) {cells : List Cell} {style : Style}
    → draw t empty ≡ showing cells style
    → strip_sgr t ≡ characters cells
unfolding strip_sgr
strip_sgr-draw t {cells} {style} h =
    let ready_at_end : (draw t empty).state ≡ ready = ap (λ s. s.state) h in
    sym (characters-draw t [] [] ready ready_at_end) ∙ ap (λ s. characters s.cells) h
