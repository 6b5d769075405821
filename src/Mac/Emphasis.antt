-- ===== src/Mac/Emphasis.antt =====
-- Texts and what is left of them without their sequences.
use sudowhat.Color.Strip.{draw-render_command_line}
use sudowhat.Command.{full_command_line_bytes}
use sudowhat.Color.Line.{render_command_line}
use sudowhat.Color.Palette.{RoleBase}
use sudowhat.Audit.Emphasis.{NoEscape, strip_from-append}
use sudowhat.Color.Terminal.{
  strip_from, strip_sgr, State, ready, after_escape, params, broken, Cell, Style, draw, apply,
}
use sudowhat.Color.Screen.{in_sequence, broken_stays, apply-cases}
use sudowhat.Mac.Rows.{sgr}
use sudowhat.Color.Strip.{strip_sgr-render_command_line, draw-render_command_line}
use sudowhat.Prelude.{
  ◌≡◌, refl, ap, ◌∙◌, sym, List, [], ◌∷◌, ◌++◌, Text, codes, true, false, All, arith, append_assoc,
  Bytes, inl, ◌==◌, inr, IsBytes,
}

-- Without its sequences, and whatever stands behind it, the one text is the other.
abbrev pub Strips : Text → Text → Type 0
Strips t plain = (rest : Text) → strip_from false (t ++ rest) ≡ plain ++ strip_from false rest

pub Strips-append : (a b p q : Text) → Strips a p → Strips b q → Strips (a ++ b) (p ++ q)
Strips-append a b p q ha hb rest =
    ap (strip_from false) (append_assoc a b rest)
    ∙ ha (b ++ rest)
    ∙ ap (λ u. p ++ u) (hb rest)
    ∙ sym (append_assoc p q (strip_from false rest))

pub Strips-plain : (t : Text) → All NoEscape t → Strips t t
Strips-plain t h rest = strip_from-append t rest h

strip_from-parameters :
    (p rest : Text)
    → All (λ c. (c == b'm') ≡ false) p
    → strip_from true (p ++ b'm' ∷ rest) ≡ strip_from false rest
unfolding strip_from
strip_from-parameters [] rest h = refl
strip_from-parameters (c ∷ p) rest h = rw (h.0, strip_from) (strip_from-parameters p rest h.1)

pub Strips-sgr :
    (p t : Text) → All (λ c. (c == b'm') ≡ false) p → All NoEscape t → Strips (sgr p t) t
unfolding sgr strip_from
Strips-sgr p [] hp h rest = refl
Strips-sgr p (c ∷ t) hp h rest =
    ap (λ u. strip_from true (b'[' ∷ u))
      (append_assoc p (b'm' ∷ ((c ∷ t) ++ 0x1B ∷ codes "[0m")) rest)
    ∙ strip_from-parameters p (((c ∷ t) ++ 0x1B ∷ codes "[0m") ++ rest) hp
    ∙ ap (strip_from false) (append_assoc (c ∷ t) (0x1B ∷ codes "[0m") rest)
    ∙ strip_from-append (c ∷ t) (0x1B ∷ (codes "[0m" ++ rest)) h

-- The end of a text that the terminal understands is between two sequences.
strip_from-understood :
    (t rest : Text) (cells : List Cell) (style : Style) (st : State)
    → (draw t (record { cells = cells; style = style; state = st })).state ≡ ready
    → strip_from (in_sequence st) (t ++ rest)
      ≡ strip_from (in_sequence st) t ++ strip_from false rest
unfolding draw strip_from apply
strip_from-understood [] rest cells style ready h = refl
strip_from-understood [] rest cells style after_escape h = cc
strip_from-understood [] rest cells style (params p) h = cc
strip_from-understood [] rest cells style broken h = cc
strip_from-understood (c ∷ t) rest cells style ready h = ground (
  arith,
  strip_from-understood t rest cells style after_escape,
  strip_from-understood t rest (cells ++ (c, style) ∷ []) style ready,
)
strip_from-understood (c ∷ t) rest cells style after_escape h =
    ground (arith, strip_from-understood t rest cells style (params []), broken_stays t cells style)
strip_from-understood (c ∷ t) rest cells style (params p) h = elim (apply-cases p cells style) [
  | inl (style', a) ↦ ground (
    arith,
    a,
    strip_from-understood t rest cells style' ready,
    strip_from-understood t rest cells style (params (p ++ c ∷ [])),
  )
  | inr a ↦ ground (
    arith,
    a,
    broken_stays t cells style,
    strip_from-understood t rest cells style (params (p ++ c ∷ [])),
  )
]
strip_from-understood (c ∷ t) rest cells style broken h = absurd (cc (broken_stays t cells style))

pub Strips-render_command_line :
    (path : Bytes) (argv : List Bytes) (base : RoleBase)
    → IsBytes path
    → All IsBytes argv
    → Strips (render_command_line path argv base []) (full_command_line_bytes path argv [])
unfolding strip_sgr
Strips-render_command_line path argv base hp ha rest =
    strip_from-understood _ rest [] [] ready
      (ap (λ s. s.state) (draw-render_command_line path argv base hp ha))
    ∙ ap (λ u. u ++ strip_from false rest) (strip_sgr-render_command_line path argv base hp ha)
