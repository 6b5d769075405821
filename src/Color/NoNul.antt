-- ===== src/Color/NoNul.antt =====
-- A text that the terminal understands holds scalar values other than NUL, if its characters are
-- such.
use sudowhat.Utf8.{IsScalar}
use sudowhat.Prelude.{
  leb, All-map, [], ◌∷◌, ◌≡◌, true, false, Text, ℕ, Bool, arith, codes, bytes_eq, ◌++◌, ◌==◌, List,
  ◌<◌, ◌||◌, ◌≢◌, All, bytes_eq_iff, inl, inr,
}
use sudowhat.Color.Terminal.{
  State, ready, after_escape, params, broken, Style, Cell, apply, is_known, draw, strip_from,
}
use sudowhat.Color.Screen.{apply-cases, in_sequence, broken_stays}

-- No character of a sequence that is known.
abbrev is_odd : ℕ → Bool
is_odd c = c == 0 || leb 0xD800 c

abbrev has_odd : Text → Bool
has_odd [] = false
has_odd (c ∷ t) = is_odd c || has_odd t

-- No parameters that the terminal knows hold such a character.
known_has_odd :
    (p : Text) → has_odd p ≡ true → (bytes_eq p (codes "0") ≡ false) × (is_known p ≡ false)
unfolding is_known
known_has_odd p h = ground (
  arith,
  bytes_eq_iff p (codes "0"),
  bytes_eq_iff p (codes "7;31"),
  bytes_eq_iff p (codes "1;36"),
  bytes_eq_iff p (codes "1;34"),
  bytes_eq_iff p (codes "1;2"),
  bytes_eq_iff p (codes "100"),
  bytes_eq_iff p (codes "2"),
)

has_odd-append : (p : Text) (c : ℕ) → has_odd p ≡ true → has_odd (p ++ c ∷ []) ≡ true
has_odd-append [] c h = cc
has_odd-append (b ∷ p) c h = ground (arith, has_odd-append p c)

has_odd-append_odd : (p : Text) (c : ℕ) → is_odd c ≡ true → has_odd (p ++ c ∷ []) ≡ true
has_odd-append_odd [] c h = ground arith
has_odd-append_odd (b ∷ p) c h = ground (arith, has_odd-append_odd p c)

-- A sequence with one among its parameters is not understood.
draw-has_odd :
    (t p : Text) (cells : List Cell) (style : Style)
    → has_odd p ≡ true
    → (draw t (record { cells = cells; style = style; state = params p })).state ≢ ready
unfolding draw apply
draw-has_odd [] p cells style h = λ e. cc
draw-has_odd (c ∷ t) p cells style h = ground (
  arith,
  known_has_odd p h,
  broken_stays t cells style,
  draw-has_odd t (p ++ c ∷ []) cells style (has_odd-append p c h),
)

abbrev pub IsNonzero : ℕ → Type 0
IsNonzero b = 0 < b

abbrev pub IsSound : ℕ → Type 0
IsSound c = (0 < c) × IsScalar c

low-IsSound : (c : ℕ) → is_odd c ≡ false → IsSound c
low-IsSound c h = (ground (arith, h), inl (ground (arith, h)))

-- Within a sequence, and between two.
pub draw-IsSound :
    (t : Text) (cells : List Cell) (style : Style) (st : State)
    → (draw t (record { cells = cells; style = style; state = st })).state ≡ ready
    → All IsSound (strip_from (in_sequence st) t)
    → All IsSound t
unfolding draw strip_from apply
draw-IsSound [] cells style st h n = tt
draw-IsSound (c ∷ t) cells style ready h n = ground (
  arith,
  draw-IsSound t cells style after_escape,
  draw-IsSound t (cells ++ (c, style) ∷ []) style ready,
)
draw-IsSound (c ∷ t) cells style after_escape h n =
    ground (arith, draw-IsSound t cells style (params []), broken_stays t cells style)
draw-IsSound (c ∷ t) cells style (params p) h n = elim (apply-cases p cells style) [
  | inl (style', a) ↦ ground (
    arith,
    a,
    draw-IsSound t cells style' ready,
    draw-IsSound t cells style (params (p ++ c ∷ [])),
    draw-has_odd t (p ++ c ∷ []) cells style,
    has_odd-append_odd p c,
  )
  | inr a ↦ ground (
    arith,
    a,
    broken_stays t cells style,
    draw-IsSound t cells style (params (p ++ c ∷ [])),
    draw-has_odd t (p ++ c ∷ []) cells style,
    has_odd-append_odd p c,
  )
]
draw-IsSound (c ∷ t) cells style broken h n = absurd (cc (broken_stays t cells style))

-- Whatever holds of the characters that the terminal draws, each is a scalar value but NUL.
pub IsSound-IsScalar : (t : Text) → All IsSound t → All IsScalar t
IsSound-IsScalar t = All-map {P = IsSound} (λ c h. h.1) t

pub IsSound-IsNonzero : (t : Text) → All IsSound t → All IsNonzero t
IsSound-IsNonzero t = All-map {P = IsSound} (λ c h. h.0) t
