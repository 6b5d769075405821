-- ===== src/Sheet/Lines.antt =====
-- The lines of a sheet.
use sudowhat.Sheet.Units.{units, Units, utf16}
use sudowhat.Sheet.Layout.{layout, header}
use sudowhat.Gate.Lines.{split_on, is_newline}
use sudowhat.Gate.Written.{IsWord, split_on-append, split_on-whole}
use sudowhat.Escape.Clean.{IsDrawn, IsVisible-ne_control}
use sudowhat.Prelude.{
  list_laws, ltb, Text, ◌≡◌, ap, ◌∙◌, List, [], ◌∷◌, ◌++◌, All, refl, codes, none, some, Option,
  Text, Every, All-map, arith, ℕ, All-append, ◌≤◌, ◌<◌, Bool-cases, inl, inr,
}

-- No line feed stands within the units.
abbrev pub OneLine : Units → Type 0
OneLine = All (IsWord is_newline)

-- Lines with a line feed between each two.
abbrev joined : Units → List Units → Units
joined l [] = l
joined l (m ∷ ls) = l ++ b'\n' ∷ joined m ls

split_on-joined :
    (l : Units) (ls : List Units)
    → All OneLine (l ∷ ls)
    → split_on is_newline (joined l ls) ≡ l ∷ ls
split_on-joined l [] h = split_on-whole is_newline l h.0
split_on-joined l (m ∷ ls) h =
    split_on-append is_newline l b'\n' (joined m ls) h.0 refl
    ∙ ap (λ r. l ∷ r) (split_on-joined m ls h.1)

abbrev pub path_lines : Option Units → List Units → List Units
path_lines none rest = rest
path_lines (some path) rest = [] ∷ codes "DIRECTORY" ∷ path ∷ rest

-- The lines behind the header.
abbrev pub sheet_lines : Units → Option Units → Units → Units → Units → List Units
sheet_lines user path command verify bottom =
    []
    ∷ codes "RUN AS"
    ∷ user
    ∷ path_lines path ([] ∷ codes "EXECUTE" ∷ command ∷ [] ∷ verify ∷ [] ∷ bottom ∷ [])

layout-joined :
    (user : Units) (path : Option Units) (command verify bottom : Units)
    → layout user path command verify bottom
      ≡ joined header (sheet_lines user path command verify bottom)
unfolding layout
layout-joined user none command verify bottom = refl
layout-joined user (some path) command verify bottom = simp list_laws

-- The unit is no control character up to the line feed.
abbrev pub IsAbove : ℕ → Type 0
IsAbove u = b'\n' < u

pub IsAbove-OneLine : (us : Units) → All IsAbove us → OneLine us
IsAbove-OneLine us = All-map {P = IsAbove} (λ u h. ground (arith, h)) us

units-IsAbove : (c : ℕ) → 0x20 ≤ c → All IsAbove (units c)
unfolding units
units-IsAbove c h = elim (Bool-cases (ltb c 0x10000)) [
  | inl e ↦ rw e (omega (arith, h), tt)
  | inr e ↦ rw e (omega arith, (omega arith, tt))
]

-- What is drawn stands on one line.
pub utf16-IsAbove : (t : Text) → All IsDrawn t → All IsAbove (utf16 t)
unfolding utf16
utf16-IsAbove [] h = tt
utf16-IsAbove (c ∷ t) h =
    All-append IsAbove (units c) (utf16 t) (units-IsAbove c (IsVisible-ne_control c h.0.0).0)
      (utf16-IsAbove t h.1)

path_lines-OneLine :
    (path : Option Units) (rest : List Units)
    → Every OneLine path
    → All OneLine rest
    → All OneLine (path_lines path rest)
path_lines-OneLine none rest h k = k
path_lines-OneLine (some path) rest h k =
    (tt, (IsAbove-OneLine (codes "DIRECTORY") (omega arith), (h, k)))

-- Each value of the sheet is a line of its own.
pub split_on-layout :
    (user : Units) (path : Option Units) (command verify bottom : Units)
    → OneLine user
    → Every OneLine path
    → OneLine command
    → OneLine verify
    → OneLine bottom
    → split_on is_newline (layout user path command verify bottom)
      ≡ header ∷ sheet_lines user path command verify bottom
split_on-layout user path command verify bottom hu hp hc hv hb =
    ap (split_on is_newline) (layout-joined user path command verify bottom)
    ∙ split_on-joined header (sheet_lines user path command verify bottom) (
      IsAbove-OneLine header (omega arith),
      (
        tt,
        (
          IsAbove-OneLine (codes "RUN AS") (omega arith),
          (
            hu,
            path_lines-OneLine path _ hp (
              tt,
              (IsAbove-OneLine (codes "EXECUTE") (omega arith), (hc, (tt, (hv, (tt, (hb, tt)))))),
            ),
          ),
        ),
      ),
    )
