-- ===== src/Color/LineCells.antt =====
-- What the coloured command line looks like, token by token.

use sudowhat.Color.Cells.{span_cells}
use sudowhat.Color.Line.{is_slash, split_head, is_flag}
use sudowhat.Color.Palette.{RoleBase, roles, dim}
use sudowhat.Color.Terminal.{Style, Cell}
use sudowhat.Prelude.{
  ◌+◌, true, false, List, [], ◌∷◌, ◌++◌, if◌then◌else◌, Bytes, codes, take, drop, rposition, some,
  none,
}
use sudowhat.Quote.{Part, Rendered, render_token}

-- The styles that `RoleBase` puts under the roles.
abbrev pub head_style : RoleBase → Style
head_style roles = codes "1;36" ∷ []
head_style dim = codes "2" ∷ []

abbrev pub middle_style : RoleBase → Style
middle_style roles = []
middle_style dim = codes "2" ∷ []

abbrev pub base_style : RoleBase → Style
base_style roles = codes "1;34" ∷ []
base_style dim = codes "1;2" ∷ []

abbrev pub flag_style : RoleBase → Style
flag_style roles = codes "1;34" ∷ []
flag_style dim = codes "2" ∷ []

abbrev pub value_style : RoleBase → Style
value_style roles = []
value_style dim = codes "2" ∷ []

-- The directory of the program: one quiet span, or its first segment and the rest.
unfoldable pub dir_cells : RoleBase → List Part → List Cell
dir_cells dim dir = span_cells (head_style dim) true true dir
dir_cells roles dir =
    span_cells (head_style roles) true true (split_head dir).0
    ++ span_cells (middle_style roles) true true (split_head dir).1

-- The program, split behind its last slash.
unfoldable pub program_cells : RoleBase → Rendered → List Cell
program_cells base r = elim (rposition is_slash r) [
  | some idx ↦
      dir_cells base (take (idx + 1) r) ++ span_cells (base_style base) true true (drop (idx + 1) r)
  | none ↦ span_cells (base_style base) true true r
]

unfoldable pub argument_cells : RoleBase → Rendered → List Cell
argument_cells base r =
    span_cells (if is_flag r then flag_style base else value_style base) false true r

-- The tokens behind the first one, each behind a space in no style.
unfoldable pub arguments_cells : RoleBase → List Bytes → List Cell
arguments_cells base [] = []
arguments_cells base (t ∷ ts) =
    (b' ', []) ∷ (argument_cells base (render_token t) ++ arguments_cells base ts)

unfoldable pub line_cells : RoleBase → List Bytes → List Cell
line_cells base [] = []
line_cells base (t ∷ ts) = program_cells base (render_token t) ++ arguments_cells base ts
