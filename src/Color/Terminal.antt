-- ===== src/Color/Terminal.antt =====
-- A terminal that knows the palette and no other sequence: it turns a text into cells, characters
-- with the parameters in force. And `strip_sgr`, with which the tests of
-- shared/escape_core/src/lib.rs take the sequences out of a line.

use sudowhat.Prelude.{
  ℕ, Bool, true, false, ◌||◌, List, [], ◌∷◌, ◌++◌, map, ◌==◌, if◌then◌else◌, Text, codes, bytes_eq,
}

abbrev pub Style : Type 0
Style = List Text

abbrev pub Cell : Type 0
Cell = ℕ × Style

pub data State : Type 0 where
  ready : State
  after_escape : State
  params : Text → State
  broken : State

pub record Screen : Type 0 where
  pub cells : List Cell
  pub style : Style
  pub state : State

-- The parameters of the palette's sequences, but for the reset.
unfoldable pub is_known : Text → Bool
is_known p =
    bytes_eq p (codes "7;31")
    || bytes_eq p (codes "1;36")
    || bytes_eq p (codes "1;34")
    || bytes_eq p (codes "1;2")
    || bytes_eq p (codes "100")
    || bytes_eq p (codes "2")

-- At the end of a sequence.
unfoldable pub apply : Text → Screen → Screen
apply p s =
    if bytes_eq p (codes "0")
    then record s { style = []; state = ready }
    else if is_known p
    then record s { style = s.style ++ p ∷ []; state = ready }
    else record s { state = broken }

unfoldable pub put : State → ℕ → Screen → Screen
unfolding apply is_known
put ready c s =
    if c == 0x1B
    then record s { state = after_escape }
    else record s { cells = s.cells ++ (c, s.style) ∷ [] }
put after_escape c s = record s { state = if c == b'[' then params [] else broken }
put (params p) c s = if c == b'm' then apply p s else record s { state = params (p ++ c ∷ []) }
put broken c s = s

unfoldable pub draw : Text → Screen → Screen
unfolding put
draw [] s = s
draw (c ∷ t) s = draw t (put s.state c s)

-- A screen between two sequences.
abbrev pub showing : List Cell → Style → Screen
showing cells style = record { cells = cells; style = style; state = ready }

abbrev pub empty : Screen
empty = showing [] []

-- A text in one style.
abbrev pub styled : Style → Text → List Cell
styled style t = map (λ c. (c, style)) t

-- `strip_sgr`; the flag is set between ESC and `m`.
unfoldable pub strip_from : Bool → Text → Text
strip_from _ [] = []
strip_from true (c ∷ t) = strip_from (if c == b'm' then false else true) t
strip_from false (c ∷ t) =
    let rest = strip_from (c == 0x1B) t in if c == 0x1B then rest else c ∷ rest

unfoldable pub strip_sgr : Text → Text
unfolding strip_from
strip_sgr t = strip_from false t
