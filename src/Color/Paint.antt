-- ===== src/Color/Paint.antt =====
-- `push_plain`, `push_span` and `paint`.
use sudowhat.Color.Palette.{sgr_reset, sgr_ours, sgr_meta, sgr_hidden, sgr_space}
use sudowhat.Prelude.{
  ℕ, zero, suc, ◌+◌, Bool, true, false, not, ◌&&◌, ◌||◌, List, [], ◌∷◌, leb, ◌==◌, if◌then◌else◌,
  Text, bytes_eq, is_empty, replicate, push_str, length,
}
use sudowhat.Quote.{Mark, plain, ours, meta, Part}

-- `armed` and `out`, which the pushes change.
pub record Pen : Type 0 where
  pub armed : Bool
  pub out : Text

unfoldable pub push_plain : Text → Text → Pen → Pen
push_plain text base pen =
    let arm = not (is_empty base) && not pen.armed in
    let out = if arm then push_str pen.out base else pen.out in
    record { armed = if arm then true else pen.armed; out = push_str out text }

unfoldable pub push_span : Text → Text → Pen → Pen
push_span text color pen =
    let out = if pen.armed then push_str pen.out sgr_reset else pen.out in
    record { armed = false; out = push_str (push_str (push_str out color) text) sgr_reset }

abbrev pub is_plain : Mark → Bool
is_plain plain = true
is_plain _ = false

-- The closure `is_space` of `paint`.
abbrev pub is_space : Part → Bool
is_space (t, m) = is_plain m && bytes_eq t (b' ' ∷ [])

-- The inner loop of `paint`: how many spaces stand next.
unfoldable pub spaces_ahead : List Part → ℕ
spaces_ahead [] = 0
spaces_ahead (p ∷ rest) = if is_space p then suc (spaces_ahead rest) else 0

-- A run of spaces from `i`, and what stands behind the first of them.
unfoldable pub paint_run : Text → ℕ → List Part → Pen → Pen
paint_run base i rest pen =
    let more = spaces_ahead rest in
    let run = replicate (suc more) b' ' in
    if leb 2 (suc more) || i == 0 || more == length rest
    then push_span run sgr_space pen
    else push_plain run base pen

-- One round of the loop at `span[i]`, with `span[i + 1..]`: the pen, and how many further parts
-- the round drew.
unfoldable pub paint_part : Text → Bool → ℕ → Part → List Part → Pen → Pen × ℕ
paint_part base mark_spaces i (text, ours) rest pen = (push_span text sgr_ours pen, 0)
paint_part base mark_spaces i (text, meta) rest pen = (push_span text sgr_meta pen, 0)
paint_part base mark_spaces i (text, Mark.hidden) rest pen = (push_span text sgr_hidden pen, 0)
paint_part base mark_spaces i (text, plain) rest pen =
    if mark_spaces && is_space (text, plain)
    then (paint_run base i rest pen, spaces_ahead rest)
    else (push_plain text base pen, 0)

-- The loop, on the part of the span from `i` on; the first argument counts the parts that a run
-- already drew.
unfoldable pub paint_from : Text → Bool → ℕ → ℕ → List Part → Pen → Pen
paint_from base mark_spaces drawn i [] pen = pen
paint_from base mark_spaces (suc drawn) i (p ∷ rest) pen =
    paint_from base mark_spaces drawn (i + 1) rest pen
paint_from base mark_spaces zero i (p ∷ rest) pen =
    let (pen', drawn) = paint_part base mark_spaces i p rest pen in
    paint_from base mark_spaces drawn (i + 1) rest pen'

unfoldable pub finish : Pen → Text
finish pen = if pen.armed then push_str pen.out sgr_reset else pen.out

unfoldable pub paint : List Part → Text → Bool → Text → Text
unfolding paint_from finish paint_part paint_run push_plain push_span spaces_ahead
paint span base mark_spaces out =
    finish (paint_from base mark_spaces 0 0 span (record { armed = false; out = out }))
