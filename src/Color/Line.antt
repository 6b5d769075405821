-- ===== src/Color/Line.antt =====
-- `is_slash`, `split_head` and `render_command_line`.
use sudowhat.Color.Paint.{is_plain, paint}
use sudowhat.Color.Palette.{RoleBase, roles, dim, prog_head, prog_middle, prog_base, flag, value}
use sudowhat.Command.{command_tokens}
use sudowhat.Prelude.{
  ℕ, ◌+◌, Bool, true, false, not, ◌&&◌, List, [], ◌∷◌, ltb, ◌==◌, if◌then◌else◌, Text, Bytes,
  bytes_eq, push, take, drop, position, rposition, get_elem?, Option, some, none, map,
}
use sudowhat.Quote.{ours, Part, Rendered, render_token}
use sudowhat.Utf8.{as_bytes}

abbrev pub is_slash : Part → Bool
is_slash (t, m) = is_plain m && bytes_eq t (b'/' ∷ [])

abbrev is_ours : Part → Bool
is_ours (_, ours) = true
is_ours _ = false

abbrev pub some_and {ℓ} : {A : Type ℓ} → Option A → (A → Bool) → Bool
some_and none f = false
some_and (some a) f = f a

-- `start` in `split_head`: 1 behind an opening quote of ours.
unfoldable pub head_start : List Part → ℕ
head_start (p ∷ q ∷ _) = if is_ours p && is_slash q then 1 else 0
head_start _ = 0

unfoldable pub split_head : List Part → List Part × List Part
unfolding head_start
split_head dir =
    let start = head_start dir in
    if not (some_and (get_elem? dir start) is_slash)
    then ([], dir)
    else elim (position is_slash (drop (start + 1) dir)) [
      | some p ↦ (take (start + 1 + p) dir, drop (start + 1 + p) dir)
      | none ↦ ([], dir)
    ]

-- The directory of the program.
unfoldable pub paint_dir : RoleBase → List Part → Text → Text
paint_dir base dir out =
    if bytes_eq (prog_head base) (prog_middle base)
    then paint dir (prog_head base) true out
    else (let (head, middle) = split_head dir in
        paint middle (prog_middle base) true (paint head (prog_head base) true out))

-- The first token, the program.
unfoldable pub paint_program : RoleBase → Rendered → Text → Text
paint_program base r out = elim (rposition is_slash r) [
  | some idx ↦
      paint (drop (idx + 1) r) (prog_base base) true (paint_dir base (take (idx + 1) r) out)
  | none ↦ paint r (prog_base base) true out
]

-- The test for an option flag: a first part that is a plain dash.
abbrev pub is_flag : Rendered → Bool
is_flag [] = false
is_flag ((t, m) ∷ _) = is_plain m && bytes_eq t (b'-' ∷ [])

unfoldable pub paint_argument : RoleBase → Rendered → Text → Text
paint_argument base r out =
    if is_flag r then paint r (flag base) false out else paint r (value base) false out

-- The body of the loop on the token at `i`.
unfoldable pub paint_token : RoleBase → ℕ → Bytes → Text → Text
paint_token base i tok out =
    let r = render_token tok in
    if i == 0 then paint_program base r out else paint_argument base r out

unfoldable pub paint_tokens : RoleBase → ℕ → List Bytes → Text → Text
paint_tokens base i [] out = out
paint_tokens base i (tok ∷ toks) out =
    paint_tokens base (i + 1) toks (paint_token base i tok (if ltb 0 i then push out b' ' else out))

unfoldable pub render_command_line : Bytes → List Bytes → RoleBase → Text → Text
unfolding paint_tokens paint_token paint_program paint_argument paint_dir paint split_head
render_command_line path argv base out = paint_tokens base 0 (command_tokens path argv) out

unfoldable pub colored_command_line : Text → List Text → Text → Text
unfolding render_command_line
colored_command_line path argv out =
    render_command_line (as_bytes path) (map as_bytes argv) roles out

unfoldable pub colored_command_line_dim : Text → List Text → Text → Text
unfolding render_command_line
colored_command_line_dim path argv out =
    render_command_line (as_bytes path) (map as_bytes argv) dim out
