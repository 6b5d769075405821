-- ===== src/Mac/Rows.antt =====
-- The rows of plugin/sudowhat_audit.m and their colours: `sw_audit_row`, `sw_audit_sgr`,
-- `sw_audit_color_dir`, `sw_audit_color_path_list` and `sw_audit_color_user`. A text of Foundation
-- is its characters here: no range of the code ends between the two units of one.
use sudowhat.Gate.Lines.{split_on}
use mathlib.Core.Option
use sudowhat.Prelude.{
  ℕ, ◌+◌, ◌-◌, List, [], ◌∷◌, ◌++◌, take, drop, Text, codes, length, Option, none, some, Bool, ◌&&◌,
  ◌==◌, ltb, if◌then◌else◌, is_empty, false, position, rposition, replicate, bytes_eq,
}

abbrev pub gutter : ℕ
gutter = 12

-- The spaces behind a label.
abbrev pub gap : Text → Text
gap label = replicate (if ltb (length label) gutter then gutter - length label else 1) b' '

unfoldable pub audit_row : Text → Text → Bool → Text
audit_row label value color =
    if color
    then codes "sudowhat: "
      ++ (0x1B
          ∷ (codes "[1m"
              ++ (label ++ (0x1B ∷ (codes "[0m" ++ (gap label ++ (value ++ b'\n' ∷ [])))))))
    else codes "sudowhat: " ++ (label ++ (gap label ++ (value ++ b'\n' ∷ [])))

unfoldable pub sgr : Text → Text → Text
sgr parameters text =
    if is_empty text then [] else 0x1B ∷ b'[' ∷ (parameters ++ b'm' ∷ (text ++ 0x1B ∷ codes "[0m"))

abbrev pub is_slash : ℕ → Bool
is_slash c = c == b'/'

abbrev pub begins_with_slash : Text → Bool
begins_with_slash [] = false
begins_with_slash (c ∷ t) = is_slash c

-- The text up to the next slash behind its first character, if there is one.
abbrev pub next_slash : Text → Option ℕ
next_slash t = Option.map (λ i. i + 1) (position is_slash (drop 1 t))

-- How much of the part up to the last slash is the head: nothing of a relative one, or of the root.
abbrev pub parent_head : Text → ℕ
parent_head parent =
    if begins_with_slash parent && ltb 1 (length parent)
    then elim (next_slash parent) [ some next ↦ next | none ↦ 0 ]
    else 0

unfoldable pub color_dir : Text → Text
unfolding sgr sudowhat.Prelude.position sudowhat.Prelude.rposition
color_dir dir = elim (rposition is_slash dir) [
  | none ↦ sgr (codes "1") dir
  | some i ↦
      let parent = take (i + 1) dir in
      sgr (codes "1;36") (take (parent_head parent) parent)
      ++ (drop (parent_head parent) parent ++ sgr (codes "1") (drop (i + 1) dir))
]

-- How much of an entry is its head: the whole of one with a single segment.
abbrev pub entry_head : Text → ℕ
entry_head entry =
    if begins_with_slash entry
    then elim (next_slash entry) [ some next ↦ next | none ↦ length entry ]
    else 0

unfoldable pub color_entry : Text → Text
unfolding sgr sudowhat.Prelude.position sudowhat.Prelude.rposition
color_entry entry =
    sgr (codes "1;36") (take (entry_head entry) entry) ++ drop (entry_head entry) entry

-- The entries behind the first, each behind a colon.
unfoldable pub color_entries : List Text → Text
unfolding color_entry sgr
color_entries [] = []
color_entries (entry ∷ entries) =
    sgr (codes "1;34") (b':' ∷ []) ++ (color_entry entry ++ color_entries entries)

abbrev pub is_colon : ℕ → Bool
is_colon c = c == b':'

-- The loop over the entries.
abbrev pub color_list : List Text → Text
color_list [] = []
color_list (entry ∷ entries) = color_entry entry ++ color_entries entries

unfoldable pub color_path_list : Text → Text
unfolding split_on color_entries
color_path_list escaped = color_list (split_on is_colon escaped)

unfoldable pub color_user : Text → Text
color_user user =
    if bytes_eq user (codes "root")
    then user
    else 0x1B ∷ (codes "[33m" ++ (user ++ 0x1B ∷ codes "[0m"))
