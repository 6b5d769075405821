-- ===== src/Audit/Emphasis.antt =====
-- The emphasis of a block is layout: without its sequences the block is the plain one.
use mathlib.Core.Option
use sudowhat.Audit.Context.{runs_shell}
use sudowhat.Audit.Display.{command_line-IsVisible, escape-Every}
use sudowhat.Audit.Values.{directory_of-IsBytes, target_user-IsBytes}
use sudowhat.Audit.Preview.{directory_of, target_user}
use sudowhat.Audit.Readable.{dir_line-directory_of, user_line-target_user}
use sudowhat.Prelude.{
  Every, [], ◌∷◌, ◌≡◌, true, false, some, none, refl, Bytes, Text, codes, Bool, All, ℕ, ◌++◌,
  Option, All-map, ◌==◌, ap, arith, sym, ◌∙◌, All-append, append-nil, append_assoc, List, IsBytes,
}
use sudowhat.Audit.Block.{
  label_off, command_value, command_line, shown_command, dir_line, user_line, row, push_row,
  build_block,
}
use sudowhat.Audit.Shown.{IsPrintable-IsVisible, IsPrintable, escape-IsVisible}
use sudowhat.Color.Terminal.{strip_from, strip_sgr}
use sudowhat.Escape.Clean.{IsVisible, IsVisible-ne_control}

abbrev pub NoEscape : ℕ → Type 0
NoEscape c = (c == 0x1B) ≡ false

pub strip_from-append :
    (t rest : Text) → All NoEscape t → strip_from false (t ++ rest) ≡ t ++ strip_from false rest
unfolding strip_from
strip_from-append [] rest h = refl
strip_from-append (c ∷ t) rest h = rw h.0 (ap (λ u. c ∷ u) (strip_from-append t rest h.1))

pub IsVisible-NoEscape : (t : Text) → All IsVisible t → All NoEscape t
IsVisible-NoEscape t = All-map {P = IsVisible} (λ c h. ground (arith, IsVisible-ne_control c h)) t

pub label-NoEscape : (label : Text) → All IsPrintable label → All NoEscape label
label-NoEscape label h = IsVisible-NoEscape label (IsPrintable-IsVisible label h)

strip_from-row :
    (color : Bool) (label value rest : Text)
    → All NoEscape label
    → All IsVisible value
    → strip_from false (row color label value ++ rest)
      ≡ row false label value ++ strip_from false rest
unfolding strip_from row
strip_from-row color label value rest hl hv = at color
  where
    line : Text
    line = value ++ b'\n' ∷ []

    plain_line : All NoEscape line
    plain_line = All-append NoEscape value (b'\n' ∷ []) (IsVisible-NoEscape value hv) (refl, tt)

    -- From the label on, with what switches the emphasis off behind it.
    from_label :
        (off : Text)
        → strip_from false ((off ++ b' ' ∷ line) ++ rest) ≡ strip_from false (b' ' ∷ (line ++ rest))
        → strip_from false ((label ++ (off ++ b' ' ∷ line)) ++ rest)
          ≡ (label ++ b' ' ∷ line) ++ strip_from false rest
    from_label off e =
        ap (strip_from false) (append_assoc label (off ++ b' ' ∷ line) rest)
        ∙ strip_from-append label ((off ++ b' ' ∷ line) ++ rest) hl
        ∙ ap (λ u. label ++ u) e
        ∙ ap (λ u. label ++ b' ' ∷ u) (strip_from-append line rest plain_line)
        ∙ sym (append_assoc label (b' ' ∷ line) (strip_from false rest))

    at :
        (c : Bool)
        → strip_from false (row c label value ++ rest)
          ≡ row false label value ++ strip_from false rest
    at true = ap (λ u. codes "sudowhat: " ++ u) (from_label (label_off true) refl)
    at false = ap (λ u. codes "sudowhat: " ++ u) (from_label [] refl)

-- The rows of a block.
abbrev rows : Bool → Text → Option Text → Option Text → Text
rows color user dir command =
    push_row color (codes "input:") command
      (push_row color (codes "directory:") dir (row color (codes "run as:") user))

-- A row is appended by `push_row`, or nothing is.
row_text : Bool → Text → Option Text → Text
row_text color label none = []
row_text color label (some value) = row color label value

push_row-append :
    (color : Bool) (label : Text) (value : Option Text) (block : Text)
    → push_row color label value block ≡ block ++ row_text color label value
unfolding push_row row_text
push_row-append color label none block = sym (append-nil block)
push_row-append color label (some value) block = refl

strip_from-row_text :
    (color : Bool) (label : Text) (value : Option Text) (rest : Text)
    → All NoEscape label
    → Every (All IsVisible) value
    → strip_from false (row_text color label value ++ rest)
      ≡ row_text false label value ++ strip_from false rest
unfolding row_text
strip_from-row_text color label none rest hl hv = refl
strip_from-row_text color label (some value) rest hl hv =
    strip_from-row color label value rest hl hv

rows-append :
    (color : Bool) (user : Text) (dir command : Option Text)
    → rows color user dir command
      ≡ row color (codes "run as:") user
        ++ (row_text color (codes "directory:") dir ++ row_text color (codes "input:") command)
rows-append color user dir command =
    push_row-append color (codes "input:") command _
    ∙ ap (λ u. u ++ row_text color (codes "input:") command)
        (push_row-append color (codes "directory:") dir (row color (codes "run as:") user))
    ∙ append_assoc (row color (codes "run as:") user) (row_text color (codes "directory:") dir)
        (row_text color (codes "input:") command)

strip_from-rows :
    (color : Bool) (user : Text) (dir command : Option Text)
    → All IsVisible user
    → Every (All IsVisible) dir
    → Every (All IsVisible) command
    → strip_from false (rows color user dir command) ≡ rows false user dir command
unfolding strip_from
strip_from-rows color user dir command hu hd hc =
    ap (strip_from false) (rows-append color user dir command)
    ∙ strip_from-row color (codes "run as:") user
        (row_text color (codes "directory:") dir ++ row_text color (codes "input:") command)
        (label-NoEscape (codes "run as:") (omega arith)) hu
    ∙ ap (λ u. row false (codes "run as:") user ++ u)
        (strip_from-row_text color (codes "directory:") dir
            (row_text color (codes "input:") command)
            (label-NoEscape (codes "directory:") (omega arith)) hd
          ∙ ap (λ u. row_text false (codes "directory:") dir ++ u)
              (ap (strip_from false) (sym (append-nil (row_text color (codes "input:") command)))
                ∙ strip_from-row_text color (codes "input:") command []
                    (label-NoEscape (codes "input:") (omega arith)) hc
                ∙ append-nil (row_text false (codes "input:") command)))
    ∙ sym (rows-append false user dir command)

command_value-IsVisible :
    (shell : Bool) (command : Option Text)
    → Every (All IsVisible) command
    → Every (Every (All IsVisible)) (command_value shell command)
command_value-IsVisible true none h = tt
command_value-IsVisible false none h = tt
command_value-IsVisible shell (some []) h = tt
command_value-IsVisible shell (some (c ∷ t)) h = h

-- Where the arrays hold bytes, a block is the block without emphasis, but for the sequences:
-- `strip_sgr` takes them out and nothing else, and both blocks are built in the same cases.
pub strip_sgr-build_block :
    (settings user_info argv : List Bytes) (color : Bool)
    → All IsBytes settings
    → All IsBytes user_info
    → All IsBytes argv
    → Option.map strip_sgr (build_block settings user_info argv color)
      ≡ build_block settings user_info argv false
unfolding build_block shown_command strip_sgr
strip_sgr-build_block settings user_info argv color hs hu ha =
    stripped (shown_command settings argv) (
      command_value-IsVisible (runs_shell settings) (command_line argv)
        (command_line-IsVisible argv ha))
  where
    user : All IsVisible (user_line settings)
    user =
        rw (user_line-target_user settings)
          (escape-IsVisible (target_user settings) (target_user-IsBytes settings hs))

    dir : Every (All IsVisible) (dir_line settings user_info)
    dir = rw (dir_line-directory_of settings user_info) (
        escape-Every (directory_of settings user_info)
          (directory_of-IsBytes settings user_info hs hu))

    stripped :
        (shown : Option (Option Text))
        → Every (Every (All IsVisible)) shown
        → Option.map strip_sgr
            (Option.map (rows color (user_line settings) (dir_line settings user_info)) shown)
          ≡ Option.map (rows false (user_line settings) (dir_line settings user_info)) shown
    stripped none h = refl
    stripped (some command) h = ap some (strip_from-rows color _ _ command user dir h)
