-- ===== src/Mac/Told.antt =====
-- The rows of the macOS block, and what is read from them.
use sudowhat.Color.Terminal.{strip_sgr}
use sudowhat.Audit.Emphasis.{NoEscape, label-NoEscape, IsVisible-NoEscape}
use sudowhat.Audit.Preview.{lines}
use sudowhat.Audit.Shown.{lines-row, line_of, IsPrintable, IsPrintable-IsVisible}
use sudowhat.Escape.Clean.{IsVisible}
use sudowhat.Mac.Colored.{
  Strips-audit_row, Strips-color_user, Strips-color_dir, Strips-color_path_list,
}
use sudowhat.Mac.Emphasis.{Strips, Strips-append, Strips-plain}
use sudowhat.Mac.Open.{assemble, append_row, painted, tinted}
use sudowhat.Mac.Reader.{read_rows, user_label, dir_label, command_label, path_label}
use sudowhat.Mac.Rows.{
  color_user, color_dir, color_path_list, color_path_list, color_dir, color_user, audit_row,
}
use sudowhat.Color.Terminal.{strip_sgr, strip_from}
use sudowhat.Prelude.{
  sym, append-nil, true, false, Bool, ◌≡◌, ap, ◌∙◌, List, [], ◌∷◌, ◌++◌, All, refl, codes, none,
  some, Option, Bool, Text, Every, false, arith, sym, append-nil,
}

-- Both are missing, or the one is the other without its sequences.
abbrev pub EachStrips : Option Text → Option Text → Type 0
EachStrips none none = Unit
EachStrips (some t) (some plain) = Strips t plain
EachStrips _ _ = ⊥

pub tinted-Strips :
    (color : Bool) (paint : Text → Text) (t : Text)
    → All IsVisible t
    → Strips (paint t) t
    → Strips (tinted color paint t) t
tinted-Strips true paint t h s = s
tinted-Strips false paint t h s = Strips-plain t (IsVisible-NoEscape t h)

append_row-Strips :
    (label : Text) (value plain : Option Text) (color : Bool)
    → All IsPrintable label
    → EachStrips value plain
    → Strips (append_row label value color) (append_row label plain false)
append_row-Strips label none none color hl h = Strips-plain [] tt
append_row-Strips label none (some plain) color hl h = absurd h
append_row-Strips label (some value) none color hl h = absurd h
append_row-Strips label (some value) (some plain) color hl h =
    Strips-audit_row label value plain color (label-NoEscape label hl) h

painted-EachStrips :
    (color : Bool) (paint : Text → Text) (value : Option Text)
    → ((t : Text) → All NoEscape t → Strips (paint t) t)
    → Every (All IsVisible) value
    → EachStrips (painted color paint value) value
painted-EachStrips color paint none s h = tt
painted-EachStrips color paint (some t) s h =
    tinted-Strips color paint t h (s t (IsVisible-NoEscape t h))

-- The plain rows of a block.
abbrev pub plain_rows : Text → Option Text → Option Text → Option Text → Text
plain_rows user dir command path =
    audit_row (codes "run as:") user false
    ++ (append_row (codes "directory:") dir false
        ++ (append_row (codes "input:") command false ++ append_row (codes "PATH:") path false))

-- The block without its sequences is the plain block, whatever is coloured.
pub assemble-Strips :
    (color : Bool) (user : Text) (dir command plain path : Option Text)
    → All IsVisible user
    → Every (All IsVisible) dir
    → EachStrips command plain
    → Every (All IsVisible) path
    → Strips (assemble color user dir command path) (plain_rows user dir plain path)
unfolding assemble
assemble-Strips color user dir command plain path hu hd hc hp =
    let user_row = λ (c : Bool). audit_row (codes "run as:") (tinted c color_user user) c in
    let dir_row = λ (c : Bool). append_row (codes "directory:") (painted c color_dir dir) c in
    let path_row = λ (c : Bool). append_row (codes "PATH:") (painted c color_path_list path) c in
    let command_row = append_row (codes "input:") command color in
    let plain_row = append_row (codes "input:") plain false in
    let plain_dir = append_row (codes "directory:") dir false in
    let plain_path = append_row (codes "PATH:") path false in
    Strips-append (user_row color) (dir_row color ++ (command_row ++ path_row color))
      (audit_row (codes "run as:") user false) (plain_dir ++ (plain_row ++ plain_path))
      (Strips-audit_row (codes "run as:") (tinted color color_user user) user color
        (label-NoEscape (codes "run as:") (omega arith))
        (tinted-Strips color color_user user hu
          (Strips-color_user user (IsVisible-NoEscape user hu))))
      (Strips-append (dir_row color) (command_row ++ path_row color) plain_dir
        (plain_row ++ plain_path)
        (append_row-Strips (codes "directory:") (painted color color_dir dir) dir color
          (omega arith) (painted-EachStrips color color_dir dir Strips-color_dir hd))
        (Strips-append command_row (path_row color) plain_row plain_path
          (append_row-Strips (codes "input:") command plain color (omega arith) hc)
          (append_row-Strips (codes "PATH:") (painted color color_path_list path) path color
            (omega arith)
            (painted-EachStrips color color_path_list path Strips-color_path_list hp))))

-- The line of a row, where there is one.
abbrev opt_line : Text → Option Text → List Text
opt_line label none = []
opt_line label (some value) = (label ++ value) ∷ []

-- An optional row in front of other text.
lines-append_row :
    (label title : Text) (value : Option Text) (rest : Text)
    → ((v : Text) → audit_row label v false ≡ line_of title v)
    → All IsPrintable title
    → Every (All IsVisible) value
    → lines (append_row label value false ++ rest) ≡ opt_line title value ++ lines rest
lines-append_row label title none rest e hl h = refl
lines-append_row label title (some v) rest e hl h =
    ap (λ t. lines (t ++ rest)) (e v) ∙ lines-row title v rest (IsPrintable-IsVisible title hl) h

lines-plain_rows :
    (user : Text) (dir command path : Option Text)
    → All IsVisible user
    → Every (All IsVisible) dir
    → Every (All IsVisible) command
    → Every (All IsVisible) path
    → lines (plain_rows user dir command path)
      ≡ (user_label ++ user)
        ∷ (opt_line dir_label dir ++ (opt_line command_label command ++ opt_line path_label path))
unfolding audit_row lines
lines-plain_rows user dir command path hu hd hc hp =
    lines-row user_label user _ (IsPrintable-IsVisible user_label (omega arith)) hu
    ∙ ap (λ rs. (user_label ++ user) ∷ rs)
        (lines-append_row (codes "directory:") dir_label dir _ (λ v. refl) (omega arith) hd
          ∙ ap (λ rs. opt_line dir_label dir ++ rs)
              (lines-append_row (codes "input:") command_label command
                  (append_row (codes "PATH:") path false) (λ v. refl) (omega arith) hc
                ∙ ap (λ rs. opt_line command_label command ++ rs) (last_row path hp)))
  where
    last_row :
        (value : Option Text)
        → Every (All IsVisible) value
        → lines (append_row (codes "PATH:") value false) ≡ opt_line path_label value
    last_row value h =
        ap lines (sym (append-nil (append_row (codes "PATH:") value false)))
        ∙ lines-append_row (codes "PATH:") path_label value [] (λ v. refl) (omega arith) h
        ∙ append-nil (opt_line path_label value)

-- Each row is taken for what it is.
read_rows-lines :
    (user : Text) (dir command path : Option Text)
    → read_rows (
        (user_label ++ user)
        ∷ (opt_line dir_label dir ++ (opt_line command_label command ++ opt_line path_label path)))
      ≡ some record { user = user; dir = dir; command = command; path = path }
unfolding read_rows
read_rows-lines user none none none = refl
read_rows-lines user none none (some p) = refl
read_rows-lines user none (some c) none = refl
read_rows-lines user none (some c) (some p) = refl
read_rows-lines user (some d) none none = refl
read_rows-lines user (some d) none (some p) = refl
read_rows-lines user (some d) (some c) none = refl
read_rows-lines user (some d) (some c) (some p) = refl

-- Without its sequences a block is its plain rows.
pub strip_sgr-assemble :
    (color : Bool) (user : Text) (dir command plain path : Option Text)
    → All IsVisible user
    → Every (All IsVisible) dir
    → EachStrips command plain
    → Every (All IsVisible) path
    → strip_sgr (assemble color user dir command path) ≡ plain_rows user dir plain path
unfolding strip_sgr
strip_sgr-assemble color user dir command plain path hu hd hc hp =
    let block = assemble color user dir command path in
    ap (strip_from false) (sym (append-nil block))
    ∙ assemble-Strips color user dir command plain path hu hd hc hp []
    ∙ append-nil (plain_rows user dir plain path)

-- A block is read as its rows.
pub read_rows-plain_rows :
    (user : Text) (dir command path : Option Text)
    → All IsVisible user
    → Every (All IsVisible) dir
    → Every (All IsVisible) command
    → Every (All IsVisible) path
    → read_rows (lines (plain_rows user dir command path))
      ≡ some record { user = user; dir = dir; command = command; path = path }
read_rows-plain_rows user dir command path hu hd hc hp =
    ap read_rows (lines-plain_rows user dir command path hu hd hc hp)
    ∙ read_rows-lines user dir command path

painted-plain : (paint : Text → Text) (value : Option Text) → painted false paint value ≡ value
painted-plain paint none = refl
painted-plain paint (some t) = refl

-- Where nothing is coloured, the block is its plain rows.
pub assemble-plain :
    (user : Text) (dir command path : Option Text)
    → assemble false user dir command path ≡ plain_rows user dir command path
unfolding assemble
assemble-plain user dir command path = λ i.
    audit_row (codes "run as:") user false
    ++ (append_row (codes "directory:") (painted-plain color_dir dir i) false
        ++ (append_row (codes "input:") command false
            ++ append_row (codes "PATH:") (painted-plain color_path_list path i) false))
