-- ===== src/Gate/ExecRead.antt =====
-- The execute: line of plugin/sudowhat_approval.m, read behind its frame.
use sudowhat.Mac.Granted.{audit_escape-escaped, IsGranting}
use sudowhat.Mac.Values.{Field, Allocator}
use sudowhat.Mac.Open.{tinted}
use sudowhat.Audit.Context.{strip_prefix}
use sudowhat.Audit.Emphasis.{NoEscape, IsVisible-NoEscape, label-NoEscape}
use sudowhat.Audit.Preview.{lines}
use sudowhat.Audit.Shown.{IsPrintable-IsVisible, IsPrintable}
use sudowhat.Color.Terminal.{strip_sgr, strip_from}
use sudowhat.Command.Words.{escaped, read_tokens}
use sudowhat.Escape.Clean.{IsVisible}
use sudowhat.Gate.ExecLine.{exec_frame, exec_ending, bold, exec_prefix, as_prefix}
use sudowhat.Gate.Host.{ExecLayout, grouped, solo}
use sudowhat.Mac.Agrees.{escaped-IsVisible}
use sudowhat.Mac.Colored.{Strips-color_user}
use sudowhat.Mac.Emphasis.{Strips, Strips-append, Strips-plain, Strips-sgr}
use sudowhat.Mac.Rows.{color_user, sgr}
use sudowhat.Mac.Told.{tinted-Strips}
use mathlib.Core.Option
use sudowhat.Prelude.{
  ◌≡◌, List, [], ◌∷◌, ◌++◌, All, refl, codes, none, some, Option, true, false, Bytes, Text, Every,
  IsBytes, Bool, arith, All-append, ap,
}

-- What a reader looks for in front of the command: the frame of the layout, with the user that a line
-- on its own names.
abbrev pub front : ExecLayout → Option Bytes → Text
front grouped runas = codes "sudowhat: execute:    "
front solo none = codes "sudowhat: execute: "
front solo (some []) = codes "sudowhat: execute: "
front solo (some (b ∷ name)) = codes "sudowhat: execute as " ++ (escaped (b ∷ name) ++ codes ": ")

-- The lines behind: the table of a grouped line is closed by a blank one.
abbrev pub behind : ExecLayout → List Text
behind grouped = [] ∷ []
behind solo = []

-- The command behind the frame, and the lines behind the command.
abbrev pub read_framed : Text → List Text → Option (List Bytes × List Text)
read_framed frame [] = none
read_framed frame (r ∷ rs) = elim (strip_prefix frame r) [
  | some line ↦ Option.map (λ tokens. (tokens, rs)) (read_tokens line)
  | none ↦ none
]

unfoldable pub read_exec_line : Text → Text → Option (List Bytes × List Text)
unfolding lines read_tokens strip_sgr
read_exec_line frame t = read_framed frame (lines (strip_sgr t))

Strips-bold : (color : Bool) (label : Text) → All NoEscape label → Strips (bold color label) label
unfolding sgr strip_from
Strips-bold false label h = Strips-plain label h
Strips-bold true [] h = λ rest. refl
Strips-bold true (c ∷ label) h = Strips-sgr (codes "1") (c ∷ label) (refl, tt) h

-- Behind a text of ours, and behind a label.
Strips-behind : (t a b : Text) → All IsPrintable t → Strips a b → Strips (t ++ a) (t ++ b)
Strips-behind t a b h s = Strips-append t a t b (Strips-plain t (label-NoEscape t h)) s

Strips-behind_bold :
    (color : Bool) (label a b : Text)
    → All IsPrintable label
    → Strips a b
    → Strips (bold color label ++ a) (label ++ b)
Strips-behind_bold color label a b h s =
    Strips-append (bold color label) a label b (Strips-bold color label (label-NoEscape label h)) s

-- The prefixes without their sequences.
Strips-exec_prefix :
    (color : Bool) (space : Text)
    → All IsPrintable space
    → Strips
        (codes "sudowhat: " ++ (bold color (codes "execute:") ++ space))
        (codes "sudowhat: execute:" ++ space)
Strips-exec_prefix color space h =
    Strips-behind (codes "sudowhat: ") (bold color (codes "execute:") ++ space)
      (codes "execute:" ++ space) (omega arith)
      (Strips-behind_bold color (codes "execute:") space space (omega arith)
        (Strips-plain space (label-NoEscape space h)))

Strips-as_prefix :
    (user : Text) (color : Bool)
    → All IsVisible user
    → Strips (as_prefix user color) (codes "sudowhat: execute as " ++ (user ++ codes ": "))
Strips-as_prefix user color h =
    let colon = bold color (codes ":") ++ codes " " in
    let name = tinted color color_user user in
    Strips-behind (codes "sudowhat: ")
      (bold color (codes "execute as") ++ (codes " " ++ (name ++ colon)))
      (codes "execute as " ++ (user ++ codes ": ")) (omega arith)
      (Strips-behind_bold color (codes "execute as") (codes " " ++ (name ++ colon))
        (codes " " ++ (user ++ codes ": ")) (omega arith)
        (Strips-behind (codes " ") (name ++ colon) (user ++ codes ": ") (omega arith) (
          Strips-append name colon user (codes ": ")
            (tinted-Strips color color_user user h
              (Strips-color_user user (IsVisible-NoEscape user h)))
            (Strips-behind_bold color (codes ":") (codes " ") (codes " ") (omega arith)
              (Strips-plain (codes " ") (refl, tt))))))

pub front-IsVisible :
    (layout : ExecLayout) (runas : Option Bytes)
    → Every IsBytes runas
    → All IsVisible (front layout runas)
front-IsVisible grouped runas h =
    IsPrintable-IsVisible (codes "sudowhat: execute:    ") (omega arith)
front-IsVisible solo none h = IsPrintable-IsVisible (codes "sudowhat: execute: ") (omega arith)
front-IsVisible solo (some []) h = IsPrintable-IsVisible (codes "sudowhat: execute: ") (omega arith)
front-IsVisible solo (some (b ∷ name)) h =
    All-append IsVisible (codes "sudowhat: execute as ") (escaped (b ∷ name) ++ codes ": ")
      (IsPrintable-IsVisible (codes "sudowhat: execute as ") (omega arith))
      (All-append IsVisible (escaped (b ∷ name)) (codes ": ") (escaped-IsVisible (b ∷ name) h)
        (IsPrintable-IsVisible (codes ": ") (omega arith)))

tail-NoEscape : (layout : ExecLayout) → All NoEscape (b'\n' ∷ exec_ending layout)
tail-NoEscape solo = (refl, tt)
tail-NoEscape grouped = (refl, (refl, tt))

module _ (mem : Allocator) (granting : IsGranting mem) where
  -- The frame, whatever is coloured in it: without its sequences it is what the reader looks for.
  pub exec_frame-Strips :
      (layout : ExecLayout) (runas : Option Bytes) (color : Bool) (value plain : Text)
      → Every IsBytes runas
      → Strips value plain
      → (t : Text) × (exec_frame mem layout runas color value ≡ some t)
        × Strips t (front layout runas ++ (plain ++ b'\n' ∷ exec_ending layout))
  unfolding exec_frame
  exec_frame-Strips layout runas color value plain h s = at layout runas h
    where
      around :
          (layout : ExecLayout) (a b : Text)
          → Strips a b
          → Strips
              (a ++ (value ++ b'\n' ∷ exec_ending layout))
              (b ++ (plain ++ b'\n' ∷ exec_ending layout))
      around layout a b k =
          let tail = b'\n' ∷ exec_ending layout in
          Strips-append a (value ++ tail) b (plain ++ tail) k
            (Strips-append value tail plain tail s (Strips-plain tail (tail-NoEscape layout)))

      at :
          (layout : ExecLayout) (runas : Option Bytes)
          → Every IsBytes runas
          → (t : Text) × (exec_frame mem layout runas color value ≡ some t)
            × Strips t (front layout runas ++ (plain ++ b'\n' ∷ exec_ending layout))
      at grouped runas k = (
        exec_prefix grouped color ++ (value ++ b'\n' ∷ exec_ending grouped),
        refl,
        around grouped (exec_prefix grouped color) (front grouped runas)
            (Strips-exec_prefix color (codes "    ") (omega arith)),
      )
      at solo none k = (
        exec_prefix solo color ++ (value ++ b'\n' ∷ []),
        refl,
        around solo (exec_prefix solo color) (front solo none)
            (Strips-exec_prefix color (codes " ") (omega arith)),
      )
      at solo (some []) k = (
        exec_prefix solo color ++ (value ++ b'\n' ∷ []),
        refl,
        around solo (exec_prefix solo color) (front solo (some []))
            (Strips-exec_prefix color (codes " ") (omega arith)),
      )
      at solo (some (b ∷ name)) k = (
        as_prefix (escaped (b ∷ name)) color ++ (value ++ b'\n' ∷ []),
        ap (Option.map (λ user. as_prefix user color ++ (value ++ b'\n' ∷ [])))
            (audit_escape-escaped mem granting Field.user (b ∷ name) k),
        around solo (as_prefix (escaped (b ∷ name)) color) (front solo (some (b ∷ name)))
            (Strips-as_prefix (escaped (b ∷ name)) color (escaped-IsVisible (b ∷ name) k)),
      )
