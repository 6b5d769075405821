-- ===== src/Mac/Agrees.antt =====
-- The macOS block and what its reader makes of it.

use sudowhat.Audit.Values.{directory_of-IsBytes, target_user-IsBytes}
use sudowhat.Color.Terminal.{strip_sgr}
use sudowhat.Audit.Readable.{command_tokens_typed}
use sudowhat.Audit.Emphasis.{IsVisible-NoEscape}
use sudowhat.Command.Visible.{full_command_line_bytes-IsVisible}
use sudowhat.Escape.RoundTrip.{source_bytes-read-escape_bytes}
use sudowhat.Color.Palette.{dim}
use sudowhat.Audit.Preview.{lines, typed, directory_of, target_user, value_bytes}
use sudowhat.Command.Words.{escaped, read_tokens-full_command_line_bytes}
use sudowhat.Escape.Clean.{IsVisible, escape_bytes-IsVisible}
use sudowhat.Mac.Emphasis.{Strips-plain, Strips-render_command_line}
use sudowhat.Mac.Granted.{typed_line}
use sudowhat.Mac.Reader.{read_rows, read_mac_block, say, Rows, told}
use sudowhat.Mac.Shows.{block_of}
use sudowhat.Mac.Searched.{searched-IsBytes, typed_text, searched}
use sudowhat.Mac.Told.{read_rows-plain_rows, strip_sgr-assemble, EachStrips, plain_rows}
use sudowhat.Prelude.{
  ◌≡◌, ap, ◌∙◌, List, [], ◌∷◌, All, refl, none, some, Option, true, false, Bytes, Every, IsBytes,
  Bool, Text, ◌&&◌,
}
use mathlib.Core.Option

pub escaped-IsVisible : (s : Bytes) → IsBytes s → All IsVisible (escaped s)
escaped-IsVisible s h = escape_bytes-IsVisible s [] h tt

map-escaped-IsVisible :
    (o : Option Bytes) → Every IsBytes o → Every (All IsVisible) (Option.map escaped o)
map-escaped-IsVisible none h = tt
map-escaped-IsVisible (some s) h = escaped-IsVisible s h

typed_text-IsVisible :
    (words : List Bytes) → All IsBytes words → Every (All IsVisible) (typed_text words false)
typed_text-IsVisible [] h = tt
typed_text-IsVisible (a0 ∷ words) h = full_command_line_bytes-IsVisible a0 (a0 ∷ words) [] h.0 h tt

typed_text-EachStrips :
    (words : List Bytes) (color : Bool)
    → All IsBytes words
    → EachStrips (typed_text words color) (typed_text words false)
typed_text-EachStrips [] color h = tt
typed_text-EachStrips (a0 ∷ words) true h = Strips-render_command_line a0 (a0 ∷ words) dim h.0 h
typed_text-EachStrips (a0 ∷ words) false h =
    Strips-plain (typed_line a0 words false)
      (IsVisible-NoEscape _ (typed_text-IsVisible (a0 ∷ words) h))

value_bytes-escaped : (s : Bytes) → IsBytes s → value_bytes (escaped s) ≡ s
value_bytes-escaped s h = source_bytes-read-escape_bytes s h

map-value_bytes :
    (o : Option Bytes) → Every IsBytes o → Option.map value_bytes (Option.map escaped o) ≡ o
map-value_bytes none h = refl
map-value_bytes (some s) h = ap some (value_bytes-escaped s h)

-- The rows that are made of the values of a preview.
abbrev rows_of : Bytes → Option Bytes → List Bytes → Option Bytes → Rows
rows_of user dir words path = record {
  user = escaped user;
  dir = Option.map escaped dir;
  command = typed_text words false;
  path = Option.map escaped path;
}

told-rows_of :
    (user : Bytes) (dir : Option Bytes) (words : List Bytes) (path : Option Bytes)
    → IsBytes user
    → Every IsBytes dir
    → All IsBytes words
    → Every IsBytes path
    → told (rows_of user dir words path) (typed_text words false)
      ≡ some (record { user = user; directory = dir; command = typed words }, path)
unfolding told
told-rows_of user dir [] path hu hd hw hp = λ i. some (
  record {
    user = value_bytes-escaped user hu i;
    directory = map-value_bytes dir hd i;
    command = none;
  },
  map-value_bytes path hp i,
)
told-rows_of user dir (a0 ∷ words) path hu hd hw hp =
    ap
      (Option.map (λ tokens. (
        say (rows_of user dir (a0 ∷ words) path) (some tokens),
        Option.map value_bytes (Option.map escaped path),
      )))
      (read_tokens-full_command_line_bytes a0 (a0 ∷ words) hw.0 hw
        ∙ ap some (command_tokens_typed a0 words))
    ∙ (λ i. some (
      record {
        user = value_bytes-escaped user hu i;
        directory = map-value_bytes dir hd i;
        command = some (a0 ∷ words);
      },
      map-value_bytes path hp i,
    ))

-- The plain rows of the values.
abbrev pub rows_text : List Bytes → List Bytes → List Bytes → List Bytes → Text
rows_text settings user_info words envp =
    plain_rows (escaped (target_user settings))
      (Option.map escaped (directory_of settings user_info)) (typed_text words false)
      (Option.map escaped (searched words envp))

module _ (settings user_info words envp : List Bytes) (hs : All IsBytes settings)
    (hu : All IsBytes user_info) (hw : All IsBytes words) (he : All IsBytes envp) where
  pub strip_sgr-block_of :
      (color echo : Bool)
      → strip_sgr (block_of color echo settings user_info words envp)
        ≡ rows_text settings user_info words envp
  strip_sgr-block_of color echo =
      strip_sgr-assemble color (escaped (target_user settings))
        (Option.map escaped (directory_of settings user_info)) (typed_text words (color && echo))
        (typed_text words false) (Option.map escaped (searched words envp))
        (escaped-IsVisible (target_user settings) (target_user-IsBytes settings hs))
        (map-escaped-IsVisible (directory_of settings user_info)
          (directory_of-IsBytes settings user_info hs hu))
        (typed_text-EachStrips words (color && echo) hw)
        (map-escaped-IsVisible (searched words envp) (searched-IsBytes words envp he))

  pub read_mac_block-block_of :
      (color echo : Bool)
      → read_mac_block (block_of color echo settings user_info words envp)
        ≡ some (
          record {
            user = target_user settings;
            directory = directory_of settings user_info;
            command = typed words;
          },
          searched words envp,
        )
  unfolding read_mac_block
  read_mac_block-block_of color echo =
      ap (λ t. elim (read_rows (lines t)) [ some rows ↦ told rows rows.command | none ↦ none ])
        (strip_sgr-block_of color echo)
      ∙ ap (λ (r : Option Rows). elim r [ some rows ↦ told rows rows.command | none ↦ none ])
          (read_rows-plain_rows (escaped (target_user settings))
            (Option.map escaped (directory_of settings user_info)) (typed_text words false)
            (Option.map escaped (searched words envp))
            (escaped-IsVisible (target_user settings) (target_user-IsBytes settings hs))
            (map-escaped-IsVisible (directory_of settings user_info)
              (directory_of-IsBytes settings user_info hs hu))
            (typed_text-IsVisible words hw)
            (map-escaped-IsVisible (searched words envp) (searched-IsBytes words envp he)))
      ∙ told-rows_of (target_user settings) (directory_of settings user_info) words
          (searched words envp) (target_user-IsBytes settings hs)
          (directory_of-IsBytes settings user_info hs hu) hw (searched-IsBytes words envp he)
