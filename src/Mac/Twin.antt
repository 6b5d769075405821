-- ===== src/Mac/Twin.antt =====
-- The two audit plugins beside each other, and the macOS block with its colours and without.
use sudowhat.Command.Words.{escaped}
use sudowhat.Audit.Block.{build_block}
use sudowhat.Audit.Context.{color_allowed, runs_shell, find_kv}
use sudowhat.Audit.Emphasis.{strip_sgr-build_block}
use sudowhat.Audit.Display.{read_block-build_block}
use sudowhat.Audit.Preview.{Preview, preview, typed, read_shown, directory_of, target_user}
use sudowhat.Color.Terminal.{strip_sgr}
use sudowhat.Mac.Agrees.{strip_sgr-block_of, rows_text, read_mac_block-block_of}
use sudowhat.Mac.Granted.{IsGranting}
use sudowhat.Mac.Open.{AuditBuild, Effect, displayed, warned, show_command}
use sudowhat.Mac.Reader.{read_mac_block}
use sudowhat.Mac.Shows.{block_of, show_command-block_of}
use sudowhat.Mac.Searched.{typed_text, searched}
use sudowhat.Mac.Values.{Allocator}
use sudowhat.Utf8.{as_bytes}
use mathlib.Core.Option
use sudowhat.Mac.Told.{plain_rows, assemble-plain}
use sudowhat.Prelude.{
  ◌≡◌, ap, ◌∙◌, sym, List, [], ◌∷◌, All, refl, codes, none, some, Option, true, false, Bytes, Text,
  IsBytes, Bool, if◌then◌else◌, is_empty, not, ◌&&◌, map, arith, ◌++◌,
}

-- A text in front of what is drawn behind it, if something is.
abbrev pub draw_ahead : Text → Option Text → Option Text
draw_ahead block none = some block
draw_ahead block (some behind) = some (block ++ behind)

-- All that is drawn, if anything is.
abbrev pub drawn : List Effect → Option Text
drawn [] = none
drawn (warned message ∷ effects) = drawn effects
drawn (displayed block ∷ effects) = draw_ahead block (drawn effects)

-- What is read of the block, if one is drawn: a block that cannot be read is not the same as none.
abbrev pub read_drawn : Option Text → Option (Option (Preview × Option Bytes))
read_drawn none = none
read_drawn (some block) = some (read_mac_block block)

module _ (build : AuditBuild) (mem : Allocator) (granting : IsGranting mem)
    (settings user_info words envp : List Bytes) (hs : All IsBytes settings)
    (hu : All IsBytes user_info) (hw : All IsBytes words) (he : All IsBytes envp) where
  -- What is read off a macOS terminal is the preview, and with it the PATH of the caller where the
  -- command is a bare name and PATH is not empty. Whatever is coloured, and in every case: nothing is
  -- drawn exactly where there is nothing to preview.
  pub read_drawn-show_command :
      read_drawn (drawn (show_command build mem settings user_info words envp))
      ≡ Option.map (λ p. some (p, searched words envp)) (preview settings user_info words)
  unfolding preview
  read_drawn-show_command =
      ap (λ e. read_drawn (drawn e))
        (show_command-block_of mem granting build settings user_info words envp hs hu hw he)
      ∙ at (is_empty words && not (runs_shell settings))
    where
      at :
          (nothing : Bool)
          → read_drawn (
              drawn (
                if nothing
                then []
                else displayed
                    (block_of (color_allowed envp) build.echo_color settings user_info words envp)
                  ∷ []))
            ≡ Option.map
                (λ p. some (p, searched words envp))
                (if nothing
                  then none
                  else some record {
                    user = target_user settings;
                    directory = directory_of settings user_info;
                    command = typed words;
                  })
      at true = refl
      at false = ap some (
          read_mac_block-block_of settings user_info words envp hs hu hw he (color_allowed envp)
            build.echo_color)

  -- The two audit plugins agree. Where memory is granted, and whatever either of them colours, one
  -- draws a block exactly where the other builds one from the same arrays, and what is read from the
  -- macOS block but for its PATH is what is read from the Linux block without its sequences. The
  -- arrays hold bytes.
  pub show_command-build_block :
      (linux_color : Bool)
      → Option.map
          (Option.map (λ p. p.0))
          (read_drawn (drawn (show_command build mem settings user_info words envp)))
        ≡ read_shown (Option.map strip_sgr (build_block settings user_info words linux_color))
  show_command-build_block linux_color =
      ap (Option.map (Option.map (λ (p : Preview × Option Bytes). p.0))) read_drawn-show_command
      ∙ without_path (preview settings user_info words)
      ∙ sym (
          ap read_shown (strip_sgr-build_block settings user_info words linux_color hs hu hw)
          ∙ read_block-build_block settings user_info words hs hu hw)
    where
      without_path :
          (p : Option Preview)
          → Option.map
              (Option.map (λ (q : Preview × Option Bytes). q.0))
              (Option.map (λ p. some (p, searched words envp)) p)
            ≡ Option.map some p
      without_path none = refl
      without_path (some p) = refl

-- A block without its sequences.
abbrev pub stripped : Effect → Effect
stripped (warned message) = warned message
stripped (displayed block) = displayed (strip_sgr block)

abbrev no_color : Bytes
no_color = codes "NO_COLOR=1"

-- With `NO_COLOR` in front no colour is allowed, and everything else is looked up as before.
color_allowed-no_color : (envp : List Bytes) → color_allowed (no_color ∷ envp) ≡ false
unfolding color_allowed find_kv as_bytes
color_allowed-no_color envp = refl

searched-no_color :
    (words envp : List Bytes) → searched words (no_color ∷ envp) ≡ searched words envp
unfolding searched find_kv as_bytes
searched-no_color words envp = refl

no_color-IsBytes : IsBytes no_color
no_color-IsBytes = omega arith

-- Where memory is granted, the colours of the macOS block are layout: without its sequences it is the
-- block that the same command gets with NO_COLOR set, character for character, and none is drawn
-- where none was. This holds for the colours of the user, the directory, the command and the PATH.
pub strip_sgr-show_command :
    (build : AuditBuild) (mem : Allocator) (settings user_info words envp : List Bytes)
    → IsGranting mem
    → All IsBytes settings
    → All IsBytes user_info
    → All IsBytes words
    → All IsBytes envp
    → map stripped (show_command build mem settings user_info words envp)
      ≡ show_command build mem settings user_info words (no_color ∷ envp)
strip_sgr-show_command build mem settings user_info words envp granting hs hu hw he =
    ap (map stripped)
      (show_command-block_of mem granting build settings user_info words envp hs hu hw he)
    ∙ at (is_empty words && not (runs_shell settings))
    ∙ sym (
        show_command-block_of mem granting build settings user_info words (no_color ∷ envp) hs hu hw
          (no_color-IsBytes, he))
  where
    plain_block :
        block_of
          (color_allowed (no_color ∷ envp))
          build.echo_color
          settings
          user_info
          words
          (no_color ∷ envp)
        ≡ rows_text settings user_info words envp
    plain_block =
        ap (λ c. block_of c build.echo_color settings user_info words (no_color ∷ envp))
          (color_allowed-no_color envp)
        ∙ assemble-plain (escaped (target_user settings))
            (Option.map escaped (directory_of settings user_info)) (typed_text words false)
            (Option.map escaped (searched words (no_color ∷ envp)))
        ∙ ap
            (λ p.
              plain_rows (escaped (target_user settings))
                (Option.map escaped (directory_of settings user_info)) (typed_text words false)
                (Option.map escaped p))
            (searched-no_color words envp)

    at :
        (nothing : Bool)
        → map stripped (
            if nothing
            then []
            else displayed
                (block_of (color_allowed envp) build.echo_color settings user_info words envp)
              ∷ [])
          ≡ (if nothing
              then []
              else displayed (
                  block_of
                    (color_allowed (no_color ∷ envp))
                    build.echo_color
                    settings
                    user_info
                    words
                    (no_color ∷ envp))
                ∷ [])
    at true = refl
    at false =
        ap (λ b. displayed b ∷ [])
          (strip_sgr-block_of settings user_info words envp hs hu hw he (color_allowed envp)
              build.echo_color
            ∙ sym plain_block)
