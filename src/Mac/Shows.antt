-- ===== src/Mac/Shows.antt =====
-- `sudowhat_audit_open` of plugin/sudowhat_audit.m behind its signatures, where memory is granted.
use sudowhat.Mac.Searched.{
  given-IsFilled, present-given, directory_of-IsFilled, or_cwd-or_else, searched, typed_text,
}
use sudowhat.Audit.Context.{color_allowed}
use sudowhat.Audit.Preview.{given, or_root, directory_of, target_user}
use sudowhat.Audit.Values.{given-IsBytes, directory_of-IsBytes}
use sudowhat.Audit.Lookup.{find_kv-IsBytes}
use sudowhat.Audit.Context.{find_kv, runs_shell}
use sudowhat.Command.Words.{escaped}
use sudowhat.Mac.Granted.{
  IsGranting, typed_line, audit_escape-escaped, audit_command_line-typed_line,
  escape_present-escaped,
}
use sudowhat.Mac.Values.{
  audit_escape, Allocator, directory, search_path, dir_row_value, path_row_value, is_bare_name,
  command_word, Field,
}
use sudowhat.Mac.Open.{
  show_values, displayed, AuditBuild, assemble, show_command, audit_user_line, audit_command,
}
use sudowhat.Sheet.Layout.{present}
use sudowhat.Color.Terminal.{strip_sgr}
use sudowhat.Color.Palette.{dim}
use sudowhat.Color.Line.{render_command_line}
use sudowhat.Color.Strip.{strip_sgr-render_command_line}
use sudowhat.Audit.Display.{command_line-not_empty}
use sudowhat.Command.{full_command_line_bytes}
use sudowhat.Prelude.{
  [], ◌∷◌, true, false, ◌≡◌, ◌∙◌, ap, refl, some, none, Option, List, Bytes, if◌then◌else◌, All,
  Bool, Every, ◌∷◌, Bool-cases, IsBytes, Text, codes, inl, inr, is_empty, ◌&&◌, not,
}
use mathlib.Core.Option

root_escaped : some (codes "root") ≡ some (escaped (codes "root"))
unfolding sudowhat.Escape.escape_bytes sudowhat.Escape.is_hidden sudowhat.Utf8.decode
root_escaped = refl

typed_line-not_empty :
    (a0 : Bytes) (words : List Bytes) (color : Bool)
    → All IsBytes (a0 ∷ words)
    → is_empty (typed_line a0 words color) ≡ false
unfolding strip_sgr
typed_line-not_empty a0 words false h = command_line-not_empty a0 words h.0 h.1
typed_line-not_empty a0 words true h =
    colored_too (render_command_line a0 (a0 ∷ words) dim [])
      (strip_sgr-render_command_line a0 (a0 ∷ words) dim h.0 h)
  where
    colored_too :
        (t : Text) → strip_sgr t ≡ full_command_line_bytes a0 (a0 ∷ words) [] → is_empty t ≡ false
    colored_too [] e = ap is_empty e ∙ command_line-not_empty a0 words h.0 h.1
    colored_too (c ∷ t) e = refl

-- The block of the preview's values.
abbrev pub block_of : Bool → Bool → List Bytes → List Bytes → List Bytes → List Bytes → Text
block_of color echo settings user_info words envp =
    assemble color (escaped (target_user settings))
      (Option.map escaped (directory_of settings user_info)) (typed_text words (color && echo))
      (Option.map escaped (searched words envp))

module _ (mem : Allocator) (granting : IsGranting mem) where
  pub dir_row_value-directory_of :
      (settings user_info : List Bytes)
      → All IsBytes settings
      → All IsBytes user_info
      → dir_row_value mem settings user_info ≡ Option.map escaped (directory_of settings user_info)
  unfolding dir_row_value directory_of
  dir_row_value-directory_of settings user_info hs hu =
      rw
        (
          present-given (find_kv settings (codes "cmnd_cwd")),
          present-given (find_kv user_info (codes "cwd")),
          or_cwd-or_else,
        )
        (escape_present-escaped mem granting directory (directory_of settings user_info)
          (directory_of-IsFilled settings user_info)
          (directory_of-IsBytes settings user_info hs hu))

  pub path_row_value-searched :
      (words envp : List Bytes)
      → All IsBytes envp
      → path_row_value mem words envp ≡ Option.map escaped (searched words envp)
  unfolding path_row_value searched
  path_row_value-searched words envp h = elim (Bool-cases (is_bare_name (command_word words))) [
    | inl e ↦
        rw (e, present-given (find_kv envp (codes "PATH")))
          (escape_present-escaped mem granting search_path (given (find_kv envp (codes "PATH")))
            (given-IsFilled (find_kv envp (codes "PATH")))
            (given-IsBytes _ (find_kv-IsBytes envp (codes "PATH") h)))
    | inr e ↦ rw e refl
  ]

  pub audit_user_line-target_user :
      (settings : List Bytes)
      → All IsBytes settings
      → audit_user_line mem settings ≡ some (escaped (target_user settings))
  unfolding audit_user_line target_user
  audit_user_line-target_user settings h =
      named (find_kv settings (codes "runas_user"))
        (find_kv-IsBytes settings (codes "runas_user") h)
    where
      named :
          (o : Option Bytes)
          → Every IsBytes o
          → (elim (present o) [
            | some runas ↦ audit_escape mem Field.user (some runas)
            | none ↦ some (codes "root")
          ])
            ≡ some (escaped (or_root (given o)))
      named none k = root_escaped
      named (some []) k = root_escaped
      named (some (b ∷ s)) k = audit_escape-escaped mem granting Field.user (b ∷ s) k

  pub audit_command-typed_text :
      (settings words : List Bytes) (color : Bool)
      → All IsBytes words
      → audit_command mem settings words color ≡ (
          if is_empty words && not (runs_shell settings)
          then none
          else some (typed_text words color))
  unfolding audit_command
  audit_command-typed_text settings [] color h = elim (Bool-cases (runs_shell settings)) [
    | inl e ↦ rw e refl
    | inr e ↦ rw e refl
  ]
  audit_command-typed_text settings (a0 ∷ words) color h =
      rw
        (
          audit_command_line-typed_line mem granting a0 words color h,
          typed_line-not_empty a0 words color h,
        )
        refl

  pub show_command-block_of :
      (build : AuditBuild) (settings user_info words envp : List Bytes)
      → All IsBytes settings
      → All IsBytes user_info
      → All IsBytes words
      → All IsBytes envp
      → show_command build mem settings user_info words envp ≡ (
          if is_empty words && not (runs_shell settings)
          then []
          else displayed
              (block_of (color_allowed envp) build.echo_color settings user_info words envp)
            ∷ [])
  unfolding show_command
  show_command-block_of build settings user_info words envp hs hu hw he =
      (λ i.
        show_values (color_allowed envp)
          (audit_command-typed_text settings words (color_allowed envp && build.echo_color) hw i)
          (audit_user_line-target_user settings hs i)
          (dir_row_value-directory_of settings user_info hs hu i)
          (path_row_value-searched words envp he i))
      ∙ at (is_empty words && not (runs_shell settings))
    where
      at :
          (nothing : Bool)
          → show_values
              (color_allowed envp)
              (if nothing
                then none
                else some (typed_text words (color_allowed envp && build.echo_color)))
              (some (escaped (target_user settings)))
              (Option.map escaped (directory_of settings user_info))
              (Option.map escaped (searched words envp))
            ≡ (if nothing
                then []
                else displayed
                    (block_of (color_allowed envp) build.echo_color settings user_info words envp)
                  ∷ [])
      at true = refl
      at false = refl
