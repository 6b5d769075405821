-- ===== src/Mac/Granted.antt =====
-- The values of plugin/sudowhat_audit.m where memory is granted.
use sudowhat.Escape.Reader.{read}
use sudowhat.Command.Visible.{full_command_line_bytes-IsDrawn}
use sudowhat.Command.{full_command_line_bytes}
use sudowhat.Color.Palette.{dim}
use sudowhat.Escape.{escape_bytes}
use sudowhat.Sheet.Value.{two_calls}
use sudowhat.Utf8.{source_bytes, as_bytes, IsScalar}
use sudowhat.Color.Line.{render_command_line}
use sudowhat.Color.NoNul.{IsSound-IsScalar}
use sudowhat.Color.Sound.{render_command_line-IsSound}
use sudowhat.Command.Words.{escaped}
use sudowhat.Ffi.{
  sw_full_command_line_colored_dim, sw_full_command_line, sw_escape_control, write_result,
}
use sudowhat.Sheet.Rendered.{
  two_calls-write_result, read_input-length, read_argv-length, IsDrawn-IsScalar,
}
use sudowhat.Sheet.Fields.{escaped-IsDrawn}
use sudowhat.Sheet.Units.{utf16, characters-utf16}
use sudowhat.Mac.Values.{
  colored, plain, Allocator, Field, audit_escape, audit_render, audit_command_line,
  command_line_with, string_text, nonempty, escape_present,
}
use mathlib.Core.List.{cons-ne-nil}
use sudowhat.Escape.RoundTrip.{source_bytes-read-escape_bytes}
use sudowhat.Prelude.{
  inr, false, true, ◌≡◌, ◌∙◌, ap, ap₂, refl, some, none, ℕ, Bytes, Text, Every, IsBytes, List,
  length, All, Bool, true, ◌∷◌, ◌+◌, [], Option, is_empty, suc, Bool-cases, inl, sym,
}
use mathlib.Core.Option

-- Every buffer is granted, of the size that was asked for, and every array.
pub record IsGranting (mem : Allocator) : Type 0 where
  pub buffers :
      (field : Field) (n : ℕ) → (buf : Bytes) × (mem.malloc field n ≡ some buf) × (length buf ≡ n)
  pub argv_granted : (n : ℕ) → mem.argv n ≡ true
  pub lens_granted : (n : ℕ) → mem.lens n ≡ true

-- The command line as typed, in the dim variant or plain.
abbrev pub typed_line : Bytes → List Bytes → Bool → Text
typed_line a0 words true = render_command_line a0 (a0 ∷ words) dim []
typed_line a0 words false = full_command_line_bytes a0 (a0 ∷ words) []

-- The value is not empty.
abbrev pub IsFilled : Bytes → Type 0
IsFilled s = is_empty s ≡ false

-- A value that is not empty is not shown as nothing.
escaped-not_empty : (b : ℕ) (s : Bytes) → IsBytes (b ∷ s) → is_empty (escaped (b ∷ s)) ≡ false
escaped-not_empty b s h = elim (Bool-cases (is_empty (escaped (b ∷ s)))) [
  | inl e ↦ absurd (
      cons-ne-nil b s (
        sym (source_bytes-read-escape_bytes (b ∷ s) h)
        ∙ ap (λ t. source_bytes (read t)) (empty_lem (escaped (b ∷ s)) e)
        ∙ nothing_read))
  | inr e ↦ e
]
  where
    empty_lem : (t : Text) → is_empty t ≡ true → t ≡ []
    empty_lem [] k = refl
    empty_lem (c ∷ t) k = cc

    nothing_read : source_bytes (read []) ≡ []
    nothing_read = unfold source_bytes read in refl

module _ (mem : Allocator) (granting : IsGranting mem) where
  sized : (field : Field) (n : ℕ) → Every (λ buf. length buf ≡ n) (mem.malloc field n)
  sized field n = let (buf, e, room) = granting.buffers field n in rw e room

  -- The two calls of a function that writes a text give the text.
  pub rendered :
      (field : Field) (t : Text)
      → All IsScalar t
      → string_text (two_calls (λ buf cap. write_result t buf cap (some 0)) (mem.malloc field))
        ≡ some t
  rendered field t h =
      let (buf, e, room) = granting.buffers field (length (as_bytes t) + 1) in
      ap string_text (two_calls-write_result t (mem.malloc field) h (sized field))
      ∙ ap (λ m. string_text (Option.map (λ _. utf16 t) m)) e
      ∙ ap some (characters-utf16 t h)

  pub audit_escape-escaped :
      (field : Field) (s : Bytes) → IsBytes s → audit_escape mem field (some s) ≡ some (escaped s)
  unfolding audit_escape sw_escape_control
  audit_escape-escaped field s h =
      ap
        (λ r. string_text (
          two_calls (λ buf cap. write_result (escape_bytes r []) buf cap (some 0))
            (mem.malloc field)))
        (read_input-length s)
      ∙ rendered field (escaped s) (IsDrawn-IsScalar _ (escaped-IsDrawn s h))

  audit_render-colored :
      (a0 : Bytes) (words : List Bytes)
      → All IsBytes (a0 ∷ words)
      → audit_render mem colored sw_full_command_line_colored_dim a0 (a0 ∷ words)
        ≡ some (typed_line a0 words true)
  unfolding audit_render sw_full_command_line_colored_dim
  audit_render-colored a0 words h =
      ap₂
        (λ p w. string_text (
          two_calls (λ buf cap. write_result (render_command_line p w dim []) buf cap (some 0))
            (mem.malloc colored)))
        (read_input-length a0) (read_argv-length (a0 ∷ words))
      ∙ rendered colored (typed_line a0 words true)
          (IsSound-IsScalar _ (render_command_line-IsSound a0 (a0 ∷ words) dim h.0 h))

  audit_render-plain :
      (a0 : Bytes) (words : List Bytes)
      → All IsBytes (a0 ∷ words)
      → audit_render mem plain sw_full_command_line a0 (a0 ∷ words)
        ≡ some (typed_line a0 words false)
  unfolding audit_render sw_full_command_line
  audit_render-plain a0 words h =
      ap₂
        (λ p w. string_text (
          two_calls (λ buf cap. write_result (full_command_line_bytes p w []) buf cap (some 0))
            (mem.malloc plain)))
        (read_input-length a0) (read_argv-length (a0 ∷ words))
      ∙ rendered plain (typed_line a0 words false)
          (IsDrawn-IsScalar _ (full_command_line_bytes-IsDrawn a0 (a0 ∷ words) h.0 h))

  pub audit_command_line-typed_line :
      (a0 : Bytes) (words : List Bytes) (color : Bool)
      → All IsBytes (a0 ∷ words)
      → audit_command_line mem (a0 ∷ words) color ≡ some (typed_line a0 words color)
  unfolding audit_command_line command_line_with
  audit_command_line-typed_line a0 words true h =
      rw
        (
          granting.argv_granted (suc (length words)),
          granting.lens_granted (suc (length words)),
          audit_render-colored a0 words h,
        )
        refl
  audit_command_line-typed_line a0 words false h =
      rw
        (
          granting.argv_granted (suc (length words)),
          granting.lens_granted (suc (length words)),
          audit_render-plain a0 words h,
        )
        refl

  pub escape_present-escaped :
      (field : Field) (o : Option Bytes)
      → Every IsFilled o
      → Every IsBytes o
      → escape_present mem field o ≡ Option.map escaped o
  escape_present-escaped field none f h = refl
  escape_present-escaped field (some []) f h = cc
  escape_present-escaped field (some (b ∷ s)) f h =
      ap nonempty (audit_escape-escaped field (b ∷ s) h) ∙ rw (escaped-not_empty b s h) refl
