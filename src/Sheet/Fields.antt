-- ===== src/Sheet/Fields.antt =====
-- What is read from one value on the sheet.
use sudowhat.Command.Visible.{full_command_line_bytes-IsDrawn}
use sudowhat.Command.{command_tokens}
use sudowhat.Sheet.Units.{utf16, characters, characters-utf16}
use sudowhat.Sheet.Layout.{see_terminal, fitted, overflows}
use sudowhat.Sheet.Reader.{read_value, read_command}
use sudowhat.Sheet.Rendered.{command_text}
use sudowhat.Escape.RoundTrip.{source_bytes-read-escape_bytes}
use sudowhat.Escape.Clean.{IsDrawn, escape_bytes-IsDrawn}
use sudowhat.Utf8.{source_bytes}
use sudowhat.Escape.Reader.{read}
use sudowhat.Command.Words.{escaped, read_tokens, read_tokens-full_command_line_bytes}
use sudowhat.Sheet.Rendered.{IsDrawn-IsScalar}
use sudowhat.Prelude.{
  bytes_eq_iff, ◌≡◌, ap, ◌∙◌, List, [], All, refl, codes, none, some, ℕ, Bytes, IsBytes,
  if◌then◌else◌, ◌≢◌, bytes_eq, Bool-cases, inl, false, inr, sym,
}

pub escaped-IsDrawn : (s : Bytes) → IsBytes s → All IsDrawn (escaped s)
escaped-IsDrawn s h = escape_bytes-IsDrawn s [] h tt

characters-escaped : (s : Bytes) → IsBytes s → characters (utf16 (escaped s)) ≡ escaped s
characters-escaped s h = characters-utf16 (escaped s) (IsDrawn-IsScalar _ (escaped-IsDrawn s h))

value-escaped : (s : Bytes) → IsBytes s → source_bytes (read (characters (utf16 (escaped s)))) ≡ s
value-escaped s h =
    ap (λ t. source_bytes (read t)) (characters-escaped s h) ∙ source_bytes-read-escape_bytes s h

abbrev pub marker : Bytes
marker = codes "(see terminal)"

value-marker : source_bytes (read (characters see_terminal)) ≡ marker
unfolding source_bytes read characters
value-marker = refl

-- Only the marker itself is shown as the marker.
escaped-ne-see_terminal :
    (s : Bytes) → IsBytes s → s ≢ marker → bytes_eq (utf16 (escaped s)) see_terminal ≡ false
escaped-ne-see_terminal s h ne = elim (Bool-cases (bytes_eq (utf16 (escaped s)) see_terminal)) [
  | inl e ↦ absurd (
      ne (
        sym (value-escaped s h)
        ∙ ap (λ u. source_bytes (read (characters u)))
            ((bytes_eq_iff (utf16 (escaped s)) see_terminal).0 e)
        ∙ value-marker))
  | inr e ↦ e
]

pub read_value-fitted :
    (budget : ℕ) (s : Bytes)
    → IsBytes s
    → s ≢ marker
    → read_value (fitted budget (utf16 (escaped s)))
      ≡ (if overflows budget (utf16 (escaped s)) then none else some s)
unfolding read_value
read_value-fitted budget s h ne = elim (Bool-cases (overflows budget (utf16 (escaped s)))) [
  | inl e ↦ rw e refl
  | inr e ↦ rw e (rw (escaped-ne-see_terminal s h ne) (ap some (value-escaped s h)))
]

read_command-marker : read_command see_terminal ≡ none
unfolding read_command read_tokens sudowhat.Quote.Shell.shell_words sudowhat.Quote.Shell.is_special
    characters
read_command-marker = refl

-- The marker is no command line: a shell does not take its parenthesis.
pub read_command-fitted :
    (budget : ℕ) (path : Bytes) (argv : List Bytes)
    → IsBytes path
    → All IsBytes argv
    → read_command (fitted budget (utf16 (command_text path argv))) ≡ (
        if overflows budget (utf16 (command_text path argv))
        then none
        else some (command_tokens path argv))
read_command-fitted budget path argv hp ha =
    elim (Bool-cases (overflows budget (utf16 (command_text path argv)))) [
      | inl e ↦ rw e read_command-marker
      | inr e ↦ rw e shown_command
    ]
  where
    shown_command : read_command (utf16 (command_text path argv)) ≡ some (command_tokens path argv)
    shown_command =
        unfold read_command in
        ap read_tokens (
          characters-utf16 (command_text path argv)
            (IsDrawn-IsScalar _ (full_command_line_bytes-IsDrawn path argv hp ha)))
        ∙ read_tokens-full_command_line_bytes path argv hp ha
