-- ===== src/Sheet/Told.antt =====
-- What a reader is told by the sheet of a call.
use sudowhat.Command.{command_tokens}
use sudowhat.Utf8.{IsScalar}
use sudowhat.Sheet.Bounds.{length-cut_verify, budget_left_bounds, IsShort}
use sudowhat.Sheet.Granted.{code_bytes, all_granted, named_user, verify_text}
use sudowhat.Sheet.Layout.{
  max_user_display, max_cwd_display, overflows, truncation, bottom_clean, styled, budget_left,
  format, path_overflows, overflow, cut_verify, present, format_overflow, format_truncated,
  PromptStyle, PromptOverflow,
}
use sudowhat.Sheet.Reader.{read_sheet}
use sudowhat.Sheet.ReadBack.{read_path, units_of, path_units, reading, IsUnmarked}
use sudowhat.Sheet.Rendered.{IsSized, command_text}
use sudowhat.Sheet.Shown.{
  call_sheet, call_report, format_overflow-all_granted, read_sheet-call_sheet,
}
use sudowhat.Sheet.Units.{Units, utf16}
use sudowhat.Sheet.Value.{Memory, arguments}
use mathlib.Core.Option
use sudowhat.Prelude.{
  ◌≡◌, ap, ◌∙◌, List, [], ◌∷◌, All, refl, codes, none, some, Option, true, false, Bytes, Text,
  IsBytes, arith, Every, length, length-append, ◌≤◌, ℕ,
}

-- Nothing overflows.
abbrev pub nothing_over : PromptOverflow
nothing_over = record { user = false; path = false; command = false }

read_path-nothing_over : (cwd : Option Bytes) → read_path nothing_over cwd ≡ Option.map some cwd
read_path-nothing_over none = refl
read_path-nothing_over (some d) = refl

verify_text-IsShort : (code : Option Text) → IsShort (verify_text code)
verify_text-IsShort none = omega arith
verify_text-IsShort (some []) = omega arith
verify_text-IsShort (some (c ∷ code)) = omega (
  arith,
  length-append {0} (codes "Verify Code: ") (cut_verify (units_of (code_bytes (c ∷ code)))),
  length-cut_verify (units_of (code_bytes (c ∷ code))),
)

le_trans : {a b c : ℕ} → a ≤ b → b ≤ c → a ≤ c
le_trans h k = omega (arith, h, k)

overflows-short : (budget : ℕ) (v : Units) → length v ≤ budget → overflows budget v ≡ false
overflows-short budget v h = ground (arith, h)

path_overflows-short :
    (cwd : Option Bytes)
    → Every (λ d. length (units_of d) ≤ 160) cwd
    → path_overflows (path_units cwd) ≡ false
path_overflows-short none h = refl
path_overflows-short (some d) h = overflows-short max_cwd_display (units_of d) h

overflow-nothing_over :
    (verify user : Units) (path : Option Units) (command : Units)
    → overflows max_user_display user ≡ false
    → path_overflows path ≡ false
    → overflows (budget_left verify user path) command ≡ false
    → overflow verify user path command ≡ nothing_over
unfolding overflow
overflow-nothing_over verify user path command fits_user fits_path fits_command =
    λ i. record { user = fits_user i; path = fits_path i; command = fits_command i }

module _ (mem : Memory) (path : Bytes) (user cwd : Option Bytes) (code : Option Text)
    (argv : Option (List Bytes)) (style : PromptStyle) (sized : IsSized mem) (hp : IsBytes path)
    (hu : Every IsBytes user) (hd : Every IsBytes cwd) (hv : Every (All IsScalar) code)
    (ha : All IsBytes (arguments argv)) (nu : Every IsUnmarked user) (nd : Every IsUnmarked cwd)
    (enough : all_granted mem path user cwd code argv ≡ true) where
  format_overflow-some :
      format_overflow mem (some path) user cwd code argv style
      ≡ some (call_sheet path user cwd code argv style, call_report path user cwd code argv style)
  format_overflow-some =
      format_overflow-all_granted path user cwd code argv style mem sized hp hu hd hv ha
      ∙ rw enough refl

  -- Where memory is granted, there is a sheet, and what is read from it by its shape is what it was
  -- made of: the user, the directory if there is one, every token of the command, the verify line
  -- and the closing line. Exactly the items of the report are left to the terminal, and the closing
  -- line says so. No value can pass for a title or a blank line. Neither the user nor the directory
  -- is spelled like the marker.
  pub read_sheet-format_overflow :
      (sheet : Units) × (ov : PromptOverflow) × (format_overflow mem
          (some path)
          user
          cwd
          code
          argv
          style
        ≡ some (sheet, ov))
      × (read_sheet sheet
          ≡ some (
              reading style
                (verify_text code)
                (named_user (present user))
                (present cwd)
                (command_tokens path (arguments argv))
                ov))
  read_sheet-format_overflow = (
    call_sheet path user cwd code argv style,
    call_report path user cwd code argv style,
    format_overflow-some,
    read_sheet-call_sheet path user cwd code argv style mem sized hp hu hd hv ha nu nd,
  )

  module _ (short_user : length (units_of (named_user (present user))) ≤ 64)
      (short_path : Every (λ d. length (units_of d) ≤ 160) (present cwd))
      (short_command : length (utf16 (command_text path (arguments argv))) ≤ 121) where
    call_report-nothing_over : call_report path user cwd code argv style ≡ nothing_over
    call_report-nothing_over =
        let named = units_of (named_user (present user)) in
        let dir = path_units (present cwd) in
        let short = verify_text-IsShort code in
        overflow-nothing_over (verify_text code) named dir
          (utf16 (command_text path (arguments argv))) (overflows-short 64 named short_user)
          (path_overflows-short (present cwd) short_path)
          (overflows-short (budget_left (verify_text code) named dir) _
            (le_trans short_command (budget_left_bounds (verify_text code) named dir short).0))

    -- Where besides the user takes at most 64 characters, the directory 160 and the command line
    -- 121, nothing is left to the terminal: the sheet is read as the user, the directory and every
    -- token, and ends with the plain closing line. The three entry points agree on it.
    pub format_truncated-whole :
        (sheet : Units) × (format_truncated mem (some path) user cwd code argv style
          ≡ (some sheet, false))
        × (format mem (some path) user cwd code argv style ≡ some sheet)
        × (format_overflow mem (some path) user cwd code argv style ≡ some (sheet, nothing_over))
        × (read_sheet sheet
            ≡ some record {
              user = some (named_user (present user));
              directory = Option.map some (present cwd);
              command = some (command_tokens path (arguments argv));
              verify = verify_text code;
              closing = styled style bottom_clean;
            })
    unfolding format_truncated format
    format_truncated-whole =
        let sheet = call_sheet path user cwd code argv style in
        let told = format_overflow-some ∙ ap (λ ov. some (sheet, ov)) call_report-nothing_over in
        (
          sheet,
          ap truncation told,
          ap (Option.map (λ r. r.0)) told,
          told,
          read_sheet-call_sheet path user cwd code argv style mem sized hp hu hd hv ha nu nd
              ∙ ap
                  (λ ov. some (
                    reading style (verify_text code) (named_user (present user)) (present cwd)
                      (command_tokens path (arguments argv)) ov))
                  call_report-nothing_over
              ∙ ap
                  (λ d. some record {
                    user = some (named_user (present user));
                    directory = d;
                    command = some (command_tokens path (arguments argv));
                    verify = verify_text code;
                    closing = styled style bottom_clean;
                  })
                  (read_path-nothing_over (present cwd)),
        )
