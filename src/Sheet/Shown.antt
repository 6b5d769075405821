-- ===== src/Sheet/Shown.antt =====
-- What the sheet of a call shows, and when there is none.
use sudowhat.Gate.Written.{IsWord}
use sudowhat.Command.{command_tokens}
use sudowhat.Sheet.Lines.{IsAbove-OneLine, OneLine}
use sudowhat.Utf8.{IsScalar}
use sudowhat.Sheet.Granted.{
  code_bytes-IsBytes, code_bytes, all_granted, given_if, verify_given, user_given, path_given,
  command_given, verify_text, named_user,
}
use sudowhat.Sheet.Units.{Units, utf16}
use sudowhat.Sheet.Value.{Memory, arguments}
use sudowhat.Sheet.Layout.{
  cut_verify, path_val, user_val, present, format_overflow, sheet_text, overflow, PromptStyle,
  PromptOverflow, ◌>>=◌,
}
use sudowhat.Sheet.Rendered.{IsSized, command_text}
use sudowhat.Sheet.ReadBack.{
  units_of-OneLine, units_of, path_units, read_sheet-reading, reading, report, IsUnmarked,
}
use sudowhat.Sheet.Reader.{read_sheet}
use sudowhat.Gate.Lines.{is_newline}
use sudowhat.Prelude.{
  All-take, true, false, inl, inr, ◌≡◌, List, [], ◌∷◌, All, refl, codes, none, some, Option, Bool,
  Bytes, Every, Text, ◌&&◌, IsBytes, arith, ◌++◌, All-append, Bool-cases, ltb, length,
}

present-Every : (P : Bytes → Type 0) (s : Option Bytes) → Every P s → Every P (present s)
present-Every P none h = tt
present-Every P (some []) h = tt
present-Every P (some (b ∷ s)) h = h

do_given :
    {A B C D E : Type 0} (a b c d : Bool) (v : A) (p : B) (u : C) (w : D) (f : A → B → C → D → E)
    → (given_if a v >>= λ v.
        given_if b p >>= λ p. given_if c u >>= λ u. given_if d w >>= λ w. some (f v p u w))
      ≡ given_if (a && b && c && d) (f v p u w)
do_given true true true true v p u w f = refl
do_given true true true false v p u w f = refl
do_given true true false d v p u w f = refl
do_given true false c d v p u w f = refl
do_given false b c d v p u w f = refl

named_user-Every :
    (P : Bytes → Type 0) (user : Option Bytes)
    → P (codes "root")
    → Every P user
    → P (named_user user)
named_user-Every P none r h = r
named_user-Every P (some u) r h = h

root-IsUnmarked : IsUnmarked (codes "root")
root-IsUnmarked e = cc

verify_text-OneLine : (code : Option Text) → Every (All IsScalar) code → OneLine (verify_text code)
verify_text-OneLine none h = IsAbove-OneLine (verify_text none) (omega arith)
verify_text-OneLine (some []) h = IsAbove-OneLine (verify_text none) (omega arith)
verify_text-OneLine (some (c ∷ code)) h =
    cut_line-OneLine (units_of (code_bytes (c ∷ code)))
      (units_of-OneLine (code_bytes (c ∷ code)) (code_bytes-IsBytes (c ∷ code) h))
  where
    cut_line-OneLine : (v : Units) → OneLine v → OneLine (codes "Verify Code: " ++ cut_verify v)
    cut_line-OneLine v k =
        All-append (IsWord is_newline) (codes "Verify Code: ") (cut_verify v)
          (IsAbove-OneLine (codes "Verify Code: ") (omega arith))
          (elim (Bool-cases (ltb 32 (length v))) [
            | inl e ↦ rw e (All-take (IsWord is_newline) 32 v k)
            | inr e ↦ rw e k
          ])

module _ (path : Bytes) (user cwd : Option Bytes) (code : Option Text) (argv : Option (List Bytes))
    (style : PromptStyle) where
  -- The report and the text of the call's sheet.
  abbrev pub call_report : PromptOverflow
  call_report =
      report (verify_text code) (named_user (present user)) (present cwd) path (arguments argv)

  abbrev pub call_sheet : Units
  call_sheet =
      sheet_text style (verify_text code) (units_of (named_user (present user)))
        (path_units (present cwd)) (utf16 (command_text path (arguments argv)))

  module _ (mem : Memory) (sized : IsSized mem) (hp : IsBytes path) (hu : Every IsBytes user)
      (hd : Every IsBytes cwd) (hv : Every (All IsScalar) code)
      (ha : All IsBytes (arguments argv)) where
    -- The path, the user, the directory, the code and the arguments are any bytes. There is a sheet
    -- exactly where memory is granted for every value that it shows, and then it is laid out from
    -- the escaped values and the command line; where it is refused for one of them, there is none.
    pub format_overflow-all_granted :
        format_overflow mem (some path) user cwd code argv style
        ≡ given_if (all_granted mem path user cwd code argv) (call_sheet, call_report)
    unfolding format_overflow user_val path_val
    format_overflow-all_granted =
        rw
          (
            verify_given mem sized code hv,
            path_given mem sized (present cwd) (present-Every IsBytes cwd hd),
            user_given mem sized (present user) (present-Every IsBytes user hu),
            command_given mem sized path argv hp ha,
          )
          (do_given _ _ _ _ (verify_text code) (path_units (present cwd))
            (units_of (named_user (present user))) (utf16 (command_text path (arguments argv)))
            λ v d u c. (sheet_text style v u d c, overflow v u d c))

    module _ (nu : Every IsUnmarked user) (nd : Every IsUnmarked cwd) where
      pub read_sheet-call_sheet :
          read_sheet call_sheet
          ≡ some (
              reading style
                (verify_text code)
                (named_user (present user))
                (present cwd)
                (command_tokens path (arguments argv))
                call_report)
      read_sheet-call_sheet =
          read_sheet-reading (verify_text code) (named_user (present user)) (present cwd) path
            (arguments argv) style (verify_text-OneLine code hv)
            (named_user-Every IsBytes (present user) (omega arith) (present-Every IsBytes user hu))
            (present-Every IsBytes cwd hd) hp ha
            (named_user-Every IsUnmarked (present user) root-IsUnmarked
              (present-Every IsUnmarked user nu))
            (present-Every IsUnmarked cwd nd)
