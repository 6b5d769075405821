-- ===== src/Audit/Disclosure.antt =====
-- `sudowhat_audit_open` of linux/sudowhat_audit/src/lib.rs, from sudo's arrays to the terminal.
use mathlib.Core.Option
use mathlib.Core.Option.{some-injective, none-ne-some}
use sudowhat.Audit.Open.{open_display-uid}
use sudowhat.Audit.Context.{color_allowed}
use sudowhat.Audit.Calls.{delivered, Talk, shut}
use sudowhat.Audit.Lookup.{decimal, NoDigitAhead, IsDigit, Lacks, entry_of}
use sudowhat.Audit.Whole.{write_tty-Whole, Willing}
use sudowhat.Audit.Delivery.{Quiet}
use sudowhat.Utf8.{as_bytes}
use sudowhat.Audit.Tty.{write_tty, Call, open_flags, System}
use sudowhat.Color.Terminal.{strip_sgr}
use sudowhat.Audit.Block.{build_block}
use sudowhat.Prelude.{
  [], ◌∷◌, ◌≡◌, some, none, refl, Bytes, Text, zero, suc, pos, List, Option, Bool, map, All, ℕ,
  IsBytes, ◌++◌, ◌≤◌, ap, length, drop, ◌∙◌, arith, sym, ◌<◌, ◌+◌, ◌/◌, ◌==◌, codes, true, ◌≢◌,
  All-drop,
}
use sudowhat.Audit.Plugin.{show_block, audit_open, CArray, collect, collect_from}
use sudowhat.Audit.Preview.{Preview, preview, read_block, read_shown}
use sudowhat.Audit.Display.{read_block-build_block}
use sudowhat.Audit.Emphasis.{strip_sgr-build_block}

-- An array of C strings and what stands in the memory behind its null pointer.
abbrev pub c_array : List Bytes → List (Option Bytes) → CArray
c_array arr behind = some (map some arr ++ none ∷ behind)

collect_from-map :
    (arr : List Bytes) (behind : List (Option Bytes))
    → collect_from (map some arr ++ none ∷ behind) ≡ arr
collect_from-map [] behind = refl
collect_from-map (s ∷ arr) behind = ap (λ a. s ∷ a) (collect_from-map arr behind)

-- `collect` reads the strings from the start on, up to the null pointer and nothing behind it.
pub collect-c_array :
    (arr : List Bytes) (behind : List (Option Bytes)) (k : ℕ)
    → k ≤ length arr
    → collect (c_array arr behind) (pos k) ≡ drop k arr
collect-c_array arr behind zero h = collect_from-map arr behind
collect-c_array [] behind (suc k) h = absurd (omega (arith, h))
collect-c_array (s ∷ arr) behind (suc k) h = collect-c_array arr behind k (omega (arith, h))

-- A block that is built says what is to be previewed.
build_block-preview :
    (settings user_info argv : List Bytes) (color : Bool) (p : Preview)
    → All IsBytes settings
    → All IsBytes user_info
    → All IsBytes argv
    → preview settings user_info argv ≡ some p
    → (text : Text) × (build_block settings user_info argv color ≡ some text)
      × (read_block (strip_sgr text) ≡ some p)
build_block-preview settings user_info argv color p hs hu ha e =
    built (build_block settings user_info argv color) refl
  where
    reads :
        read_shown (Option.map strip_sgr (build_block settings user_info argv color))
        ≡ some (some p)
    reads =
        ap read_shown (strip_sgr-build_block settings user_info argv color hs hu ha)
        ∙ read_block-build_block settings user_info argv hs hu ha
        ∙ ap (Option.map some) e

    built :
        (block : Option Text)
        → build_block settings user_info argv color ≡ block
        → (text : Text) × (build_block settings user_info argv color ≡ some text)
          × (read_block (strip_sgr text) ≡ some p)
    built none same =
        absurd
          (none-ne-some (some p) (sym (ap (λ b. read_shown (Option.map strip_sgr b)) same) ∙ reads))
    built (some text) same = (
      text,
      same,
      some-injective _ _ (sym (ap (λ b. read_shown (Option.map strip_sgr b)) same) ∙ reads),
    )

version_major : (minor : ℕ) → minor < 65536 → ((65536 + minor) / 65536 == 1) ≡ true
version_major minor h = ground arith

-- Where there is something to preview, the block that says it goes to the terminal.
show_block-discloses :
    (sys : System) (quiet fd : ℕ) (settings user_info argv envp : List Bytes) (p : Preview)
    → Quiet sys quiet
    → Willing sys
    → sys.descriptor (as_bytes (codes "/dev/tty")) open_flags ≡ pos fd
    → sys.terminal fd ≡ pos 1
    → All IsBytes settings
    → All IsBytes user_info
    → All IsBytes argv
    → preview settings user_info argv ≡ some p
    → (calls : List Call) × (text : Text) × (show_block sys quiet settings user_info argv envp
        ≡ some calls)
      × (delivered calls ≡ as_bytes text)
      × Talk (as_bytes (codes "/dev/tty")) shut calls shut
      × (read_block (strip_sgr text) ≡ some p)
unfolding show_block as_bytes
show_block-discloses sys quiet fd settings user_info argv envp p q w opens tty hs hu ha e =
    let (text, built, reads) =
      build_block-preview settings user_info argv (color_allowed envp) p hs hu ha e in
    let (calls, run, whole, talk) =
      write_tty-Whole sys quiet fd (codes "/dev/tty") text q w refl opens tty in
    (calls, text, ap shown built ∙ run, whole, talk, reads)
  where
    shown : Option Text → Option (List Call)
    shown b = elim b [
      | some block ↦ write_tty sys (length (as_bytes block) + quiet) (codes "/dev/tty") block
      | none ↦ some []
    ]

-- A caller that is not root, on a terminal, is told what sudo is about to run: `open` answers 1,
-- and what it writes, all of it to the descriptor that was opened at /dev/tty and is closed again, is,
-- but for the emphasis, a block that is read as the target user, the directory and the words of the
-- command in sudo's arrays. The display is not switched off by the build, sudo speaks version 1, the
-- arrays end at their null pointers and hold bytes, and the uid spells a number other than zero. There
-- is something to preview, /dev/tty opens a terminal that fails no `write`, and interruptions end at
-- some call.
pub audit_open-discloses :
    (sys : System) (quiet fd minor optind : ℕ) (settings user_info submit_argv envp : List Bytes)
    (behind0 behind1 behind2 behind3 : List (Option Bytes)) (before after : List Bytes)
    (digits rest : Bytes) (p : Preview)
    → minor < 65536
    → Quiet sys quiet
    → Willing sys
    → sys.descriptor (as_bytes (codes "/dev/tty")) open_flags ≡ pos fd
    → sys.terminal fd ≡ pos 1
    → All IsBytes settings
    → All IsBytes user_info
    → All IsBytes submit_argv
    → optind ≤ length submit_argv
    → user_info ≡ before ++ entry_of (codes "uid") (digits ++ rest) ∷ after
    → All (Lacks (codes "uid")) before
    → All IsDigit digits
    → NoDigitAhead rest
    → decimal 0 digits ≢ 0
    → preview settings user_info (drop optind submit_argv) ≡ some p
    → (calls : List Call) × (text : Text) × (audit_open none sys quiet
          (65536 + minor)
          (c_array settings behind0)
          (c_array user_info behind1)
          (pos optind)
          (c_array submit_argv behind2)
          (c_array envp behind3)
        ≡ (pos 1, some calls))
      × (delivered calls ≡ as_bytes text)
      × Talk (as_bytes (codes "/dev/tty")) shut calls shut
      × (read_block (strip_sgr text) ≡ some p)
unfolding audit_open
audit_open-discloses sys quiet fd minor optind settings user_info submit_argv envp behind0 behind1
      behind2 behind3 before after digits rest p hm q w opens tty hs hu ha ho split lacks hd hr
      other e =
    let argv = drop optind submit_argv in
    let (calls, text, run, whole, talk, reads) =
      show_block-discloses sys quiet fd settings user_info argv envp p q w opens tty hs hu
        (All-drop IsBytes optind submit_argv ha) e in
    let uid =
      open_display-uid sys quiet settings user_info argv envp before after digits rest split lacks
        hd hr in
    (
      calls,
      text,
      rw
          (
            version_major minor hm,
            collect-c_array settings behind0 0 (omega arith),
            collect-c_array user_info behind1 0 (omega arith),
            collect-c_array submit_argv behind2 optind ho,
            collect-c_array envp behind3 0 (omega arith),
          )
          (ap (λ r. (pos 1, r)) (uid.1 other ∙ run)),
      whole,
      talk,
      reads,
    )
