-- ===== src/Audit/Open.antt =====
-- What `sudowhat_audit_open` answers to sudo, and for whom it shows nothing.
use sudowhat.Audit.Lookup.{
  parse_uid-decimal, find_kv-entry_of, decimal, NoDigitAhead, IsDigit, Lacks, entry_of,
}
use sudowhat.Audit.Block.{build_block}
use sudowhat.Utf8.{as_bytes}
use sudowhat.Audit.Context.{saturate, color_allowed, find_kv}
use sudowhat.Audit.Tty.{write_tty, Call, System}
use sudowhat.Prelude.{
  ℤ, pos, [], ◌≡◌, true, false, some, none, refl, Bytes, Text, codes, Option, ℕ, List,
  if◌then◌else◌, length, ◌/◌, Bool, ◌==◌, not, ◌+◌, ◌++◌, arith, ◌∷◌, All, ◌≢◌, ap, ◌∙◌,
}
use sudowhat.Audit.Plugin.{
  exempt, audit_display_on, CArray, collect, show_block, open_display, audit_open,
}
use sudowhat.Audit.Delivery.{Quiet, write_tty-Delivers}

-- A run that ends.
abbrev pub Ends : Option (List Call) → Type 0
Ends run = (calls : List Call) × (run ≡ some calls)

show_block-Ends :
    (sys : System) (quiet : ℕ) (settings user_info argv envp : List Bytes)
    → Quiet sys quiet
    → Ends (show_block sys quiet settings user_info argv envp)
unfolding show_block
show_block-Ends sys quiet settings user_info argv envp q =
    written (build_block settings user_info argv (color_allowed envp))
  where
    written :
        (block : Option Text)
        → Ends (elim block [
          | some block ↦ write_tty sys (length (as_bytes block) + quiet) (codes "/dev/tty") block
          | none ↦ some []
        ])
    written none = ([], refl)
    written (some block) =
        let (calls, rest, e, d, balance) =
          write_tty-Delivers sys quiet (codes "/dev/tty") block q in
        (calls, e)

open_display-Ends :
    (sys : System) (quiet : ℕ) (settings user_info argv envp : List Bytes)
    → Quiet sys quiet
    → Ends (open_display sys quiet settings user_info argv envp)
unfolding open_display
open_display-Ends sys quiet settings user_info argv envp q =
    classified (exempt (find_kv user_info (codes "uid")))
  where
    classified :
        (nothing : Bool)
        → Ends (elim nothing [
          | true ↦ some []
          | false ↦ show_block sys quiet settings user_info argv envp
        ])
    classified true = ([], refl)
    classified false = show_block-Ends sys quiet settings user_info argv envp q

-- `open` comes back to sudo on every path, if no `write` is interrupted any more from some call
-- on: with 1 for version 1 of the interface, with 0 for another, and never with an error.
pub audit_open-Ends :
    (display : Option Text) (sys : System) (quiet version : ℕ) (settings user_info : CArray)
    (optind : ℤ) (argv envp : CArray)
    → Quiet sys quiet
    → let answer = audit_open display sys quiet version settings user_info optind argv envp in
      (answer.0 ≡ pos (if version / 65536 == 1 then 1 else 0)) × Ends answer.1
unfolding audit_open
audit_open-Ends display sys quiet version settings user_info optind argv envp q =
    known (version / 65536 == 1) (audit_display_on display)
  where
    shown : Option (List Call)
    shown =
        open_display sys quiet (collect settings (pos 0)) (collect user_info (pos 0))
          (collect argv optind) (collect envp (pos 0))

    answer : Bool → Bool → ℤ × Option (List Call)
    answer one on =
        if not one then (pos 0, some []) else if not on then (pos 1, some []) else (pos 1, shown)

    known :
        (one on : Bool) → ((answer one on).0 ≡ pos (if one then 1 else 0)) × Ends (answer one on).1
    known false on = (refl, ([], refl))
    known true false = (refl, ([], refl))
    known true true = (refl, open_display-Ends sys quiet _ _ _ _ q)

saturate_zero : (n : ℕ) → (saturate n == 0) ≡ (n == 0)
saturate_zero n = ground arith

nonzero : (n : ℕ) → n ≢ 0 → (n == 0) ≡ false
nonzero n h = ground arith

-- Who is exempt as root: a caller whose uid begins with digits is shown nothing if they spell
-- zero, and is shown the block if they do not, however large the number is.
pub open_display-uid :
    (sys : System) (quiet : ℕ) (settings user_info argv envp : List Bytes)
    (before after : List Bytes) (digits rest : Bytes)
    → user_info ≡ before ++ entry_of (codes "uid") (digits ++ rest) ∷ after
    → All (Lacks (codes "uid")) before
    → All IsDigit digits
    → NoDigitAhead rest
    → (decimal 0 digits ≡ 0 → open_display sys quiet settings user_info argv envp ≡ some [])
      × (decimal 0 digits ≢ 0
          → open_display sys quiet settings user_info argv envp
            ≡ show_block sys quiet settings user_info argv envp)
unfolding open_display exempt
open_display-uid sys quiet settings user_info argv envp before after digits rest split none_before
      hd hr =
    (
      λ zeros. ap shown (uid_exempt ∙ ap (λ n. n == 0) zeros),
      λ other. ap shown (uid_exempt ∙ nonzero (decimal 0 digits) other),
    )
  where
    uid_exempt : exempt (find_kv user_info (codes "uid")) ≡ (decimal 0 digits == 0)
    uid_exempt =
        ap (λ arr. exempt (find_kv arr (codes "uid"))) split
        ∙ ap exempt (find_kv-entry_of before after (codes "uid") (digits ++ rest) none_before)
        ∙ ap (λ n. n == 0) (parse_uid-decimal digits rest hd hr)
        ∙ saturate_zero (decimal 0 digits)

    shown : Bool → Option (List Call)
    shown nothing = elim nothing [
      | true ↦ some []
      | false ↦ show_block sys quiet settings user_info argv envp
    ]
