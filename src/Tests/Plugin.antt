-- ===== src/Tests/Plugin.antt =====
-- The Linux plugin at concrete arrays of sudo.
use sudowhat.Color.Terminal.{strip_sgr}
use sudowhat.Audit.Calls.{Talk, shut, delivered}
use sudowhat.Audit.Tty.{Call, wrote, eintr, failed, write_tty, Outcome, System}
use sudowhat.Utf8.{as_bytes}
use sudowhat.Audit.Context.{runs_shell, setting_true, find_kv}
use sudowhat.Audit.Plugin.{audit_open, CArray}
use sudowhat.Audit.Preview.{read_block, preview, Preview, read_shown}
use sudowhat.Tests.{argv, argv-IsBytes}
use sudowhat.Audit.Disclosure.{audit_open-discloses, c_array}
use mathlib.Core.Option
use sudowhat.Prelude.{
  pos, [], ◌∷◌, ◌≡◌, some, none, refl, codes, List, Text, ◌+◌, arith, ap, ℕ, zero, suc, IsBytes,
  Bytes, All, false, map, true, ◌++◌, get_elem?, length, inl, inr,
}
use sudowhat.Audit.Whole.{write_tty-Whole, Willing, Whole}
use sudowhat.Audit.Emphasis.{strip_sgr-build_block}
use sudowhat.Audit.Display.{read_block-build_block}
use sudowhat.Audit.Block.{build_block}
use sudowhat.Audit.Open.{audit_open-Ends, Ends}
use sudowhat.Mac.Tty.{Progresses, mac_write_tty, mac_write_tty-Delivers}
use sudowhat.Audit.Delivery.{write_tty-Delivers, Quiet, Delivers}

abbrev fourth : Bytes → ℕ
fourth s = elim (get_elem? s 3) [ some b ↦ b | none ↦ 0 ]

-- The arrays of `sudo -u ada` in /tmp.
abbrev settings : List Bytes
settings = codes "runas_user=ada" ∷ []

abbrev user_info : List Bytes
user_info = codes "uidextra=0" ∷ codes "uid=1000" ∷ codes "cwd=/tmp" ∷ []

settings-IsBytes : All IsBytes settings
settings-IsBytes = (omega arith, tt)

user_info-IsBytes : All IsBytes user_info
user_info-IsBytes = (omega arith, (omega arith, (omega arith, tt)))

read_block-build_block_example :
    read_shown (build_block settings user_info argv false)
    ≡ some
        (some record { user = codes "ada"; directory = some (codes "/tmp"); command = some argv })
unfolding preview find_kv as_bytes setting_true runs_shell
read_block-build_block_example =
    read_block-build_block settings user_info argv settings-IsBytes user_info-IsBytes argv-IsBytes

-- A terminal whose first `write` is interrupted, and which takes three bytes at a time.
abbrev slow_answer : ℕ → Bytes → Outcome
slow_answer zero bytes = failed eintr
slow_answer (suc n) bytes = wrote 3

abbrev slow : System
slow = record { descriptor = λ path flags. pos 5; terminal = λ fd. pos 1; answer = slow_answer }

slow-Quiet : Quiet slow 1
slow-Quiet zero bytes h = absurd (omega (arith, h))
slow-Quiet (suc n) bytes h = λ e. cc

write_tty-Delivers_example :
    Delivers
      (as_bytes (codes "/dev/tty"))
      (as_bytes (codes "hello"))
      (write_tty slow 6 (codes "/dev/tty") (codes "hello"))
unfolding as_bytes
write_tty-Delivers_example = write_tty-Delivers slow 1 (codes "/dev/tty") (codes "hello") slow-Quiet

slow-Progresses : Progresses slow
slow-Progresses zero bytes = λ e. cc
slow-Progresses (suc n) bytes = λ e. cc

mac_write_tty-Delivers_example :
    Delivers
      (codes "/dev/tty")
      (codes "hello")
      (mac_write_tty slow 6 (codes "/dev/tty") (codes "hello"))
mac_write_tty-Delivers_example =
    mac_write_tty-Delivers slow 1 (codes "/dev/tty") (codes "hello") slow-Quiet slow-Progresses

abbrev as_array : List Bytes → CArray
as_array arr = some (map some arr ++ none ∷ [])

audit_open-Ends_example :
    ((audit_open none slow 1 0x10012
        (as_array settings)
        (as_array user_info)
        (pos 0)
        (as_array argv)
        none).0
      ≡ pos 1)
    × Ends
        (audit_open none slow 1 0x10012
          (as_array settings)
          (as_array user_info)
          (pos 0)
          (as_array argv)
          none).1
audit_open-Ends_example =
    audit_open-Ends none slow 1 0x10012 (as_array settings) (as_array user_info) (pos 0)
      (as_array argv) none slow-Quiet

strip_sgr-build_block_example :
    Option.map strip_sgr (build_block settings user_info argv true)
    ≡ build_block settings user_info argv false
strip_sgr-build_block_example =
    strip_sgr-build_block settings user_info argv true settings-IsBytes user_info-IsBytes
      argv-IsBytes

slow-Willing : Willing slow
slow-Willing zero bytes = inl refl
slow-Willing (suc n) bytes = inr (2, refl)

write_tty-Whole_example :
    Whole
      (as_bytes (codes "/dev/tty"))
      (as_bytes (codes "hello"))
      (write_tty slow (length (as_bytes (codes "hello")) + 1) (codes "/dev/tty") (codes "hello"))
unfolding as_bytes
write_tty-Whole_example =
    write_tty-Whole slow 1 5 (codes "/dev/tty") (codes "hello") slow-Quiet slow-Willing refl refl
      refl

abbrev shown : Preview
shown = record { user = codes "ada"; directory = some (codes "/tmp"); command = some argv }

audit_open-discloses_example :
    (calls : List Call) × (text : Text) × (audit_open none slow 1
        (65536 + 18)
        (c_array settings [])
        (c_array user_info [])
        (pos 0)
        (c_array argv [])
        (c_array [] [])
      ≡ (pos 1, some calls))
    × (delivered calls ≡ as_bytes text)
    × Talk (as_bytes (codes "/dev/tty")) shut calls shut
    × (read_block (strip_sgr text) ≡ some shown)
unfolding preview find_kv as_bytes setting_true runs_shell
audit_open-discloses_example =
    audit_open-discloses slow 1 5 18 0 settings user_info argv [] [] [] [] []
      (codes "uidextra=0" ∷ []) (codes "cwd=/tmp" ∷ []) (codes "1000") [] shown (omega arith)
      slow-Quiet slow-Willing refl refl settings-IsBytes user_info-IsBytes argv-IsBytes
      (omega arith) refl ((λ value e. omega (arith, ap fourth e)), tt) (omega arith) tt
      (λ e. omega (arith, e)) refl
