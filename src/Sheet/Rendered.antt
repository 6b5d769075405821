-- ===== src/Sheet/Rendered.antt =====
-- A value is rendered whole, or not at all where memory is refused.
use sudowhat.Escape.{escape_bytes}
use sudowhat.Command.{full_command_line_bytes}
use sudowhat.Command.Words.{escaped}
use sudowhat.Utf8.{as_bytes}
use sudowhat.Ffi.{read_argv, read_input}
use sudowhat.Sheet.Units.{utf8_string, Units, utf16, utf8_string-as_bytes}
use sudowhat.Ffi.{write_result, read_input, read_argv, sw_escape_control, sw_full_command_line}
use sudowhat.Ffi.Contract.{write_result-retry}
use sudowhat.Escape.Clean.{IsDrawn, escape_bytes-IsDrawn}
use sudowhat.Command.Visible.{full_command_line_bytes-IsDrawn}
use sudowhat.Sheet.Value.{
  two_calls, command, arrays_granted, arguments, sw_pf_escape, sw_pf_command_line, filled, Memory,
  Value,
}
use mathlib.Core.Option
use sudowhat.Prelude.Index.{take-append_left}
use sudowhat.Utf8.{IsScalar}
use sudowhat.Prelude.{
  [], ◌∷◌, none, some, ap₂, take, map, Bytes, List, Option, ℕ, ◌≡◌, refl, Bytes, Every, List,
  length, Text, take, some, Option, ◌∷◌, arith, ap, All, map, ap₂, ◌+◌, IsBytes, if◌then◌else◌, ◌∙◌,
  All-map,
}

-- Memory that is granted has the size that was asked for.
abbrev pub IsSized : Memory → Type 0
IsSized mem = (value : Value) (n : ℕ) → Every (λ buf. length buf ≡ n) (mem.malloc value n)

take-length : (s : Bytes) → take (length s) s ≡ s
take-length [] = refl
take-length (b ∷ s) = ap (λ r. b ∷ r) (take-length s)

pub read_input-length : (s : Bytes) → read_input (some s) (length s) ≡ s
read_input-length [] = refl
read_input-length (b ∷ s) = ground (arith, take-length s)

pub read_argv-length :
    (argv : List Bytes)
    → read_argv (some (map some argv)) (some (map length argv)) (length argv) ≡ argv
read_argv-length [] = refl
read_argv-length (a ∷ argv) = ap₂ ◌∷◌ (read_input-length a) (read_argv-length argv)

-- The two calls for a text, whatever buffer of the right size the system grants.
pub two_calls-write_result :
    (t : Text) (malloc : ℕ → Option Bytes)
    → All IsScalar t
    → ((n : ℕ) → Every (λ buf. length buf ≡ n) (malloc n))
    → two_calls (λ buf cap. write_result t buf cap (some 0)) malloc
      ≡ Option.map (λ _. utf16 t) (malloc (length (as_bytes t) + 1))
unfolding two_calls write_result
two_calls-write_result t malloc h sized =
    granted (malloc (length (as_bytes t) + 1)) (sized (length (as_bytes t) + 1))
  where
    granted :
        (memory : Option Bytes)
        → Every (λ buf. length buf ≡ length (as_bytes t) + 1) memory
        → (elim memory [
          | some buf ↦ filled (write_result t (some buf) (length (as_bytes t) + 1) (some 0))
          | none ↦ none
        ])
          ≡ Option.map (λ _. utf16 t) memory
    granted none room = refl
    granted (some buf) room =
        ap filled (write_result-retry t buf (length (as_bytes t)) refl room)
        ∙ ap (λ s. utf8_string s) (take-append_left (as_bytes t) (0 ∷ []))
        ∙ utf8_string-as_bytes t h

-- What is drawn are scalar values.
pub IsDrawn-IsScalar : (t : Text) → All IsDrawn t → All IsScalar t
IsDrawn-IsScalar t = All-map {P = IsDrawn} (λ c h. h.1) t

-- Whatever bytes a value has, the helper gives its escaped text whole; it gives nothing exactly
-- where the buffer is refused. The two calls, the sizes and the decoding lose nothing.
pub sw_pf_escape-escaped :
    (mem : Memory) (value : Value) (s : Bytes)
    → IsSized mem
    → IsBytes s
    → sw_pf_escape mem value s
      ≡ Option.map (λ _. utf16 (escaped s)) (mem.malloc value (length (as_bytes (escaped s)) + 1))
unfolding sw_pf_escape sw_escape_control
sw_pf_escape-escaped mem value s sized h =
    ap
      (λ r.
        two_calls (λ buf cap. write_result (escape_bytes r []) buf cap (some 0)) (mem.malloc value))
      (read_input-length s)
    ∙ two_calls-write_result (escaped s) (mem.malloc value)
        (IsDrawn-IsScalar _ (escape_bytes-IsDrawn s [] h tt)) (sized value)

abbrev pub command_text : Bytes → List Bytes → Text
command_text path argv = full_command_line_bytes path argv []

-- The command line likewise, where both arrays are granted.
pub sw_pf_command_line-command_text :
    (mem : Memory) (path : Bytes) (argv : Option (List Bytes))
    → IsSized mem
    → IsBytes path
    → All IsBytes (arguments argv)
    → sw_pf_command_line mem path argv ≡ (
        if arrays_granted mem (length (arguments argv))
        then Option.map
            (λ _. utf16 (command_text path (arguments argv)))
            (mem.malloc command (length (as_bytes (command_text path (arguments argv))) + 1))
        else none)
unfolding sw_pf_command_line sw_full_command_line
sw_pf_command_line-command_text mem path argv sized hp ha =
    let toks = arguments argv in
    ap (λ (r : Option Units). if arrays_granted mem (length toks) then r else none)
      (ap₂
          (λ p a.
            two_calls (λ buf cap. write_result (command_text p a) buf cap (some 0))
              (mem.malloc command))
          (read_input-length path) (read_argv-length toks)
        ∙ two_calls-write_result (command_text path toks) (mem.malloc command)
            (IsDrawn-IsScalar _ (full_command_line_bytes-IsDrawn path toks hp ha)) (sized command))
