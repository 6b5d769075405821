-- ===== src/Sheet/Value.antt =====
-- The rendering of one value in plugin/PromptFormatter.m: `sw_pf_string`, `sw_pf_escape` and
-- `sw_pf_command_line`, over the C functions of escape_core and the memory that the system grants.
use sudowhat.Sheet.Units.{Units, utf8_string}
use sudowhat.Ffi.{Written, sw_escape_ok, sw_escape_control, sw_full_command_line}
use sudowhat.Prelude.{
  ℕ, ◌+◌, List, [], map, take, Bytes, length, Option, none, some, Bool, ◌&&◌, ◌==◌, if◌then◌else◌,
}

-- The values for which a buffer is allocated.
pub data Value : Type 0 where
  verify_code : Value
  user : Value
  directory : Value
  command : Value

-- What `malloc` answers for a value's buffer of a size, and whether `calloc` grants the two arrays
-- of `sw_pf_command_line` for a count.
pub record Memory : Type 0 where
  pub malloc : Value → ℕ → Option Bytes
  pub toks : ℕ → Bool
  pub lens : ℕ → Bool

-- The cell `needed` or `got`, which starts at 0, and the buffer behind a call.
abbrev pub cell : Option ℕ → ℕ
cell none = 0
cell (some n) = n

abbrev pub buffer : Option Bytes → Bytes
buffer none = []
buffer (some buf) = buf

unfoldable pub sw_pf_string : Bytes → ℕ → Option Units
unfolding utf8_string
sw_pf_string buf len = utf8_string (take len buf)

-- The text that a second call leaves in the buffer.
unfoldable pub filled : Written → Option Units
unfolding sw_pf_string
filled w = if w.code == sw_escape_ok then sw_pf_string (buffer w.out) (cell w.needed) else none

-- The two-call sizing protocol: probe for the length, allocate, fill.
unfoldable pub two_calls : (Option Bytes → ℕ → Written) → (ℕ → Option Bytes) → Option Units
unfolding filled
two_calls call malloc =
    let needed = cell (call none 0).needed in
    elim (malloc (needed + 1)) [ some buf ↦ filled (call (some buf) (needed + 1)) | none ↦ none ]

-- A C string is its bytes without the NUL, so that `strlen` is its length.
unfoldable pub sw_pf_escape : Memory → Value → Bytes → Option Units
unfolding two_calls
sw_pf_escape mem value s =
    two_calls (λ buf cap. sw_escape_control (some s) (length s) buf cap (some 0)) (mem.malloc value)

-- The arguments in front of the `NULL`; there are none without an array.
abbrev pub arguments : Option (List Bytes) → List Bytes
arguments none = []
arguments (some argv) = argv

-- `calloc(n ? n : 1, ...)` of both arrays.
abbrev pub arrays_granted : Memory → ℕ → Bool
arrays_granted mem n = let count : ℕ = if n == 0 then 1 else n in mem.toks count && mem.lens count

unfoldable pub sw_pf_command_line : Memory → Bytes → Option (List Bytes) → Option Units
unfolding two_calls
sw_pf_command_line mem path argv =
    let toks = arguments argv in
    if arrays_granted mem (length toks)
    then two_calls
        (λ buf cap.
          sw_full_command_line (some path) (length path) (some (map some toks))
            (some (map length toks)) (length toks) buf cap (some 0))
        (mem.malloc command)
    else none
