-- ===== src/Ffi/Input.antt =====
-- What C passes in is bytes, if its memory holds bytes.

use sudowhat.Prelude.{
  Every, [], ◌∷◌, some, none, Bytes, zero, suc, ℕ, All, IsBytes, ◌==◌, take, List, Option,
  Bool-cases, inl, inr,
}
use sudowhat.Ffi.{read_input, read_elements, read_argv}

take-IsBytes : (n : ℕ) (s : Bytes) → IsBytes s → IsBytes (take n s)
take-IsBytes zero s h = tt
take-IsBytes (suc n) [] h = tt
take-IsBytes (suc n) (b ∷ s) h = (h.0, take-IsBytes n s h.1)

pub read_input-IsBytes :
    (input : Option Bytes) (len : ℕ) → Every IsBytes input → IsBytes (read_input input len)
read_input-IsBytes none len h = tt
read_input-IsBytes (some memory) len h = elim (Bool-cases (len == 0)) [
  | inl e ↦ rw e tt
  | inr e ↦ rw e (take-IsBytes len memory h)
]

read_elements-IsBytes :
    (count : ℕ) (argv : List (Option Bytes)) (lens : List ℕ)
    → All (Every IsBytes) argv
    → All IsBytes (read_elements count argv lens)
read_elements-IsBytes zero argv lens h = tt
read_elements-IsBytes (suc count) [] lens h = tt
read_elements-IsBytes (suc count) (p ∷ argv) [] h = tt
read_elements-IsBytes (suc count) (p ∷ argv) (len ∷ lens) h =
    (read_input-IsBytes p len h.0, read_elements-IsBytes count argv lens h.1)

pub read_argv-IsBytes :
    (argv : Option (List (Option Bytes))) (lens : Option (List ℕ)) (count : ℕ)
    → Every (All (Every IsBytes)) argv
    → All IsBytes (read_argv argv lens count)
read_argv-IsBytes none lens count h = tt
read_argv-IsBytes (some argv) none count h = tt
read_argv-IsBytes (some argv) (some lens) count h = read_elements-IsBytes count argv lens h
