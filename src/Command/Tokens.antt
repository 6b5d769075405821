-- ===== src/Command/Tokens.antt =====
-- Which tokens `command_tokens` lists.
use sudowhat.Command.{last_path_component, repeats_path, command_tokens}
use sudowhat.Prelude.{◌≡◌, ◌≢◌, ◌⊎◌, true, false, List, [], ◌∷◌, Bytes, arith, bytes_eq_iff}

-- The element repeats the path, or its last component.
abbrev pub Repeats : Bytes → Bytes → Type 0
Repeats path a0 = (a0 ≡ path) ⊎ ((a0 ≢ []) × (a0 ≡ last_path_component path))

repeats_path-true : (path a0 : Bytes) → Repeats path a0 → repeats_path path a0 ≡ true
unfolding repeats_path
repeats_path-true path a0 h =
    ground (arith, bytes_eq_iff a0 path, bytes_eq_iff a0 (last_path_component path))

repeats_path-false : (path a0 : Bytes) → ¬ Repeats path a0 → repeats_path path a0 ≡ false
unfolding repeats_path
repeats_path-false path a0 h =
    ground (arith, bytes_eq_iff a0 path, bytes_eq_iff a0 (last_path_component path))

-- `argv[0]` is left out if it is the path, or the last component of the path and not empty, and
-- only then. Every other element of argv is kept, in order, behind the path.
pub command_tokens-cons :
    (path a0 : Bytes) (argv : List Bytes)
    → (Repeats path a0 → command_tokens path (a0 ∷ argv) ≡ path ∷ argv)
      × (¬ Repeats path a0 → command_tokens path (a0 ∷ argv) ≡ path ∷ a0 ∷ argv)
unfolding command_tokens
command_tokens-cons path a0 argv =
    (λ h. rw (repeats_path-true path a0 h), λ h. rw (repeats_path-false path a0 h))
