-- ===== src/Mac/Searched.antt =====
-- The values of the block in plugin/sudowhat_audit.m that stand beside the preview.

use sudowhat.Audit.Preview.{given, or_else, directory_of}
use sudowhat.Audit.Values.{given-IsBytes}
use sudowhat.Audit.Lookup.{find_kv-IsBytes}
use sudowhat.Audit.Context.{find_kv, setting_true}
use sudowhat.Mac.Granted.{IsFilled, typed_line}
use sudowhat.Mac.Values.{or_cwd, is_bare_name, command_word}
use sudowhat.Sheet.Layout.{present}
use sudowhat.Prelude.{
  [], ◌∷◌, true, false, ◌≡◌, refl, some, none, Option, List, Bytes, if◌then◌else◌, All, Bool, Every,
  ◌∷◌, Bool-cases, IsBytes, Text, codes, inl, inr,
}

pub present-given : (o : Option Bytes) → present o ≡ given o
present-given none = refl
present-given (some []) = refl
present-given (some (b ∷ s)) = refl

pub given-IsFilled : (o : Option Bytes) → Every IsFilled (given o)
given-IsFilled none = tt
given-IsFilled (some []) = tt
given-IsFilled (some (b ∷ s)) = refl

or_else-IsFilled :
    (o other : Option Bytes)
    → Every IsFilled o
    → Every IsFilled other
    → Every IsFilled (or_else o other)
or_else-IsFilled none other h k = k
or_else-IsFilled (some s) other h k = h

pub directory_of-IsFilled :
    (settings user_info : List Bytes) → Every IsFilled (directory_of settings user_info)
unfolding directory_of
directory_of-IsFilled settings user_info =
    or_else-IsFilled _ _ (given-IsFilled (find_kv settings (codes "cmnd_cwd")))
      (choose (setting_true settings (codes "login_shell")))
  where
    choose :
        (b : Bool) → Every IsFilled (if b then none else given (find_kv user_info (codes "cwd")))
    choose true = tt
    choose false = given-IsFilled (find_kv user_info (codes "cwd"))

pub or_cwd-or_else : (o other : Option Bytes) → or_cwd o other ≡ or_else o other
or_cwd-or_else none other = refl
or_cwd-or_else (some s) other = refl

-- The PATH that the block discloses: the caller's, for a bare name.
unfoldable pub searched : List Bytes → List Bytes → Option Bytes
searched words envp =
    if is_bare_name (command_word words) then given (find_kv envp (codes "PATH")) else none

pub searched-IsFilled : (words envp : List Bytes) → Every IsFilled (searched words envp)
unfolding searched
searched-IsFilled words envp = elim (Bool-cases (is_bare_name (command_word words))) [
  | inl e ↦ rw e (given-IsFilled (find_kv envp (codes "PATH")))
  | inr e ↦ rw e tt
]

pub searched-IsBytes :
    (words envp : List Bytes) → All IsBytes envp → Every IsBytes (searched words envp)
unfolding searched
searched-IsBytes words envp h = elim (Bool-cases (is_bare_name (command_word words))) [
  | inl e ↦ rw e (given-IsBytes _ (find_kv-IsBytes envp (codes "PATH") h))
  | inr e ↦ rw e tt
]

-- The text of the command, where there is one.
abbrev pub typed_text : List Bytes → Bool → Option Text
typed_text [] color = none
typed_text (a0 ∷ words) color = some (typed_line a0 words color)
