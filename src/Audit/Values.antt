-- ===== src/Audit/Values.antt =====
-- The values that a preview takes out of sudo's arrays are bytes.
use sudowhat.Audit.Context.{setting_true, find_kv}
use sudowhat.Audit.Lookup.{find_kv-IsBytes}
use sudowhat.Audit.Preview.{or_root, given, or_else, target_user, directory_of}
use sudowhat.Prelude.{
  Every, [], ◌∷◌, true, false, some, none, Bytes, codes, Option, List, IsBytes, All, Bool, arith,
  if◌then◌else◌,
}

pub given-IsBytes : (o : Option Bytes) → Every IsBytes o → Every IsBytes (given o)
given-IsBytes none h = tt
given-IsBytes (some []) h = tt
given-IsBytes (some (b ∷ v)) h = h

or_root-IsBytes : (o : Option Bytes) → Every IsBytes o → IsBytes (or_root o)
or_root-IsBytes none h = omega arith
or_root-IsBytes (some v) h = h

pub target_user-IsBytes :
    (settings : List Bytes) → All IsBytes settings → IsBytes (target_user settings)
unfolding target_user
target_user-IsBytes settings h =
    or_root-IsBytes _ (given-IsBytes _ (find_kv-IsBytes settings (codes "runas_user") h))

or_else-IsBytes :
    (o other : Option Bytes)
    → Every IsBytes o
    → Every IsBytes other
    → Every IsBytes (or_else o other)
or_else-IsBytes none other h k = k
or_else-IsBytes (some v) other h k = h

pub directory_of-IsBytes :
    (settings user_info : List Bytes)
    → All IsBytes settings
    → All IsBytes user_info
    → Every IsBytes (directory_of settings user_info)
unfolding directory_of
directory_of-IsBytes settings user_info hs hu =
    or_else-IsBytes _ _ (given-IsBytes _ (find_kv-IsBytes settings (codes "cmnd_cwd") hs))
      (choose (setting_true settings (codes "login_shell")))
  where
    choose :
        (b : Bool) → Every IsBytes (if b then none else given (find_kv user_info (codes "cwd")))
    choose true = tt
    choose false = given-IsBytes _ (find_kv-IsBytes user_info (codes "cwd") hu)
