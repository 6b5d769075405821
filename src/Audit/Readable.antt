-- ===== src/Audit/Readable.antt =====
-- The block of the audit plugin says what it is to say, and says it readably.
use mathlib.Core.Option
use sudowhat.Command.Tokens.{command_tokens-cons}
use sudowhat.Command.{command_tokens}
use sudowhat.Prelude.{
  [], ◌∷◌, ◌≡◌, true, false, some, none, refl, Bytes, Text, codes, All, List, ◌++◌, Option, ℕ, inl,
  ◌==◌, arith, Bool, sym, if◌then◌else◌,
}
use sudowhat.Audit.Block.{chosen_dir, user_value, dir_value, escape, start_dir, dir_line, user_line}
use sudowhat.Audit.Preview.{or_root, given, or_else, target_user, directory_of, lines}
use sudowhat.Escape.Clean.{IsVisible-ne_control, IsVisible}

pub lines-append : (t rest : Text) → All IsVisible t → lines (t ++ b'\n' ∷ rest) ≡ t ∷ lines rest
unfolding lines
lines-append [] rest h = refl
lines-append (c ∷ t) rest h = rw (newline_no c h.0, lines-append t rest h.1) refl
  where
    newline_no : (c : ℕ) → IsVisible c → (c == b'\n') ≡ false
    newline_no c v = ground (arith, IsVisible-ne_control c v)

escape-root : escape (codes "root") ≡ codes "root"
unfolding escape sudowhat.Escape.escape_bytes sudowhat.Utf8.decode sudowhat.Escape.is_hidden
escape-root = refl

user_value-given : (o : Option Bytes) → user_value o ≡ escape (or_root (given o))
unfolding user_value
user_value-given none = sym escape-root
user_value-given (some []) = sym escape-root
user_value-given (some (b ∷ v)) = refl

pub user_line-target_user :
    (settings : List Bytes) → user_line settings ≡ escape (target_user settings)
unfolding user_line target_user
user_line-target_user settings = user_value-given _

dir_value-given : (o : Option Bytes) → dir_value o ≡ Option.map escape (given o)
unfolding dir_value
dir_value-given none = refl
dir_value-given (some []) = refl
dir_value-given (some (b ∷ v)) = refl

dir_value-chosen_dir :
    (cwd : Option Bytes) (login : Bool) (invoking : Option Bytes)
    → dir_value (chosen_dir cwd (if login then none else invoking))
      ≡ Option.map escape (or_else (given cwd) (if login then none else given invoking))
unfolding dir_value
dir_value-chosen_dir none true invoking = refl
dir_value-chosen_dir none false invoking = dir_value-given invoking
dir_value-chosen_dir (some []) true invoking = refl
dir_value-chosen_dir (some []) false invoking = dir_value-given invoking
dir_value-chosen_dir (some (b ∷ v)) login invoking = refl

pub dir_line-directory_of :
    (settings user_info : List Bytes)
    → dir_line settings user_info ≡ Option.map escape (directory_of settings user_info)
unfolding dir_line start_dir directory_of
dir_line-directory_of settings user_info = dir_value-chosen_dir _ _ _

-- A command as typed is shown whole: its first word is the path.
pub command_tokens_typed :
    (a0 : Bytes) (argv : List Bytes) → command_tokens a0 (a0 ∷ argv) ≡ a0 ∷ argv
command_tokens_typed a0 argv = (command_tokens-cons a0 a0 argv).0 (inl refl)
