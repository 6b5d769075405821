-- ===== src/Gate/Chain.antt =====
-- What the installed /etc/pam.d/sudo_local lets a caller do: the tests on its shape in
-- plugin/sudowhat_approval.m. The path of our PAM module is the build's, and an argument.
use sudowhat.Prelude.{
  [], ◌∷◌, true, false, some, none, Text, codes, List, Bool, Option, not, ◌||◌, ◌&&◌, bytes_eq,
  if◌then◌else◌,
}
use sudowhat.Gate.Lines.{pam_lines}

-- `auth requisite <path>`, and nothing behind it.
abbrev pub is_integrity_line : Text → List Text → Bool
is_integrity_line path (a ∷ b ∷ c ∷ []) =
    bytes_eq a (codes "auth") && bytes_eq b (codes "requisite") && bytes_eq c path
is_integrity_line path f = false

-- `auth sufficient <path> console-gate`, and what may stand behind it.
abbrev pub is_gate_line : Text → List Text → Bool
is_gate_line path (a ∷ b ∷ c ∷ d ∷ rest) =
    bytes_eq a (codes "auth")
    && bytes_eq c path
    && bytes_eq b (codes "sufficient")
    && bytes_eq d (codes "console-gate")
is_gate_line path f = false

abbrev pub any_line : (List Text → Bool) → List (List Text) → Bool
any_line p [] = false
any_line p (f ∷ lines) = p f || any_line p lines

-- `sudowhat_text_is_gate_variant`.
unfoldable pub is_gate_variant : Text → Option Text → Bool
is_gate_variant path content = elim (pam_lines content) [
  | some lines ↦ any_line (is_integrity_line path) lines && any_line (is_gate_line path) lines
  | none ↦ false
]

-- The three lines of the nopasswd-only variant.
abbrev pub nopasswd_only_lines : Text → List (List Text)
nopasswd_only_lines path =
    (codes "auth" ∷ codes "requisite" ∷ path ∷ [])
    ∷ (codes "auth" ∷ codes "requisite" ∷ path ∷ codes "console-only" ∷ [])
    ∷ (codes "auth" ∷ codes "sufficient" ∷ codes "pam_permit.so" ∷ [])
    ∷ []

-- `isEqualToArray`, on lines and on files.
abbrev pub line_eq : List Text → List Text → Bool
line_eq [] [] = true
line_eq (a ∷ f) (b ∷ g) = bytes_eq a b && line_eq f g
line_eq _ _ = false

abbrev pub lines_eq : List (List Text) → List (List Text) → Bool
lines_eq [] [] = true
lines_eq (f ∷ fs) (g ∷ gs) = line_eq f g && lines_eq fs gs
lines_eq _ _ = false

-- `sudowhat_text_is_nopasswd_only_variant`.
unfoldable pub is_nopasswd_only_variant : Text → Option Text → Bool
is_nopasswd_only_variant path content = elim (pam_lines content) [
  | some lines ↦ lines_eq lines (nopasswd_only_lines path)
  | none ↦ false
]

-- `sw_nonconsole_chain`.
pub data NonconsoleChain : Type 0 where
  deny password nopasswd_only : NonconsoleChain

-- `sw_nonconsole_chain_of`.
unfoldable pub nonconsole_chain_of : Text → Option Text → NonconsoleChain
nonconsole_chain_of path content =
    if is_gate_variant path content
    then password
    else if is_nopasswd_only_variant path content
    then nopasswd_only
    else deny

-- `sw_nonconsole_allows`.
abbrev pub nonconsole_allows : NonconsoleChain → Bool → Bool
nonconsole_allows password marker_present = true
nonconsole_allows nopasswd_only marker_present = not marker_present
nonconsole_allows deny marker_present = false

-- `sudowhat_text_has_integrity_line`.
unfoldable pub has_integrity_line : Text → Option Text → Bool
has_integrity_line path content = elim (pam_lines content) [
  | some lines ↦ any_line (is_integrity_line path) lines
  | none ↦ false
]
