-- ===== src/Color/Palette.antt =====
-- The SGR palette, and which of it lies under the routine roles (`RoleBase`).
use sudowhat.Prelude.{[], ◌∷◌, ◌++◌, Text, codes}

-- The sequence ESC `[` parameters `m`.
abbrev pub sgr : Text → Text
sgr params = 0x1B ∷ b'[' ∷ (params ++ b'm' ∷ [])

abbrev pub sgr_reset : Text
sgr_reset = sgr (codes "0")

abbrev pub sgr_hidden : Text
sgr_hidden = sgr (codes "7;31")

abbrev pub sgr_meta : Text
sgr_meta = sgr (codes "1;36")

abbrev pub sgr_space : Text
sgr_space = sgr (codes "100")

abbrev pub sgr_prog_head : Text
sgr_prog_head = sgr (codes "1;36")

abbrev pub sgr_prog_base : Text
sgr_prog_base = sgr (codes "1;34")

abbrev pub sgr_ours : Text
sgr_ours = sgr (codes "2")

abbrev pub sgr_flag : Text
sgr_flag = sgr (codes "1;34")

abbrev pub sgr_quiet : Text
sgr_quiet = sgr (codes "2")

abbrev pub sgr_quiet_prog : Text
sgr_quiet_prog = sgr (codes "1;2")

pub data RoleBase : Type 0 where
  roles : RoleBase
  dim : RoleBase

abbrev pub prog_head : RoleBase → Text
prog_head roles = sgr_prog_head
prog_head dim = sgr_quiet

abbrev pub prog_middle : RoleBase → Text
prog_middle roles = []
prog_middle dim = sgr_quiet

abbrev pub prog_base : RoleBase → Text
prog_base roles = sgr_prog_base
prog_base dim = sgr_quiet_prog

abbrev pub flag : RoleBase → Text
flag roles = sgr_flag
flag dim = sgr_quiet

abbrev pub value : RoleBase → Text
value roles = []
value dim = sgr_quiet
