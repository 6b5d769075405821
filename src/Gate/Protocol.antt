-- ===== src/Gate/Protocol.antt =====
-- The protocol that the gate is to keep, as a step relation: what it may do to the system in which
-- state, with nothing said about how it decides.
use sudowhat.Prelude.{
  pos, negsuc, [], ◌∷◌, ◌≡◌, ◌≢◌, ◌⊎◌, true, false, some, none, Bytes, Text, ℕ, List, Bool, Option,
}
use sudowhat.Gate.Host.{
  Event, Verdict, Policy, ExecLayout, returned, exited, marker_cleared, bypass_logged,
  nonconsole_logged, deference_logged, line_sent, code_sent, opened, closed, asked, euid_changed,
  sheet,
}

-- The effective uid, the descriptor that pins the target, whether the code has been tried, and
-- whether the terminal shows the line.
pub record Process : Type 0 where
  pub euid : ℕ
  pub pin : Option ℕ
  pub code : Bool
  pub line : Bool

-- A process as sudo calls `check`.
abbrev pub start : Process
start = record { euid = 0; pin = none; code = false; line = false }

-- The steps that are allowed for a caller of a uid, if it is known.
pub data Step : Option ℕ → Process → Event → Process → Type 0 where
  clears : {k : Option ℕ} {s : Process} → Step k s marker_cleared s
  logs_bypass : {k : Option ℕ} {s : Process} → Step k s bypass_logged s
  logs_nonconsole : {k : Option ℕ} {s : Process} → Step k s nonconsole_logged s
  logs_deference : {k : Option ℕ} {s : Process} → Step k s deference_logged s
  -- The line and the code are written as root; the code may be lost, as on no terminal.
  sends_line :
      {k p : Option ℕ} {c l : Bool} (layout : ExecLayout)
      → Step k
          record { euid = 0; pin = p; code = c; line = l }
          (line_sent layout true)
          record { euid = 0; pin = p; code = c; line = true }
  loses_line :
      {k p : Option ℕ} {c l : Bool} (layout : ExecLayout)
      → Step k
          record { euid = 0; pin = p; code = c; line = l }
          (line_sent layout false)
          record { euid = 0; pin = p; code = c; line = l }
  tries_code :
      {k p : Option ℕ} {c l : Bool} (written : Bool)
      → Step k
          record { euid = 0; pin = p; code = c; line = l }
          (code_sent written)
          record { euid = 0; pin = p; code = true; line = l }
  -- One target is pinned at a time, and a pin is closed once.
  pins :
      {k : Option ℕ} {e : ℕ} {c l : Bool} (path : Bytes) (fd : ℕ)
      → Step k
          record { euid = e; pin = none; code = c; line = l }
          (opened path (pos fd))
          record { euid = e; pin = some fd; code = c; line = l }
  fails_open :
      {k : Option ℕ} {s : Process} (path : Bytes) (n : ℕ) → Step k s (opened path (negsuc n)) s
  unpins :
      {k : Option ℕ} {e : ℕ} {c l : Bool} (fd : ℕ)
      → Step k
          record { euid = e; pin = some fd; code = c; line = l }
          (closed fd)
          record { euid = e; pin = none; code = c; line = l }
  -- The question is asked under the line, with the target pinned.
  asks :
      {k : Option ℕ} {fd : ℕ} {c : Bool} (prompt : Text)
      → Step k
          record { euid = 0; pin = some fd; code = c; line = true }
          (asked prompt)
          record { euid = 0; pin = some fd; code = c; line = true }
  changes_euid :
      {k : Option ℕ} {e : ℕ} {p : Option ℕ} {c l : Bool} (uid : ℕ)
      → Step k
          record { euid = e; pin = p; code = c; line = l }
          (euid_changed uid true)
          record { euid = uid; pin = p; code = c; line = l }
  keeps_euid : {k : Option ℕ} {s : Process} (uid : ℕ) → Step k s (euid_changed uid false) s
  -- A dialog is raised as the caller, who is not root, with the target pinned and after the code has
  -- been tried.
  raises :
      {k : Option ℕ} {e fd : ℕ} {l : Bool} (policy : Policy)
      → k ≡ some e
      → e ≢ 0
      → Step k
          record { euid = e; pin = some fd; code = true; line = l }
          (sheet policy)
          record { euid = e; pin = some fd; code = true; line = l }

pub data Run : Option ℕ → Process → List Event → Process → Type 0 where
  done : {k : Option ℕ} {s : Process} → Run k s [] s
  next :
      {k : Option ℕ} {s t u : Process} {e : Event} {es : List Event}
      → Step k s e t
      → Run k t es u
      → Run k s (e ∷ es) u

-- How a run has to end: with no pin left, and, where sudo goes on to run the command or root could
-- be had back, as root.
abbrev pub IsClean : Bool → Verdict → Process → Type 0
IsClean restores exited s = Unit
IsClean restores (returned v) s = (s.pin ≡ none) × ((restores ≡ true) ⊎ (v ≡ pos 1) → s.euid ≡ 0)
