-- ===== src/Mac/Opened.antt =====
-- When the macOS audit plugin draws a block, and what is read from it.
use sudowhat.Audit.Context.{find_kv}
use sudowhat.Audit.Plugin.{CArray, collect}
use sudowhat.Audit.Preview.{Preview, preview}
use sudowhat.Mac.Granted.{IsGranting}
use sudowhat.Mac.Open.{
  AuditBuild, World, Effect, gated, open_shown, mac_audit_open, to_uid, api_major, show_command,
}
use sudowhat.Mac.Searched.{searched}
use sudowhat.Mac.Twin.{drawn, read_drawn, read_drawn-show_command}
use mathlib.Core.Option
use sudowhat.Prelude.{
  ◌≡◌, ap, ◌∙◌, List, [], All, refl, codes, none, some, Option, true, false, Bytes, IsBytes, Bool,
  if◌then◌else◌, not, ◌&&◌, ℤ, pos, ℕ, ◌/◌, ◌==◌,
}

read_drawn-gated :
    (root plugin pam : Bool) (effects : List Effect)
    → read_drawn (drawn (gated root plugin pam effects))
      ≡ (if not root && plugin && pam then read_drawn (drawn effects) else none)
unfolding gated
read_drawn-gated true plugin pam effects = refl
read_drawn-gated false false pam effects = refl
read_drawn-gated false true false effects = refl
read_drawn-gated false true true effects = refl

-- The caller is known, and not root.
abbrev pub is_escalating : World → Option Bytes → Bool
is_escalating world none = false
is_escalating world (some uid) = not (to_uid world uid == 0)

-- Whether `open` is to draw at all.
abbrev pub draws : AuditBuild → World → ℕ → Option Bytes → Bool
draws build world version uid =
    version / 65536 == api_major
    && build.display
    && is_escalating world uid
    && world.plugin_signed
    && world.pam_signed

module _ (build : AuditBuild) (world : World) (version : ℕ) (settings user_info : CArray)
    (submit_optind : ℤ) (submit_argv submit_envp : CArray) (granting : IsGranting world.memory)
    (hs : All IsBytes (collect settings (pos 0))) (hu : All IsBytes (collect user_info (pos 0)))
    (hw : All IsBytes (collect submit_argv submit_optind))
    (he : All IsBytes (collect submit_envp (pos 0))) where
  abbrev words : List Bytes
  words = collect submit_argv submit_optind

  abbrev told : Option (Option (Preview × Option Bytes))
  told =
      Option.map (λ p. some (p, searched words (collect submit_envp (pos 0))))
        (preview (collect settings (pos 0)) (collect user_info (pos 0)) words)

  read_drawn-open_shown :
      read_drawn (
        drawn (
          open_shown build world
            (collect settings (pos 0))
            (collect user_info (pos 0))
            words
            (collect submit_envp (pos 0))))
      ≡ (if is_escalating world (find_kv (collect user_info (pos 0)) (codes "uid"))
            && world.plugin_signed
            && world.pam_signed
          then told
          else none)
  unfolding open_shown
  read_drawn-open_shown = at (find_kv (collect user_info (pos 0)) (codes "uid"))
    where
      effects : List Effect
      effects =
          show_command build world.memory (collect settings (pos 0)) (collect user_info (pos 0))
            words (collect submit_envp (pos 0))

      at :
          (uid : Option Bytes)
          → read_drawn (
              drawn (elim uid [
                | none ↦ []
                | some u ↦ gated (to_uid world u == 0) world.plugin_signed world.pam_signed effects
              ]))
            ≡ (if is_escalating world uid && world.plugin_signed && world.pam_signed
                then told
                else none)
      at none = refl
      at (some u) =
          read_drawn-gated (to_uid world u == 0) world.plugin_signed world.pam_signed effects
          ∙ ap
              (λ (r : Option (Option (Preview × Option Bytes))).
                if not (to_uid world u == 0) && world.plugin_signed && world.pam_signed
                then r
                else none)
              (read_drawn-show_command build world.memory granting (collect settings (pos 0))
                (collect user_info (pos 0)) words (collect submit_envp (pos 0)) hs hu hw he)

  -- `open` answers 1, or 0 to another generation of the interface, and never that sudo is to end.
  -- Where memory is granted and the arrays hold bytes, it draws exactly where the interface is ours,
  -- the display is on, the caller is known and not root, both signatures hold and there is a command or
  -- a shell, and else nothing at all; what it draws is one block, read as the preview of the target
  -- user, the directory and every word of the command, and the caller's PATH for a bare name.
  pub read_drawn-mac_audit_open :
      ((mac_audit_open build world version settings user_info submit_optind submit_argv
          submit_envp).0
        ≡ (if version / 65536 == api_major then pos 1 else pos 0))
      × (read_drawn (
            drawn
              (mac_audit_open build world version settings user_info submit_optind submit_argv
                submit_envp).1)
          ≡ (if draws build world version (find_kv (collect user_info (pos 0)) (codes "uid"))
              then told
              else none))
  unfolding mac_audit_open
  read_drawn-mac_audit_open = at (version / 65536 == api_major) build.display
    where
      effects : List Effect
      effects =
          open_shown build world (collect settings (pos 0)) (collect user_info (pos 0)) words
            (collect submit_envp (pos 0))

      result : Bool → Bool → ℤ × List Effect
      result ours display =
          if not ours then (pos 0, []) else if not display then (pos 1, []) else (pos 1, effects)

      at :
          (ours display : Bool)
          → ((result ours display).0 ≡ (if ours then pos 1 else pos 0))
            × (read_drawn (drawn (result ours display).1) ≡ (
                if ours
                  && display
                  && is_escalating world (find_kv (collect user_info (pos 0)) (codes "uid"))
                  && world.plugin_signed
                  && world.pam_signed
                then told
                else none))
      at false display = (refl, refl)
      at true false = (refl, refl)
      at true true = (refl, read_drawn-open_shown)
