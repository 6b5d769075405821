-- ===== src/Gate/Roles.antt =====
-- What each role of the PAM module lets through, and how PAM and `check` agree on the session.
use mathlib.Core.Bool.{true≢false}
use mathlib.Core.Option.{some-injective, none-ne-some}
use mathlib.Core.Path.{subst}
use sudowhat.Gate.Seat.{AtSeat, is_active_console-AtSeat}
use sudowhat.Gate.Loads.{LoadsPlugin, verify_conf-LoadsPlugin}
use sudowhat.Gate.Chain.{nonconsole_chain_of, nopasswd_only}
use sudowhat.Gate.Host.{Host, Build, returned}
use sudowhat.Gate.Check.{check}
use sudowhat.Gate.Waived.{with_marker}
use sudowhat.Gate.Allowed.{check-Allows}
use sudowhat.Prelude.{
  refl, sym, ap, ◌∙◌, pos, ◌≢◌, some, none, ◌≡◌, ◌⊎◌, true, false, codes, ℕ, ◌↔◌, Option-cases,
  List, Bool, Option, inl, Bytes, inr, Bool-cases, if◌then◌else◌, ◌∷◌, not, [], ◌&&◌,
}
use sudowhat.Gate.Lines.{verify_conf}
use sudowhat.Gate.Host.{is_active_console}
use sudowhat.Gate.Pam.{
  cred_insufficient, auth_err, result, PamResult, console_only, console_gate, integrity,
  pam_sm_authenticate, success, PamBuild, PamHost, invoking_uid,
}

-- The user whom PAM names has a uid, and sits at the console.
abbrev pub AtConsole : PamHost → Type 0
AtConsole host =
    (user_name : Bytes) × (uid : ℕ) × (host.user ≡ some user_name)
    × (host.passwd_uid user_name ≡ some uid)
    × AtSeat host.session uid

-- A line of sudo.conf loads our plugin, the plugin is intact, and the display, where there is one, is
-- too.
abbrev pub Intact : PamBuild → PamHost → Type 0
Intact build host =
    LoadsPlugin host.sudo_conf (codes "sudowhat_approval_plugin") build.plugin_path
    × (host.valid_signature (build.plugin_path) (codes "sudowhat_approval") ≡ true)
    × ((host.file_exists (build.audit_path) ≡ false)
        ⊎ (host.valid_signature (build.audit_path) (codes "sudowhat_audit") ≡ true))

-- The two lookups.
invoking_uid-known :
    (host : PamHost) (uid : ℕ)
    → invoking_uid host ≡ some uid
    → (user_name : Bytes) × (host.user ≡ some user_name) × (host.passwd_uid user_name ≡ some uid)
unfolding invoking_uid
invoking_uid-known host uid h = at host.user refl
  where
    at :
        (user : Option Bytes)
        → host.user ≡ user
        → (user_name : Bytes) × (host.user ≡ some user_name)
          × (host.passwd_uid user_name ≡ some uid)
    at none e = let gone = rw (invoking_uid, e) at h in cc
    at (some user_name) e = (user_name, e, rw (invoking_uid, e) at h)

invoking_uid-AtConsole : (host : PamHost) (at : AtConsole host) → invoking_uid host ≡ some (at.1)
unfolding invoking_uid
invoking_uid-AtConsole host (user_name, uid, named, known, seat) = rw (invoking_uid, named) known

AtConsole-seat :
    (host : PamHost) (uid : ℕ)
    → invoking_uid host ≡ some uid
    → is_active_console host.session uid ≡ true
    → AtConsole host
AtConsole-seat host uid e console =
    let (user_name, named, known) = invoking_uid-known host uid e in
    (user_name, uid, named, known, (is_active_console-AtSeat host.session uid).0 console)

AtConsole-active :
    (host : PamHost) (uid : ℕ)
    → invoking_uid host ≡ some uid
    → AtConsole host
    → is_active_console host.session uid ≡ true
AtConsole-active host uid e at = (is_active_console-AtSeat host.session uid).1 (
    subst (AtSeat host.session) (some-injective _ _ (sym (invoking_uid-AtConsole host at) ∙ e))
      at.4)

console_gate-success : (host : PamHost) → ((console_gate host).code ≡ success) ↔ AtConsole host
unfolding console_gate
console_gate-success host = elim (Option-cases (invoking_uid host)) [
  | inl e ↦ (
    λ h. let gone = rw (console_gate, e) at h in cc,
    λ at. absurd (none-ne-some _ (sym e ∙ invoking_uid-AtConsole host at)),
  )
  | inr (uid, e) ↦ elim (Bool-cases (is_active_console (host.session) uid)) [
    | inl console ↦
        (λ h. AtConsole-seat host uid e console, λ h. rw (console_gate, e, console) refl)
    | inr outside ↦ (
      λ h. let gone = rw (console_gate, e, outside) at h in cc,
      λ at. absurd (true≢false (sym (AtConsole-active host uid e at) ∙ outside)),
    )
  ]
]

console_only-success : (host : PamHost) → ((console_only host).code ≡ success) ↔ AtConsole host
unfolding console_only
console_only-success host = elim (Option-cases (invoking_uid host)) [
  | inl e ↦ (
    λ h. let gone = rw (console_only, e) at h in cc,
    λ at. absurd (none-ne-some _ (sym e ∙ invoking_uid-AtConsole host at)),
  )
  | inr (uid, e) ↦ elim (Bool-cases (is_active_console (host.session) uid)) [
    | inl console ↦
        (λ h. AtConsole-seat host uid e console, λ h. rw (console_only, e, console) refl)
    | inr outside ↦ (
      λ h. let gone = rw (console_only, e, outside) at h in cc,
      λ at. absurd (true≢false (sym (AtConsole-active host uid e at) ∙ outside)),
    )
  ]
]

integrity-success :
    (build : PamBuild) (host : PamHost)
    → ((integrity build host).code ≡ success) ↔ Intact build host
unfolding integrity
integrity-success build host =
    let (loads, loaded) =
      verify_conf-LoadsPlugin host.sudo_conf (codes "sudowhat_approval_plugin") build.plugin_path in
    let (there, back) = all_tests in
    (λ h. let (c, p, rest) = there h in (loads c, p, rest), λ h. back (loaded h.0, h.1, h.2))
  where
    verdict : Bool → Bool → Bool → Bool → PamResult
    verdict conf plugin present audit =
        if not conf
        then result false auth_err
        else if not plugin
        then result false auth_err
        else if present && not audit
        then result false auth_err
        else result false success

    decided :
        (conf plugin present audit : Bool)
        → ((verdict conf plugin present audit).code ≡ success)
          ↔ ((conf ≡ true) × (plugin ≡ true) × ((present ≡ false) ⊎ (audit ≡ true)))
    decided true true true true = (λ h. (refl, refl, inr refl), λ h. refl)
    decided true true false audit = (λ h. (refl, refl, inl refl), λ h. refl)
    decided true true true false =
        (λ h. cc, λ (c, p, either). elim either [ inl e ↦ cc | inr e ↦ cc ])
    decided true false present audit = (λ h. cc, λ (c, p, either). cc)
    decided false plugin present audit = (λ h. cc, λ (c, p, either). cc)

    all_tests : ((integrity build host).code ≡ success) ↔ (
        (verify_conf host.sudo_conf (codes "sudowhat_approval_plugin") build.plugin_path ≡ true)
        × (host.valid_signature build.plugin_path (codes "sudowhat_approval") ≡ true)
        × ((host.file_exists build.audit_path ≡ false)
            ⊎ (host.valid_signature build.audit_path (codes "sudowhat_audit") ≡ true)))
    all_tests =
        decided (verify_conf host.sudo_conf (codes "sudowhat_approval_plugin") build.plugin_path)
          (host.valid_signature build.plugin_path (codes "sudowhat_approval"))
          (host.file_exists build.audit_path)
          (host.valid_signature build.audit_path (codes "sudowhat_audit"))

-- The gate and the console-only role succeed exactly where the user whom PAM names has a uid and sits
-- at the console: logged in there, neither root nor nobody, in a local session with graphics. The role
-- without an argument succeeds exactly where a line of sudo.conf loads our plugin from its path, the
-- plugin is signed, and so is the audit plugin, if it is installed.
pub pam_sm_authenticate-success :
    (build : PamBuild) (host : PamHost) (argv : List (Option Bytes))
    → let gate = pam_sm_authenticate build host (some (codes "console-gate") ∷ argv) in
      let only = pam_sm_authenticate build host (some (codes "console-only") ∷ argv) in
      let plain = pam_sm_authenticate build host [] in
      ((gate.code ≡ success) ↔ AtConsole host)
      × ((only.code ≡ success) ↔ AtConsole host)
      × ((plain.code ≡ success) ↔ Intact build host)
unfolding pam_sm_authenticate
pam_sm_authenticate-success build host argv =
    (console_gate-success host, console_only-success host, integrity-success build host)

-- PAM and `check` agree on who is outside the console. Under the nopasswd-only chain, for one session
-- and one user who is not root: whoever `check` lets through with the mark that PAM has left sits at the
-- console and has been let through by the console-only role; anybody who does not sit there is refused
-- by that role with the code that ends the attempt at once, and by `check`.
pub console_only-check :
    (build : Build) (host : Host) (pam_build : PamBuild) (pam_host : PamHost) (uid : ℕ)
    (argv : List (Option Bytes)) (command_info : List Bytes)
    → nonconsole_chain_of (build.pam_path) (host.sudo_local) ≡ nopasswd_only
    → pam_host.session ≡ host.session
    → invoking_uid pam_host ≡ some uid
    → uid ≢ 0
    → let answer = pam_sm_authenticate pam_build pam_host (some (codes "console-only") ∷ argv) in
      let verdict =
        (check build (with_marker (answer.marker_set) host) (some uid) command_info).verdict in
      (verdict ≡ returned (pos 1) → AtSeat host.session uid × (answer.code ≡ success))
      × (¬ AtSeat host.session uid
          → (answer.code ≡ cred_insufficient) × (verdict ≢ returned (pos 1)))
unfolding pam_sm_authenticate console_only
console_only-check build host pam_build pam_host uid argv command_info chain session known other =
    elim (Bool-cases (is_active_console host.session uid)) [
      | inl console ↦
          rw (console_only, known, session, console)
            (
              λ allows. ((is_active_console-AtSeat host.session uid).0 console, refl),
              λ away. absurd (away ((is_active_console-AtSeat host.session uid).0 console)),
            )
      | inr outside ↦
          rw (console_only, known, session, outside)
            (λ allows. absurd (refused outside allows), λ away. (refl, refused outside))
    ]
  where
    refused :
        is_active_console host.session uid ≡ false
        → (check build (with_marker true host) (some uid) command_info).verdict ≢ returned (pos 1)
    refused outside allows =
        let (signed, intact, (caller, same, why)) =
          check-Allows build (with_marker true host) (some uid) command_info allows in
        let uids : uid ≡ caller = some-injective _ _ same in
        elim why [
          | inl root ↦ other (uids ∙ root)
          | inr (inl (remote, lets)) ↦ let never = rw chain at lets in cc
          | inr (inr (console, granted)) ↦
              true≢false (sym console ∙ ap (is_active_console (host.session)) (sym uids) ∙ outside)
        ]
