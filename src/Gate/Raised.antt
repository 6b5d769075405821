-- ===== src/Gate/Raised.antt =====
-- The dialogs keep the protocol, from the pin to the verdict behind them.
use sudowhat.Prelude.{
  pos, negsuc, [], ◌∷◌, ◌≡◌, ◌≢◌, inl, inr, refl, true, false, some, none, Bytes, ℕ, Bool,
  Bool-cases, Option-cases,
}
use sudowhat.Gate.Host.{
  Build, Host, Policy, Evaluation, allowed, denied, after, stop, closed, euid_changed, grouped,
  device_owner,
}
use sudowhat.Gate.Confirm.{recheck}
use sudowhat.Gate.Check.{dialogs, decided, authenticate, chosen_policy, prompt_pinned, falls_back}
use sudowhat.Gate.Protocol.{Run, done, next, unpins, raises, changes_euid, keeps_euid, tries_code}
use sudowhat.Gate.Kept.{Keeps, state, after-Keeps, closing, recheck-Keeps, emit_exec_line-Run}

dialogs-Run :
    (host : Host) (policy : Policy) (uid fd : ℕ) (l : Bool)
    → uid ≢ 0
    → Run
        (some uid)
        (state uid (some fd) true l)
        (dialogs host policy).0
        (state uid (some fd) true l)
unfolding dialogs
dialogs-Run host policy uid fd l other = raised (host.evaluation policy) refl
  where
    raised :
        (reply : Evaluation)
        → host.evaluation policy ≡ reply
        → Run
            (some uid)
            (state uid (some fd) true l)
            (dialogs host policy).0
            (state uid (some fd) true l)
    raised allowed e = rw (e, dialogs) (next (raises policy refl other) done)
    raised (denied error) e = elim (Bool-cases (falls_back policy error)) [
      | inl again ↦
          rw (e, dialogs, again)
            (next (raises policy refl other) (next (raises device_owner refl other) done))
      | inr last ↦ rw (e, dialogs, last) (next (raises policy refl other) done)
    ]

module _ (host : Host) (uid : ℕ) where
  abbrev pub restores : Bool
  restores = host.euid_set 0

  decided-Keeps :
      (command : Bytes) (fd : ℕ) (pre_st : ℕ × ℕ) (approved c l : Bool)
      → Keeps
          (some uid)
          restores
          (state uid (some fd) c l)
          (decided host command fd pre_st approved)
  unfolding decided
  decided-Keeps command fd pre_st approved c l = elim (Bool-cases (host.euid_set 0)) [
    | inr failed ↦ rw (decided, failed) (state uid (some fd) c l, next (keeps_euid 0) done, tt)
    | inl set ↦ elim (Bool-cases approved) [
      | inr refused ↦
          rw (decided, set, refused)
            (after-Keeps (some uid) true (stop (closed fd ∷ []) (pos 0))
              (next (changes_euid 0) done) (closing (some uid) true fd c l (pos 0)))
      | inl approval ↦
          rw (decided, set, approval)
            (after-Keeps (some uid) true (recheck host command fd pre_st)
              (next (changes_euid 0) done)
              (recheck-Keeps (some uid) true host command fd pre_st c l))
    ]
  ]

  authenticate-Keeps :
      (command : Bytes) (fd : ℕ) (pre_st : ℕ × ℕ) (l : Bool)
      → uid ≢ 0
      → Keeps (some uid) restores (state uid (some fd) true l) (authenticate host command fd pre_st)
  unfolding authenticate
  authenticate-Keeps command fd pre_st l other = elim (Option-cases (chosen_policy host)) [
    | inl nothing ↦ elim (Bool-cases (host.euid_set 0)) [
      | inl set ↦
          rw (authenticate, nothing, set)
            (after-Keeps (some uid) true (stop (closed fd ∷ []) (pos 0))
              (next (changes_euid 0) done) (closing (some uid) true fd true l (pos 0)))
      | inr failed ↦
          rw (authenticate, nothing, failed)
            (
              state uid none true l,
              next (keeps_euid 0) (next (unpins fd) done),
              (refl, λ h. elim h [ inl e ↦ cc | inr e ↦ cc ]),
            )
    ]
    | inr (policy, chosen) ↦
        rw (authenticate, chosen)
          (after-Keeps (some uid) restores (decided host command fd pre_st (dialogs host policy).1)
            (dialogs-Run host policy uid fd l other)
            (decided-Keeps command fd pre_st (dialogs host policy).1 true l))
  ]

  pub prompt_pinned-Keeps :
      (build : Build) (command : Bytes) (fd : ℕ) (pre_st : ℕ × ℕ) (c l : Bool)
      → uid ≢ 0
      → Keeps
          (some uid)
          restores
          (state 0 (some fd) c l)
          (prompt_pinned build host uid command fd pre_st)
  unfolding prompt_pinned
  prompt_pinned-Keeps build command fd pre_st c l other = elim (Bool-cases (host.prompt_rendered)) [
    | inr not_rendered ↦
        rw (prompt_pinned, not_rendered) (closing (some uid) restores fd c l (negsuc 0))
    | inl rendered ↦
        let (shown, lines) =
          emit_exec_line-Run (some uid) restores build host (some command) grouped (some fd) true
            l in
        let sent = next (tries_code host.code_written) lines in
        elim (Bool-cases (host.euid_set uid)) [
          | inr failed ↦
              rw (prompt_pinned, rendered, failed)
                (after-Keeps (some uid) restores
                  (stop (euid_changed uid false ∷ closed fd ∷ []) (negsuc 0)) sent
                  (after-Keeps (some uid) restores (stop (closed fd ∷ []) (negsuc 0))
                    (next (keeps_euid uid) done)
                    (closing (some uid) restores fd true shown (negsuc 0))))
          | inl set ↦
              rw (prompt_pinned, rendered, set)
                (after-Keeps (some uid) restores
                  (after (euid_changed uid true ∷ []) (authenticate host command fd pre_st)) sent
                  (after-Keeps (some uid) restores (authenticate host command fd pre_st)
                    (next (changes_euid uid) done)
                    (authenticate-Keeps command fd pre_st shown other)))
        ]
  ]
