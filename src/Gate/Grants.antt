-- ===== src/Gate/Grants.antt =====
-- When `check` answers 1, so that sudo runs the command.
use mathlib.Core.Option
use sudowhat.Prelude.{
  ℤ, pos, negsuc, ◌≡◌, ◌≢◌, ◌⊎◌, inl, inr, refl, sym, ap, ap₂, ◌∙◌, true, false, some, Bytes, ℕ,
  Bool, Bool-cases, Option-cases, not, ◌&&◌, ◌||◌, ◌==◌, arith, or_parts,
}
use sudowhat.Gate.Host.{
  Build, Host, Outcome, Policy, Evaluation, allowed, denied, returned, device_owner,
  biometrics_or_companion, companion,
}
use sudowhat.Gate.Confirm.{recheck, with_pin}
use sudowhat.Gate.Check.{
  dialogs, decided, authenticate, chosen_policy, prompt_pinned, falls_back, is_allowed,
}

-- The outcome lets sudo run the command.
abbrev pub Allows : Outcome → Type 0
Allows o = o.verdict ≡ returned (pos 1)

-- The target was opened before the human was asked, and the path still leads to that file behind
-- the answer.
abbrev pub Unchanged : Host → Bytes → Type 0
Unchanged host command =
    (fd : ℕ) × (file : ℕ × ℕ) × (host.descriptor command ≡ pos fd)
    × (host.pinned_file fd ≡ some file)
    × (host.file_at command ≡ some file)

same_file :
    (post pre : ℕ × ℕ) → (not (post.0 == pre.0) || not (post.1 == pre.1)) ≡ false → post ≡ pre
same_file (d, i) (e, j) h =
    let (hd, hi) = or_parts (not (d == e)) (not (i == j)) h in
    ap₂ (λ a b. (a, b)) (ground (arith, hd)) (ground (arith, hi))

pub recheck-Allows :
    (host : Host) (command : Bytes) (fd : ℕ) (pre_st : ℕ × ℕ)
    → Allows (recheck host command fd pre_st)
    → host.file_at command ≡ some pre_st
unfolding recheck
recheck-Allows host command fd pre_st h = elim (Option-cases (host.file_at command)) [
  | inl e ↦ absurd (refused (rw (e, recheck) at h))
  | inr (post_st, e) ↦
      elim (Bool-cases (not (post_st.0 == pre_st.0) || not (post_st.1 == pre_st.1))) [
        | inl changed ↦ absurd (refused (rw (e, recheck, changed) at h))
        | inr same ↦ e ∙ ap some (same_file post_st pre_st same)
      ]
]
  where
    refused : returned (pos 0) ≢ returned (pos 1)
    refused e = cc

pub with_pin-Allows :
    (host : Host) (command : Bytes) (body : ℕ → ℕ × ℕ → Outcome)
    → Allows (with_pin host command body)
    → (fd : ℕ) × (file : ℕ × ℕ) × (host.descriptor command ≡ pos fd)
      × (host.pinned_file fd ≡ some file)
      × Allows (body fd file)
unfolding with_pin
with_pin-Allows host command body h = opening (host.descriptor command) refl
  where
    opening :
        (d : ℤ)
        → host.descriptor command ≡ d
        → (fd : ℕ) × (file : ℕ × ℕ) × (host.descriptor command ≡ pos fd)
          × (host.pinned_file fd ≡ some file)
          × Allows (body fd file)
    opening (negsuc n) e = let refused = rw (e, with_pin) at h in cc
    opening (pos fd) e = elim (Option-cases (host.pinned_file fd)) [
      | inl nothing ↦ let refused = rw (e, with_pin, nothing) at h in cc
      | inr (file, there) ↦ (fd, file, e, there, rw (e, with_pin, there) at h)
    ]

-- One of the dialogs was approved.
abbrev pub Approved : Host → Type 0
Approved host =
    (policy : Policy) × ((policy ≡ device_owner) ⊎ (policy ≡ biometrics_or_companion))
    × (host.evaluation policy ≡ allowed)

chosen_policy_cases :
    (host : Host) (policy : Policy)
    → chosen_policy host ≡ some policy
    → (policy ≡ device_owner) ⊎ (policy ≡ biometrics_or_companion)
unfolding chosen_policy
chosen_policy_cases host policy h =
    elim (Bool-cases (host.can_evaluate companion && host.can_evaluate biometrics_or_companion)) [
      | inl e ↦ inr (sym (Option.some-injective _ _ (rw (chosen_policy, e) at h)))
      | inr e ↦ elim (Bool-cases (host.can_evaluate device_owner)) [
        | inl f ↦ inl (sym (Option.some-injective _ _ (rw (chosen_policy, e, f) at h)))
        | inr f ↦ let nothing = rw (chosen_policy, e, f) at h in cc
      ]
    ]

is_allowed-allowed : (reply : Evaluation) → is_allowed reply ≡ true → reply ≡ allowed
is_allowed-allowed allowed h = refl
is_allowed-allowed (denied error) h = cc

dialogs-Approved :
    (host : Host) (policy : Policy)
    → (policy ≡ device_owner) ⊎ (policy ≡ biometrics_or_companion)
    → (dialogs host policy).1 ≡ true
    → Approved host
unfolding dialogs
dialogs-Approved host policy either h = raised (host.evaluation policy) refl
  where
    raised : (reply : Evaluation) → host.evaluation policy ≡ reply → Approved host
    raised allowed e = (policy, either, e)
    raised (denied error) e = elim (Bool-cases (falls_back policy error)) [
      | inl again ↦ (
        device_owner,
        inl refl,
        is_allowed-allowed (host.evaluation device_owner) (rw (e, dialogs, again) at h),
      )
      | inr last ↦ let refused = rw (e, dialogs, last) at h in cc
    ]

decided-Allows :
    (host : Host) (command : Bytes) (fd : ℕ) (pre_st : ℕ × ℕ) (approved : Bool)
    → Allows (decided host command fd pre_st approved)
    → (approved ≡ true) × (host.file_at command ≡ some pre_st)
unfolding decided
decided-Allows host command fd pre_st approved h = elim (Bool-cases (host.euid_set 0)) [
  | inr failed ↦ let gone = rw (decided, failed) at h in cc
  | inl set ↦ elim (Bool-cases approved) [
    | inr refused ↦ let denial = rw (decided, set, refused) at h in cc
    | inl approval ↦
        (approval, recheck-Allows host command fd pre_st (rw (decided, set, approval) at h))
  ]
]

pub prompt_pinned-Allows :
    (build : Build) (host : Host) (uid : ℕ) (command : Bytes) (fd : ℕ) (pre_st : ℕ × ℕ)
    → Allows (prompt_pinned build host uid command fd pre_st)
    → Approved host × (host.file_at command ≡ some pre_st)
unfolding prompt_pinned authenticate
prompt_pinned-Allows build host uid command fd pre_st h = elim (Bool-cases (host.prompt_rendered)) [
  | inr failed ↦ let gone = rw (prompt_pinned, failed) at h in cc
  | inl rendered ↦ elim (Bool-cases (host.euid_set uid)) [
    | inr failed ↦ let gone = rw (prompt_pinned, rendered, failed) at h in cc
    | inl set ↦ elim (Option-cases (chosen_policy host)) [
      | inl nothing ↦ let gone = rw (prompt_pinned, rendered, set, authenticate, nothing) at h in cc
      | inr (policy, chosen) ↦
          let (approval, same) =
            decided-Allows host command fd pre_st (dialogs host policy).1
              (rw (prompt_pinned, rendered, set, authenticate, chosen) at h) in
          (dialogs-Approved host policy (chosen_policy_cases host policy chosen) approval, same)
    ]
  ]
]
