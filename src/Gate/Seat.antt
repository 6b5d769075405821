-- ===== src/Gate/Seat.antt =====
-- Who sits at the console, beside `isInvokingUserActiveConsole` of shared/SessionGuard.m.
use sudowhat.Gate.Host.{Session, is_active_console, no_uid}
use sudowhat.Prelude.{
  ◌≡◌, ◌≢◌, ◌↔◌, ℕ, Bool, true, false, refl, not, if◌then◌else◌, ◌==◌, ◌||◌, arith,
}

-- The session is a local one with graphics, and the user, neither root nor nobody, is logged in at its
-- console.
abbrev pub AtSeat : Session → ℕ → Type 0
AtSeat session uid =
    (session.known ≡ true)
    × (session.graphic_access ≡ true)
    × (session.remote ≡ false)
    × (session.console_uid ≡ uid)
    × (uid ≢ 0)
    × (uid ≢ 4294967295)

same_user :
    (console uid : ℕ)
    → ((if console == no_uid || console == 0 then false else console == uid) ≡ true)
      ↔ ((console ≡ uid) × (uid ≢ 0) × (uid ≢ 4294967295))
same_user console uid = ground arith

pub is_active_console-AtSeat :
    (session : Session) (uid : ℕ) → (is_active_console session uid ≡ true) ↔ AtSeat session uid
unfolding is_active_console
is_active_console-AtSeat session uid = decided session.known session.graphic_access session.remote
  where
    decided :
        (known graphic remote : Bool)
        → ((if not known
              then false
              else if not graphic
              then false
              else if remote
              then false
              else if session.console_uid == no_uid || session.console_uid == 0
              then false
              else session.console_uid == uid)
            ≡ true)
          ↔ ((known ≡ true)
              × (graphic ≡ true)
              × (remote ≡ false)
              × (session.console_uid ≡ uid)
              × (uid ≢ 0)
              × (uid ≢ 4294967295))
    decided false graphic remote = (λ h. cc, λ h. cc (h.0))
    decided true false remote = (λ h. cc, λ h. cc (h.1))
    decided true true true = (λ h. cc, λ h. cc (h.2))
    decided true true false =
        let (there, back) = same_user session.console_uid uid in
        (
          λ h. let (same, root, nobody) = there h in (refl, refl, refl, same, root, nobody),
          λ h. back (h.3, h.4, h.5),
        )
