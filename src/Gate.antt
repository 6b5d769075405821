-- ===== src/Gate.antt =====
-- The macOS gate: plugin/sudowhat_approval.m and pam/pam_sudowhat.m, which decide whether sudo may
-- run a command. A build's paths are arguments; the system's answers are records.
pub mod Lines
pub mod Chain
pub mod Written
pub mod ReadBack
pub mod Shape
pub mod Answer
pub mod Question
pub mod Reply
pub mod Host
pub mod ExecLine
pub mod ExecShown
pub mod ExecRead
pub mod ExecTold
pub mod Confirm
pub mod Check
pub mod Protocol
pub mod Kept
pub mod Raised
pub mod Clean
pub mod Grants
pub mod Allowed
pub mod Invoking
pub mod Captured
pub mod Unseen
pub mod Waived
pub mod Pam
pub mod Seat
pub mod Loads
pub mod Roles
