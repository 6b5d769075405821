-- ===== src/Audit.antt =====
-- The Linux audit plugin, linux/sudowhat_audit/src: what display.rs reads in sudo's arrays and the
-- block that it makes of it, the entry points of lib.rs, and the write to the terminal of tty.rs.
pub mod Context
pub mod Lookup
pub mod Block
pub mod Preview
pub mod Readable
pub mod Shown
pub mod Values
pub mod Display
pub mod Disclosure
pub mod Whole
pub mod Emphasis
pub mod Tty
pub mod Plugin
pub mod Open
pub mod Calls
pub mod Delivery
pub mod Export
