-- ===== src/Mac.antt =====
-- plugin/sudowhat_audit.m, the audit plugin on macOS.
pub mod Rows
pub mod Emphasis
pub mod Colored
pub mod Values
pub mod Open
pub mod Granted
pub mod Searched
pub mod Shows
pub mod Reader
pub mod Told
pub mod Agrees
pub mod Twin
pub mod Opened
pub mod Fallback
pub mod Tty
