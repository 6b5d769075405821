-- ===== src/Sheet.antt =====
-- plugin/PromptFormatter.m, the text of the Touch ID sheet.
pub mod Units
pub mod Value
pub mod Rendered
pub mod Layout
pub mod Bounds
pub mod Reader
pub mod Lines
pub mod Fields
pub mod ReadBack
pub mod Granted
pub mod Shown
pub mod Told
