-- ===== src/Color.antt =====
-- The coloured command line of shared/escape_core/src/lib.rs: the palette, `RoleBase`, `paint` and
-- `render_command_line`.
pub mod Palette
pub mod Paint
pub mod Line
pub mod Terminal
pub mod Screen
pub mod Cells
pub mod Refine
pub mod Run
pub mod Span
pub mod LineCells
pub mod LineDraws
pub mod Strip
pub mod NoNul
pub mod Sound
pub use Palette.*
unfoldable pub use Paint.*
unfoldable pub use Line.*
