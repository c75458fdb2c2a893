-- ===== src/View.antt =====
-- How memos are laid out and coloured.
pub mod Masonry
pub mod Theme
pub mod Calendar
pub mod TagTree
pub mod Settings
pub mod Locale
mod Tests
