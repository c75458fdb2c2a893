-- ===== src/Markdown.antt =====
-- The markdown that the client reads and writes by itself: list items, tasks and tags.
pub mod Decimal
pub mod ListItem
pub mod TextArea
pub mod Shortcuts
pub mod Suggestions
pub mod Tasks
pub mod Tags
mod Tests
