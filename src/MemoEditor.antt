-- ===== src/MemoEditor.antt =====
-- The memo editor: its reducer, what may be saved, and saving and loading against the server
-- (memos/web/src/components/MemoEditor).
pub mod State
pub mod Reducer
pub mod Validation
pub mod Attachments
pub mod Service
pub mod Save
mod Tests
