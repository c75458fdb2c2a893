-- ===== src/Filters.antt =====
-- The filters of the memo lists, and the lists' order.
pub mod Query
pub mod Condition
pub mod Stats
mod Tests
