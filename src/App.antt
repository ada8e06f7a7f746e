-- ===== src/App.antt =====
-- The recorder application, app/: the channel table and what is built on it.
pub mod Channel
pub mod Preview
pub mod RecordSched
pub mod Event
mod Tests
