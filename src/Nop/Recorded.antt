-- ===== src/Nop/Recorded.antt =====
-- What the recording engine of Nop.Record keeps true.
mod Muxer
mod Opening
mod Frames
mod Events
pub mod Runs
pub mod Window
mod Tests
