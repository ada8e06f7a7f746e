-- ===== src/Streaming.antt =====
-- The live streams of the channels, components/streaming/.
pub mod Nal
pub mod Router
pub mod Manager
mod Tests
