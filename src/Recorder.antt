-- ===== src/Recorder.antt =====
-- The recorder of components/recorder: raw-disk recording without a file system. A disk holds a
-- superblock, a system table, a ring of index slots and a ring of fixed-size chunks of frames.
pub mod Types
pub mod Util
pub mod Layout
pub mod Device
pub mod Index
pub mod Aes
pub mod Crypto
pub mod Keys
pub mod Writer
pub mod Player
pub mod Group
pub mod Tests
