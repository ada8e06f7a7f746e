-- ===== src/Nop/Record.antt =====
-- components/nop/src/services/svc_record.c with include/nop_sdk/nop_record.h: the SD recording engine.
-- The muxer of the video HAL is a parameter, with what it was told so far as its state: `log`, newest
-- first, which also keeps the files that were removed. The engine's lock makes each sink one step.
-- The two rings are Nop.Ring; memory that runs out and an `int` that overflows are left out.
mod Types
mod Segments
mod Preroll
mod Engine
unfoldable pub use Types.*
unfoldable pub use Segments.*
unfoldable pub use Preroll.*
unfoldable pub use Engine.*
