-- ===== src/Nop.antt =====
-- The device side of the NOP protocol, components/nop/.
pub mod Json
pub mod Map
pub mod Router
pub mod Event
pub mod Ring
pub mod Record
pub mod Recorded
pub mod Patrol
pub mod Chime
pub mod Capability
mod Tests
