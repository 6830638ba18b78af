-- ===== src/Service.antt =====
-- src/service.c: services, their pool, and the parts of their life that the C code decides.
pub mod Types
pub mod Pool
pub mod Life
pub mod Send
pub mod Drain
pub mod Thread
pub mod Delete
pub mod Init
pub mod Start
pub mod Dispatch
mod Tests
