-- ===== src/Binding.antt =====
-- src/lservice.c: the functions of the C core that Lua calls.
pub mod Api
pub mod Message
pub mod Service
pub mod Log
pub mod Seri
pub mod Open
mod Tests
