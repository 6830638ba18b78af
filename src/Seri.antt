-- ===== src/Seri.antt =====
-- src/lua-seri.c: Lua values as bytes.
pub mod Bytes
pub mod Block
pub mod Value
pub mod Scalar
pub mod Result
pub mod Refs
pub mod Pack
pub mod Stream
pub mod Unpack
pub mod Encode
pub mod Decode
pub mod RoundTrip
pub mod Total
pub mod Tree
pub mod Integer
mod Tests
