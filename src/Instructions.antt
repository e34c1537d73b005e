-- ===== src/Instructions.antt =====
-- The instructions of lib/zvmone/instructions.hpp, instructions_storage.cpp and
-- instructions_calls.cpp, by groups. One is a block of the calls of `Exec`.
pub mod Arithmetic
pub mod Bitwise
pub mod Environment
pub mod Buffers
pub mod Flow
pub mod Storage
pub mod Calls
pub mod Impl
pub mod Safety
pub mod Bytes
