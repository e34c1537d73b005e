-- ===== src/Instructions/Safety.antt =====
-- Proofs about single instructions (lib/zvmone/instructions.hpp, instructions_storage.cpp and
-- instructions_calls.cpp): their stack heights, gas, memory accesses and early returns.
pub mod Done
pub mod Words
pub mod Environment
pub mod Buffers
pub mod Storage
pub mod Calls
pub mod Creations
pub mod Flow
pub mod Conforming
pub mod Table
