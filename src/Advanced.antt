-- ===== src/Advanced.antt =====
-- The Advanced interpreter: lib/zvmone/advanced_analysis.cpp, lib/zvmone/advanced_instructions.cpp
-- and lib/zvmone/advanced_execution.cpp.
pub mod Table
pub mod Analysis
pub mod Execution
pub mod Blocks
pub mod Views
pub mod Safety
