-- ===== src/Tests.antt =====
-- Runs at concrete inputs: programs, tables and kernels on which the theorems apply.
mod Interp
mod Filters
pub mod Worlds
