-- ===== src/Cpu.antt =====
-- `CpuI8080` (libs/v6core/include/core/cpu_i8080.h, libs/v6core/src/cpu_i8080.cpp): the machine of
-- registers, memory and ports, stepped by machine cycles.
pub mod State
pub mod Tables
pub mod Alu
pub mod Access
pub mod Moves
pub mod Arith
pub mod Control
pub mod Ops
pub mod Decode
pub mod Step
pub mod Valid
pub mod Reset
