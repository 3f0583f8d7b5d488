-- ===== src/Disasm.antt =====
-- The disassembler (libs/v6core/src/disasm.cpp).
pub mod Cmd
pub mod I8080
pub mod Z80
pub mod Hex
pub mod Table
pub mod Agree
pub mod Print
pub mod Lines
pub mod Search
