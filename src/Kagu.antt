-- ===== src/Kagu.antt =====
-- tools/libkagu/include/kagu: the numbers that the emulator and the assembler share.
pub mod Registers
pub mod Opcodes
pub mod Colors
pub mod Keyboard
pub mod SysCalls
