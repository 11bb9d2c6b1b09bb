-- ===== src/Toolchain.antt =====
-- The code that the assembler prints, run by the processor: `pass2` of
-- tools/kagu_asm/src/compiler.cpp and `executeInstruction` of tools/kagu_boot/src/cpu.cpp.
pub mod Code
pub mod Printed
pub mod Instructions
pub mod Written
pub mod Assembled
