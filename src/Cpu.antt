-- ===== src/Cpu.antt =====
-- tools/kagu_boot/src/cpu.cpp and cpu.hpp: the processor. The children follow the sections of the
-- source file; the proofs stand in their children.
pub mod Machine
pub mod Float
pub mod Arithmetic
pub mod Debugger
pub mod Strings
pub mod System
pub mod Execute
pub mod Control
pub mod Step
pub mod Reset
pub mod Tests
