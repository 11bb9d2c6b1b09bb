-- ===== src/Asm.antt =====
-- tools/kagu_asm/src: the assembler. Tables and Symbols are symbols.cpp, Lexer is lexer.cpp, and the
-- other children follow the parts of compiler.cpp.
pub mod Tables
pub mod Symbols
pub mod Patterns
pub mod Lexer
pub mod State
pub mod Words
pub mod Lines
pub mod Layout
pub mod Emit
pub mod Compile
pub mod Main
pub mod Tests
