-- ===== src/Lib.antt =====
-- KaguOS: kagu_boot, an emulator of a small computer, kagu_asm, an assembler for it, and the header
-- library libkagu that the two share. This library models all three.
--
-- The memory is an array of texts with addresses from 1; the registers are its first cells. The
-- processor fetches the text at the program counter, reads it as an instruction and runs one of the
-- operations on the registers. In kernel mode an address is a cell; in user mode the addresses
-- behind the registers are moved to the region of the running process. A system call, an error of a
-- process and the timer enter kernel mode; the operation SysReturn leaves it. Disk, display and
-- keyboard are devices that the operations of the kernel call.
--
-- The assembler reads sources line by line. Its first pass matches each line with the pattern of its
-- command and collects instructions, labels, variables and constants; the layout puts the constants
-- behind the instructions and the variables behind the constants; the second pass prints one line for
-- each address. A line of the image is a cell of the memory that the emulator runs.
--
-- The files, and the sources they model:
--   Kagu          tools/libkagu/include/kagu: Registers (registers.hpp, config.hpp), Opcodes
--                 (opcodes.hpp), Colors (colors.hpp), Keyboard (keyboard.hpp), SysCalls
--                 (syscalls.hpp)
--   Ram           tools/kagu_boot/src/ram.cpp: `locate` is the test and the translation that `read`
--                 and `write` share; `direct_read` and `direct_write` use what `directAccess` returns
--   Interrupt     tools/kagu_boot/src/interrupt_handler.cpp: `tick` is the countdown of `checkTimer`
--   Disk          tools/kagu_boot/src/disk.cpp: a disk is a file, a block is a line of it
--   Canvas        the struct `Canvas` of tools/kagu_boot/src/display.cpp, and the loops that draw
--   Display       the rest of display.cpp; both output streams are texts that grow
--   Keyboard      tools/kagu_boot/src/input.cpp over a given standard input
--   Cpu           tools/kagu_boot/src/cpu.cpp: Machine (state, program counter), Arithmetic and
--                 Strings (the operations on texts), System (system calls and timer), Execute (the
--                 other operations), Control (operands, copies and jumps), Step (decoding, errors,
--                 `step` and the loop of `resetVector`), Reset (the start of `resetVector`), Debugger
--                 (the calls of the debug server)
--   DebugServer   tools/kagu_boot/src/debug_server.cpp: Commands (`handleCommand`) and Pause
--                 (`checkBreakpoint`, `notifyHalted`); Protocol says what the commands mean
--   Boot          tools/kagu_boot/src/main_boot.cpp: the command line, the machine and the status
--   Asm           tools/kagu_asm/src: Tables and Symbols (symbols.cpp), Lexer (lexer.cpp), and of
--                 compiler.cpp Patterns (`matchPattern`), State (the symbol table and the errors),
--                 Words (`tokenizeLine` and the lexemes of a line), Lines (`processLine`, `pass1`),
--                 Layout (`calculateAddresses`), Emit (`evalLexeme` and the line of an instruction)
--                 and Compile (`pass2`, `writeSourceMap`, `compile`); Main is main_asm.cpp
--   Toolchain     the code that Asm prints, as Cpu decodes and runs it
--   Std           what the code uses of the C++ standard library: stoi, to_string, streams, files
--   Prelude       lists, integers and tests over the native numbers
--   Examples      the theorems at concrete machines and texts
--
-- The state is the record `Machine`, which holds the memory and the devices. An action takes a
-- machine and gives a result with the machine that is left, also where it throws: what was written
-- before an exception stays written. The faults are the two exceptions of the emulator, those of the
-- standard library, and `undefined` where C++ leaves the behaviour undefined, such as the overflow
-- of an `int`, a division by zero or a subscript outside a vector.
--
-- An action of the assembler takes the record `Compiler`, with its two output streams as texts, and
-- leaves a value and a state, or the state in which the program leaves behind the twenty-first error.
-- A map is a list of entries.
--
-- Bounds and fuel: an `int` has 32 bits, and a result that does not fit is `undefined`. The decimal
-- digits of n are made with n + 1 rounds, of which each divides by ten. Addresses and line numbers of
-- the assembler are natural numbers. The processor may run for ever, so `run` is given a number of
-- steps and stops earlier where the processor does. The loops of the debug server read at least one
-- character in each round, and are given one round more than the client has sent characters.
--
-- The debug server has one client, whose text up to where it hangs up is given; it takes what it is
-- sent. In a pause the server runs the commands of the client line by line on the memory.
--
-- Not modelled: floating-point numbers, which are the parameter `FloatOps`; the sockets of the debug
-- server, with the faults of listening and accepting; the time that the processor sleeps and the
-- terminal settings; the text of a fault that ends the emulator. A source that exists can be read,
-- and the directories of the image and of the dumps are there.
pub mod Prelude
pub mod Std
pub mod Kagu
pub mod Ram
pub mod Interrupt
pub mod Disk
pub mod Canvas
pub mod Display
pub mod Keyboard
pub mod Cpu
pub mod Asm
pub mod DebugServer
pub mod Boot
pub mod Toolchain
pub mod Examples
