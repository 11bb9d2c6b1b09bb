-- ===== src/Cpu/Reset.antt =====
-- `resetVector` of cpu.cpp up to its loop: the firmware is loaded.
use kagu_os.Prelude.{true, none, some, List, [], ◌∷◌, if◌then◌else◌, ℤ, ◌+ℤ◌, leb_ℤ, pos}
use kagu_os.Std.Text.{Bytes, codes}
use kagu_os.Std.Fault.{cpu_exception}
use kagu_os.Std.Number.{to_string}
use kagu_os.Std.Files.{lines}
use kagu_os.Kagu.Registers.{free_memory_end}
use kagu_os.Cpu.Machine.{Exec, ◌>>=◌, ◌>>◌, pure, raise, gets, modify, on_ram, write_direct}
use kagu_os.Ram

-- The lines of the firmware, from an address on.
unfoldable pub load_lines : ℤ → List Bytes → Exec (Unit {0})
load_lines addr [] = pure tt
load_lines addr (line ∷ rest) = do
  size ← gets (λ m. m.ram.size)
  if leb_ℤ (pos size) addr
      then raise (cpu_exception (codes "CRITICAL ERROR: Firmware image exceeds RAM size."))
      else pure tt
  on_ram (Ram.direct_write addr line)
  load_lines (addr +ℤ pos 1) rest

-- `resetVector` up to its loop.
unfoldable pub reset_vector : Bytes → Exec (Unit {0})
unfolding load_lines
reset_vector firmware m = elim (m.files.content firmware) [
  | none ↦ raise (cpu_exception (codes "CRITICAL ERROR: CPU firmware not found.")) m
  | some text ↦
      (do
        load_lines (pos 1) (lines text)
        write_direct free_memory_end (to_string (pos m.ram.size))
        modify (λ m. record m { running = true }))
        m
]
