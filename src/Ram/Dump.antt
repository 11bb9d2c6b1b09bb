-- ===== src/Ram/Dump.antt =====
-- `dumpToFile` of ram.cpp: the memory as the lines of a file.
use kagu_os.Prelude.{
  ℕ, zero, suc, ◌+◌, ◌-◌, Bool, Option, none, some, List, [], ◌∷◌, ◌++◌, if◌then◌else◌, length,
  replicate, pos,
}
use kagu_os.Std.Text.{Bytes, codes}
use kagu_os.Std.Files.{Files, unlines, replace_file}
use kagu_os.Kagu.Registers.{get_register_name, user_space_end, address, kernel_start}
use kagu_os.Ram.{Ram}

-- `std::left` and `std::setw` for a text
unfoldable pub pad_right : ℕ → Bytes → Bytes
pad_right n s = s ++ replicate (n - length s) b' '

abbrev or_default : Bytes → Option Bytes → Bytes
or_default s none = s
or_default s (some name) = name

-- The line of a register, with this name where it has none.
unfoldable pub register_line : Bytes → ℕ → Ram → Bytes
unfolding get_register_name pad_right
register_line other i ram =
    pad_right 22 (or_default other (get_register_name (pos i))) ++ (codes ": " ++ ram.cells i)

-- The lines for so many registers, and for so many cells, from one on.
unfoldable pub register_lines : Bytes → ℕ → ℕ → Ram → List Bytes
unfolding register_line
register_lines other zero i ram = []
register_lines other (suc n) i ram = register_line other i ram ∷ register_lines other n (i + 1) ram

unfoldable pub cell_lines : ℕ → ℕ → Ram → List Bytes
cell_lines zero i ram = []
cell_lines (suc n) i ram = ram.cells i ∷ cell_lines n (i + 1) ram

-- The lines of the dump of the user registers, or of all the memory.
unfoldable pub dump_lines : Bool → Ram → List Bytes
unfolding register_lines cell_lines
dump_lines user_only ram =
    if user_only
    then register_lines (codes "REG") user_space_end 1 ram
    else register_lines (codes "FIRMWARE") (address kernel_start - 1) 1 ram
      ++ cell_lines ((ram.size + 1) - address kernel_start) (address kernel_start) ram

-- `dumpToFile`: a file that cannot be opened is left alone.
unfoldable pub dump_to_file : Bytes → Bool → Ram → Files → Files
unfolding dump_lines
dump_to_file path user_only ram fs =
    if fs.writable path then replace_file path (unlines (dump_lines user_only ram)) fs else fs
