-- ===== src/Disk.antt =====
-- tools/kagu_boot/src/disk.cpp: a disk is a text file, and a block is one of its lines. The first
-- line holds the number of blocks.
pub mod Blocks
use kagu_os.Prelude.{
  ℕ, zero, suc, ◌-◌, Bool, true, false, ◌||◌, Option, none, some, List, [], ◌∷◌, ◌++◌,
  if◌then◌else◌, get_elem?, set, pad, ℤ, pos_part, ltb_ℤ, leb_ℤ, pos, negsuc,
}
use kagu_os.Std.Text.{Bytes, codes}
use kagu_os.Std.Fault.{Result, ok, fail, ◌>>=◌}
use kagu_os.Std.Number.{stoi}
use kagu_os.Std.Files.{Files, lines, unlines, replace_file}

pub record Disk : Type 0 where
  pub hw_dir : Bytes

-- `hwDir_ + "/" + diskName`
unfoldable pub disk_path : Disk → Bytes → Bytes
disk_path d name = d.hw_dir ++ codes "/" ++ name

-- The line of a block, which is read by so many calls of `getline`; none for a number below 1.
unfoldable pub block_line : ℤ → List Bytes → Option Bytes
block_line (pos zero) ls = none
block_line (pos (suc n)) ls = get_elem? ls n
block_line (negsuc n) ls = none

unfoldable pub read_lines : ℤ → List Bytes → Result (Option Bytes)
unfolding block_line
read_lines n [] = ok none
read_lines n (header ∷ ls) =
    if ltb_ℤ n (pos 1)
    then ok none
    else do count ← stoi header; ok (if ltb_ℤ count n then none else block_line n (header ∷ ls))

unfoldable pub read_content : ℤ → Option Bytes → Result (Option Bytes)
unfolding read_lines
read_content n none = ok none
read_content n (some text) = read_lines n (lines text)

-- `readBlock`
unfoldable pub read_block : Disk → Bytes → ℤ → Files → Result (Option Bytes)
unfolding read_content
read_block d name n fs = elim (fs.content (disk_path d name)) [
  | none ↦ ok none
  | some text ↦ read_lines n (lines text)
]

-- The lines with one of them replaced, and with empty lines added up to it where it lies behind.
unfoldable pub set_line : ℕ → Bytes → List Bytes → List Bytes
set_line n text ls = set (pad ls (suc n) []) n text

-- The lines that a write leaves; `none` is a write that is refused.
unfoldable pub write_lines : ℤ → Bytes → List Bytes → Result (Option (List Bytes))
unfolding set_line
write_lines n text [] = ok none
write_lines n text (header ∷ ls) = do
  count ← stoi header
  ok (
      if ltb_ℤ n (pos 2) || leb_ℤ count n
      then none
      else some (set_line (pos_part n - 1) text (header ∷ ls)))

abbrev save : Bytes → Option (List Bytes) → Files → Bool × Files
save path none fs = (false, fs)
save path (some ls) fs =
    if fs.writable path then (true, replace_file path (unlines ls) fs) else (false, fs)

unfoldable pub write_content : Bytes → ℤ → Bytes → Option Bytes → Files → Result (Bool × Files)
unfolding write_lines
write_content path n text none fs = ok (false, fs)
write_content path n text (some old) fs = do
  written ← write_lines n text (lines old)
  ok (save path written fs)

-- `writeBlock`: whether the block was written, and the files afterwards
unfoldable pub write_block : Disk → Bytes → ℤ → Bytes → Files → Result (Bool × Files)
unfolding write_content
write_block d name n text fs =
    write_content (disk_path d name) n text (fs.content (disk_path d name)) fs

-- `getBlockCount`: 0 where there is no disk. The number is read twice; only the second reading is
-- inside the `try`, so a first line that is no number is thrown out of the function.
unfoldable pub get_block_count : Disk → Bytes → Files → Result ℤ
unfolding read_block
get_block_count d name fs = do
  result ← read_block d name (pos 1) fs
  ok (elim result [ none ↦ pos 0 | some line ↦ elim (stoi line) [ fail e ↦ pos 0 | ok n ↦ n ] ])

unfoldable pub exists : Disk → Bytes → Files → Bool
unfolding disk_path
exists d name fs = elim (fs.content (disk_path d name)) [ none ↦ false | some text ↦ true ]

unfoldable pub set_hardware_dir : Bytes → Disk → Disk
set_hardware_dir path d = record d { hw_dir = path }
