-- ===== src/Ram.antt =====
-- tools/kagu_boot/src/ram.cpp: the memory, an array of texts addressed from 1, with two access modes.
-- An operation that may throw returns a `Result`; one that writes returns the new memory.
-- A subscript of `data_` that no check of the code bounds is undefined outside the vector. The
-- numbers of the registers lie inside it, since the constructor wants at least 100 cells.
pub mod Direct
pub mod Locate
pub mod Cells
pub mod ReadWrite
pub mod Isolation
pub mod Dump
use kagu_os.Prelude.{
  ℕ, zero, suc, ◌+◌, Bool, true, ◌&&◌, ◌||◌, not, Option, none, some, ◌++◌, update, ltb, leb,
  if◌then◌else◌, ℤ, ltb_ℤ, pos, negsuc,
}
use kagu_os.Std.Text.{Bytes, codes, beq, is_empty}
use kagu_os.Std.Fault.{
  Result, ok, fail, ram_violation, invalid_argument, length_error, undefined, ◌>>=◌, ◌>>◌,
}
use kagu_os.Std.Number.{fits_int, int_add, to_string, stoi}
use kagu_os.Kagu.Registers.{
  Address, address, proc_start_address, proc_end_address, user_space_end, min_ram_size,
}

pub record Ram : Type 0 where
  pub cells : ℕ → Bytes
  pub size : ℕ
  pub kernel_mode : Bool

-- `RAM::RAM`: the vector of `size + 1` texts is made before the size is checked.
unfoldable pub new : ℤ → Result Ram
new (pos n) =
    if not (fits_int (pos (n + 1)))
    then fail undefined
    else if ltb n min_ram_size
    then fail invalid_argument
    else ok (record { cells = λ i. codes "0"; size = n; kernel_mode = true })
new (negsuc zero) = fail invalid_argument
new (negsuc (suc n)) = fail length_error

-- A write to a cell of the vector.
abbrev pub store : ℕ → Bytes → Ram → Ram
store i v ram = record ram { cells = update ram.cells i v }

-- Whether an address passes `addr < 1 || addr > size_`, with the index that it is.
abbrev pub cell_of : ℤ → ℕ → Option ℕ
cell_of (pos zero) size = none
cell_of (pos (suc n)) size = if ltb size (suc n) then none else some (suc n)
cell_of (negsuc n) size = none

-- A register of the user space: `addr >= 1 && addr <= UserSpaceEnd`.
abbrev pub user_register : ℤ → Option ℕ
user_register (pos zero) = none
user_register (pos (suc n)) = if leb (suc n) user_space_end then some (suc n) else none
user_register (negsuc n) = none

-- A subscript of `data_` with no check.
abbrev pub subscript : ℤ → ℕ → Result ℕ
subscript (pos n) size = if leb n size then ok n else fail undefined
subscript (negsuc n) size = fail undefined

-- The kinds of access that the messages of a violation name.
pub data AccessKind : Type 0 where
  reading writing : AccessKind

access_word : AccessKind → Bytes
access_word reading = codes "read"
access_word writing = codes "write"

unfoldable pub privileged_message : AccessKind → ℤ → Bytes
unfolding access_word
privileged_message kind addr =
    codes "User mode "
    ++ access_word kind
    ++ codes " access to privileged register: "
    ++ to_string addr

unfoldable pub invalid_message : AccessKind → ℤ → Bytes
invalid_message reading addr = codes "Read access to invalid address: " ++ to_string addr
invalid_message writing addr = codes "Write access to invalid address: " ++ to_string addr

unfoldable pub violation_message : AccessKind → ℤ → ℤ → Bytes
unfolding access_word
violation_message kind addr translated =
    codes "User mode "
    ++ access_word kind
    ++ codes " access violation at address: "
    ++ to_string addr
    ++ codes " (translated: "
    ++ to_string translated
    ++ codes ")"

unfoldable pub direct_message : ℤ → Bytes
direct_message addr = codes "Direct access to invalid address: " ++ to_string addr

-- A register that user mode may not name.
abbrev pub is_barred : Address → Ram → Bool
is_barred r ram = not ram.kernel_mode && ltb user_space_end (address r)

abbrev pub barred {ℓ} : {A : Type ℓ} → AccessKind → Address → Result A
barred kind r = fail (ram_violation (privileged_message kind (pos (address r))) (pos (address r)))

-- `readRegister`
unfoldable pub read_register : Address → Ram → Result Bytes
read_register r ram = if is_barred r ram then barred reading r else ok (ram.cells (address r))

-- `writeRegister`, both overloads
unfoldable pub write_register : Address → Bytes → Ram → Result Ram
write_register r v ram = if is_barred r ram then barred writing r else ok (store (address r) v ram)

-- `getProcessStart` and `getProcessEnd`: 0 where the register holds no number.
unfoldable pub process_bound : Bytes → ℤ
process_bound val =
    if is_empty val || beq val (codes "0")
    then pos 0
    else elim (stoi val) [ ok z ↦ z | fail e ↦ pos 0 ]

unfoldable pub get_process_start : Ram → ℤ
get_process_start ram = process_bound (ram.cells (address proc_start_address))

unfoldable pub get_process_end : Ram → ℤ
get_process_end ram = process_bound (ram.cells (address proc_end_address))

-- The cell that an access in user mode reaches behind the registers: the address is moved by the
-- start of the process, and compared with its end.
unfoldable pub translate : AccessKind → ℤ → Ram → Result ℕ
unfolding get_process_start get_process_end
translate kind addr ram = do
  translated ← int_add addr (get_process_start ram)
  if ltb_ℤ (get_process_end ram) translated
      then fail (ram_violation (violation_message kind addr translated) addr)
      else subscript translated ram.size

-- The cell that an access in either mode reaches.
unfoldable pub locate : AccessKind → ℤ → Ram → Result ℕ
unfolding translate
locate kind addr ram =
    if ram.kernel_mode
    then elim (cell_of addr ram.size) [
      | none ↦ fail (ram_violation (invalid_message kind addr) addr)
      | some n ↦ ok n
    ]
    else elim (user_register addr) [ none ↦ translate kind addr ram | some n ↦ ok n ]

-- `read(RamAddress)`
unfoldable pub read : ℤ → Ram → Result Bytes
unfolding locate
read addr ram = do n ← locate reading addr ram; ok (ram.cells n)

-- `write(RamAddress, …)`, both overloads
unfoldable pub write : ℤ → Bytes → Ram → Result Ram
unfolding locate
write addr v ram = do n ← locate writing addr ram; ok (store n v ram)

-- `read(const std::string&)`
unfoldable pub read_text : Bytes → Ram → Result Bytes
unfolding read
read_text s ram = do addr ← stoi s; read addr ram

-- `write(const std::string&, …)`
unfoldable pub write_text : Bytes → Bytes → Ram → Result Ram
unfolding write
write_text s v ram = do addr ← stoi s; write addr v ram

abbrev pub invalid_direct : ℤ → Result ℕ
invalid_direct addr = fail (ram_violation (direct_message addr) addr)

-- `directAccess`: the cell, in either mode
unfoldable pub direct_cell : ℤ → Ram → Result ℕ
direct_cell addr ram = elim (cell_of addr ram.size) [ none ↦ invalid_direct addr | some n ↦ ok n ]

-- The reference of `directAccess` read, and assigned to.
unfoldable pub direct_read : ℤ → Ram → Result Bytes
unfolding direct_cell
direct_read addr ram = do n ← direct_cell addr ram; ok (ram.cells n)

unfoldable pub direct_write : ℤ → Bytes → Ram → Result Ram
unfolding direct_cell
direct_write addr v ram = do n ← direct_cell addr ram; ok (store n v ram)

unfoldable pub set_kernel_mode : Bool → Ram → Ram
set_kernel_mode kernel ram = record ram { kernel_mode = kernel }
