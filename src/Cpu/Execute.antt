-- ===== src/Cpu/Execute.antt =====
-- The operations of `executeCpuExec` of cpu.cpp that use the devices, and its switch over all of them.
pub mod Confined
use kagu_os.Prelude.{
  ℕ, zero, suc, Bool, true, false, ◌||◌, not, Option, none, some, List, [], ◌∷◌, ◌++◌,
  if◌then◌else◌, length, ℤ, pos_part, ◌+ℤ◌, ltb_ℤ, pos,
}
use kagu_os.Std.Text.{Bytes, codes, beq, is_empty}
use kagu_os.Std.Fault.{Result, ok, fail, cpu_exception, length_error}
use kagu_os.Std.Number.{stoi, to_string, int_add, int_sub}
use kagu_os.Std.Files.{Files}
use kagu_os.Kagu.Registers.{
  reg_c, reg_d, reg_res, reg_bool_res, reg_error, keyboard_buffer, display_buffer, display_color,
  display_background, sys_energy,
}
use kagu_os.Kagu.Opcodes.{Operation}
use kagu_os.Cpu.Float.{FloatOps}
use kagu_os.Cpu.Machine.{
  Machine, Exec, ◌>>=◌, ◌>>◌, pure, raise, lift, gets, modify, of_ram, on_display, read_reg,
  write_reg, read_direct, write_direct, dump,
}
use kagu_os.Cpu.Arithmetic.{
  Outcome, value, reported, add_text, sub_text, mul_text, incr_text, decr_text, div_text, mod_text,
  cmp_lt_text, cmp_le_text, is_num,
}
use kagu_os.Cpu.Strings.{
  contains_text, starts_with_text, get_column_text, replace_column_text, concat_with_text,
}
use kagu_os.Cpu.System.{exec_sys_call, exec_sys_return}
use kagu_os.Cpu.Debugger.{notify_debugger}
use kagu_os.Kagu.Opcodes
use kagu_os.Ram
use kagu_os.Disk
use kagu_os.Display
use kagu_os.Keyboard

-- A result in the result register, in the error register, or as a truth value.
abbrev pub put_res : Bytes → Exec (Unit {0})
put_res = write_reg reg_res

abbrev pub put_outcome : Outcome → Exec (Unit {0})
put_outcome (value v) = write_reg reg_res v
put_outcome (reported e) = write_reg reg_error e

abbrev pub put_bool : Bool → Exec (Unit {0})
put_bool b = write_reg reg_bool_res (if b then codes "1" else codes "0")

abbrev pub put_found : Option Bytes → Exec (Unit {0})
put_found none = do write_reg reg_bool_res (codes "0"); write_reg reg_res []
put_found (some rest) = do write_reg reg_bool_res (codes "1"); write_reg reg_res rest

-- `execContains` writes its two results in the other order.
abbrev pub put_position : Option ℕ → Exec (Unit {0})
put_position none = do write_reg reg_res []; write_reg reg_bool_res (codes "0")
put_position (some n) = do write_reg reg_res (to_string (pos n)); write_reg reg_bool_res (codes "1")

abbrev pub stop : Exec (Unit {0})
stop = modify (λ m. record m { running = false })

abbrev keyboard_input : Bytes → Exec Bytes
keyboard_input mode m =
    let (input, shown, keyboard) = Keyboard.read_input mode m.keyboard in
    (ok input, record m { keyboard = keyboard; display = Display.emit shown m.display })

-- `execReadInput`: the end of the input stops the processor.
unfoldable pub exec_read_input : Exec (Unit {0})
exec_read_input = do
  mode ← read_reg keyboard_buffer
  input ← keyboard_input mode
  eof ← gets (λ m. m.keyboard.eof_reached)
  if eof then stop else write_reg keyboard_buffer input

unfoldable pub exec_display : Bool → Exec (Unit {0})
exec_display newline = do
  buffer ← read_reg display_buffer
  color ← read_reg display_color
  on_display (Display.print_with_color_str buffer color newline)

abbrev put_block : Option Bytes → Exec (Unit {0})
put_block none = write_reg reg_error (codes "Failed to read block")
put_block (some block) = write_reg reg_res block

unfoldable pub exec_read_block : Bytes → Bytes → Exec (Unit {0})
exec_read_block name number = do
  n ← lift (stoi number)
  block ← (λ m. (Disk.read_block m.disk name n m.files, m))
  put_block block

abbrev settle_files : Machine → Result (Bool × Files) → Result Bool × Machine
settle_files m (ok (written, files)) = (ok written, record m { files = files })
settle_files m (fail e) = (fail e, m)

unfoldable pub exec_write_block : Bytes → Bytes → Bytes → Exec (Unit {0})
exec_write_block name number text = do
  n ← lift (stoi number)
  written ← (λ m. settle_files m (Disk.write_block m.disk name n text m.files))
  if written then pure tt else write_reg reg_error (codes "Failed to write block")

abbrev background : Bytes → Exec Bytes
background color m =
    let (code, display) = Display.set_background_str color m.display in
    (ok code, record m { display = display })

unfoldable pub exec_set_background : Bytes → Exec (Unit {0})
exec_set_background color = do
  code ← background color
  write_reg display_background code
  on_display Display.clear

-- The rows of a bitmap: the cells from an address on, so many of them.
unfoldable pub read_cells : ℕ → ℤ → Exec (List Bytes)
read_cells zero addr = pure []
read_cells (suc n) addr = do
  cell ← of_ram (Ram.read addr)
  rest ← read_cells n (addr +ℤ pos 1)
  pure (cell ∷ rest)

abbrev coordinate : Bytes → Result ℤ
coordinate s = if is_empty s || beq s (codes "0") then ok (pos 0) else stoi s

abbrev settle_display : Machine → Result Display.Display → Result (Unit {0}) × Machine
settle_display m (ok d) = (ok tt, record m { display = Display.render (pos 0) (pos 0) d })
settle_display m (fail e) = (fail e, m)

-- `execRenderBitmap` with `Display::renderBitmap`, whose `reserve` refuses a negative length.
unfoldable pub exec_render_bitmap : Bytes → Bytes → Exec (Unit {0})
unfolding read_cells
exec_render_bitmap start_text end_text = do
  start ← lift (stoi start_text)
  end ← lift (stoi end_text)
  x_text ← read_reg reg_c
  y_text ← read_reg reg_d
  x ← lift (coordinate x_text)
  y ← lift (coordinate y_text)
  len ← lift (int_sub end start)
  if ltb_ℤ len (pos 0) then raise length_error else pure tt
  rows ← read_cells (pos_part len) start
  λ m. settle_display m (Display.draw_bitmap x y rows m.display)

unfoldable pub halt : Exec (Unit {0})
halt = do
  on_display (Display.info (codes "CPU halted."))
  kernel ← gets (λ m. m.ram.kernel_mode)
  dump kernel false
  notify_debugger
  stop

-- `REG_SYS_ENERGY` grows by the cost of the operation.
unfoldable pub add_energy : ℕ → Exec (Unit {0})
add_energy cost = do
  text ← read_direct sys_energy
  current ← lift (if is_empty text then ok (pos 0) else stoi text)
  total ← lift (int_add current (pos cost))
  write_direct sys_energy (to_string total)

abbrev pub unknown_operation : ℤ → Exec (Unit {0})
unknown_operation code = raise (cpu_exception (codes "Unknown operation: " ++ to_string code))

-- The operands of an operation, as they stood when it began.
pub record Operands : Type 0 where
  pub a : Bytes
  pub b : Bytes
  pub c : Bytes
  pub d : Bytes
  pub saved_res : Bytes
  pub saved_err : Bytes

module _ (float : FloatOps) where
  open float use {Double, stod}

  -- `execNop`: how long the processor sleeps is not modelled, only that the text must be a number.
  unfoldable pub exec_nop : Bytes → Exec (Unit {0})
  exec_nop a = if is_empty a then pure tt else (do s ← lift (stod a); pure tt)

  -- The switch of `executeCpuExec`.
  unfoldable pub execute_operation : ℤ → Option Operation → Operands → Exec (Unit {0})
  execute_operation code (some Opcodes.add) o = do v ← lift (add_text float o.a o.b); put_res v
  execute_operation code (some Opcodes.sub) o = do v ← lift (sub_text float o.a o.b); put_res v
  execute_operation code (some Opcodes.incr) o = do v ← lift (incr_text float o.a); put_res v
  execute_operation code (some Opcodes.decr) o = do v ← lift (decr_text float o.a); put_res v
  execute_operation code (some Opcodes.div) o = do v ← lift (div_text float o.a o.b); put_outcome v
  execute_operation code (some Opcodes.modulo) o = do v ← lift (mod_text o.a o.b); put_outcome v
  execute_operation code (some Opcodes.mul) o = do v ← lift (mul_text float o.a o.b); put_res v
  execute_operation code (some Opcodes.is_num) o = put_bool (is_num o.a)
  execute_operation code (some Opcodes.cmp_eq) o = put_bool (beq o.a o.b)
  execute_operation code (some Opcodes.cmp_neq) o = put_bool (not (beq o.a o.b))
  execute_operation code (some Opcodes.cmp_lt) o = do
    v ← lift (cmp_lt_text float o.a o.b)
    put_bool v
  execute_operation code (some Opcodes.cmp_le) o = do
    v ← lift (cmp_le_text float o.a o.b)
    put_bool v
  execute_operation code (some Opcodes.contains) o = put_position (contains_text o.a o.b)
  execute_operation code (some Opcodes.get_length) o = put_res (to_string (pos (length o.a)))
  execute_operation code (some Opcodes.starts_with) o = put_found (starts_with_text o.a o.b)
  execute_operation code (some Opcodes.get_column) o = do
    column ← lift (stoi o.b)
    put_res (get_column_text o.a column o.c)
  execute_operation code (some Opcodes.replace_column) o = do
    column ← lift (stoi o.b)
    put_res (replace_column_text o.a column o.c o.d)
  execute_operation code (some Opcodes.concat_with) o = put_res (concat_with_text o.a o.b o.c)
  execute_operation code (some Opcodes.read_input) o = exec_read_input
  execute_operation code (some Opcodes.display) o = exec_display false
  execute_operation code (some Opcodes.display_ln) o = exec_display true
  execute_operation code (some Opcodes.read_block) o = exec_read_block o.a o.b
  execute_operation code (some Opcodes.write_block) o = exec_write_block o.a o.b o.c
  execute_operation code (some Opcodes.set_background_color) o = exec_set_background o.a
  execute_operation code (some Opcodes.render_bitmap) o = exec_render_bitmap o.a o.b
  execute_operation code (some Opcodes.sys_call) o = exec_sys_call
  execute_operation code (some Opcodes.sys_return) o = exec_sys_return o.saved_res o.saved_err
  execute_operation code (some Opcodes.encrypt_data) o = put_res o.a
  execute_operation code (some Opcodes.decrypt_data) o = put_res o.a
  execute_operation code (some Opcodes.nop) o = exec_nop o.a
  execute_operation code (some Opcodes.halt) o = halt
  execute_operation code (some Opcodes.unknown) o = unknown_operation code
  execute_operation code none o = unknown_operation code
