-- ===== src/Asm/Tables.antt =====
-- The tables of symbols.cpp: the names of the assembler's symbols with what they stand for. A map
-- built from a table by `emplace` keeps the first entry of a name, which `lookup` finds in the table.
use kagu_os.Std.Text.{Bytes, codes}
use kagu_os.Prelude.{List, [], ◌∷◌}
use kagu_os.Kagu.Registers.{Address}
use kagu_os.Kagu.Opcodes.{Operation}
use kagu_os.Kagu.SysCalls.{SysCall}
use kagu_os.Kagu.Colors.{Color}
use kagu_os.Kagu.Keyboard.{KeyboardMode}
use kagu_os.Kagu.Registers
use kagu_os.Kagu.Opcodes
use kagu_os.Kagu.SysCalls
use kagu_os.Kagu.Colors
use kagu_os.Kagu.Keyboard

-- `ADDRESS_TABLE`; `UserSpaceEnd` is the number of `LastKey`.
abbrev pub address_table : List (Bytes × Address)
address_table =
    (codes "REG_OP", Registers.reg_op)
    ∷ (codes "REG_A", Registers.reg_a)
    ∷ (codes "REG_B", Registers.reg_b)
    ∷ (codes "REG_C", Registers.reg_c)
    ∷ (codes "REG_D", Registers.reg_d)
    ∷ (codes "REG_E", Registers.reg_e)
    ∷ (codes "REG_F", Registers.reg_f)
    ∷ (codes "REG_RES", Registers.reg_res)
    ∷ (codes "REG_BOOL_RES", Registers.reg_bool_res)
    ∷ (codes "REG_ERROR", Registers.reg_error)
    ∷ (codes "REG_LAST_KEY", Registers.reg_last_key)
    ∷ (codes "REG_USER_SPACE_REGS_END", Registers.reg_last_key)
    ∷ (codes "SYS_ENERGY", Registers.sys_energy)
    ∷ (codes "DISPLAY_BUFFER", Registers.display_buffer)
    ∷ (codes "DISPLAY_COLOR", Registers.display_color)
    ∷ (codes "DISPLAY_BACKGROUND", Registers.display_background)
    ∷ (codes "KEYBOARD_BUFFER", Registers.keyboard_buffer)
    ∷ (codes "PROGRAM_COUNTER", Registers.program_counter)
    ∷ (codes "FREE_MEMORY_START", Registers.free_memory_start)
    ∷ (codes "FREE_MEMORY_END", Registers.free_memory_end)
    ∷ (codes "FREE_CHUNKS", Registers.free_chunks)
    ∷ (codes "REG_PROC_START_ADDRESS", Registers.proc_start_address)
    ∷ (codes "REG_PROC_END_ADDRESS", Registers.proc_end_address)
    ∷ (codes "REG_SYS_CALL_HANDLER", Registers.sys_call_handler)
    ∷ (codes "REG_SYS_RET_ADDRESS", Registers.sys_ret_address)
    ∷ (codes "REG_SYS_INTERRUPT_HANDLER", Registers.sys_interrupt_handler)
    ∷ (codes "REG_SYS_INTERRUPT_DATA", Registers.sys_interrupt_data)
    ∷ (codes "REG_SYS_HW_TIMER", Registers.sys_hw_timer)
    ∷ (codes "KERNEL_START", Registers.kernel_start)
    ∷ []

-- `OPERATION_TABLE`
abbrev pub operation_table : List (Bytes × Operation)
operation_table =
    (codes "OP_ADD", Opcodes.add)
    ∷ (codes "OP_SUB", Opcodes.sub)
    ∷ (codes "OP_INCR", Opcodes.incr)
    ∷ (codes "OP_DECR", Opcodes.decr)
    ∷ (codes "OP_DIV", Opcodes.div)
    ∷ (codes "OP_MOD", Opcodes.modulo)
    ∷ (codes "OP_MUL", Opcodes.mul)
    ∷ (codes "OP_IS_NUM", Opcodes.is_num)
    ∷ (codes "OP_CMP_EQ", Opcodes.cmp_eq)
    ∷ (codes "OP_CMP_NEQ", Opcodes.cmp_neq)
    ∷ (codes "OP_CMP_LT", Opcodes.cmp_lt)
    ∷ (codes "OP_CMP_LE", Opcodes.cmp_le)
    ∷ (codes "OP_CONTAINS", Opcodes.contains)
    ∷ (codes "OP_GET_LENGTH", Opcodes.get_length)
    ∷ (codes "OP_STARTS_WITH", Opcodes.starts_with)
    ∷ (codes "OP_GET_COLUMN", Opcodes.get_column)
    ∷ (codes "OP_REPLACE_COLUMN", Opcodes.replace_column)
    ∷ (codes "OP_CONCAT_WITH", Opcodes.concat_with)
    ∷ (codes "OP_READ_INPUT", Opcodes.read_input)
    ∷ (codes "OP_DISPLAY", Opcodes.display)
    ∷ (codes "OP_DISPLAY_LN", Opcodes.display_ln)
    ∷ (codes "OP_READ_BLOCK", Opcodes.read_block)
    ∷ (codes "OP_WRITE_BLOCK", Opcodes.write_block)
    ∷ (codes "OP_SET_BACKGROUND_COLOR", Opcodes.set_background_color)
    ∷ (codes "OP_RENDER_BITMAP", Opcodes.render_bitmap)
    ∷ (codes "OP_SYS_CALL", Opcodes.sys_call)
    ∷ (codes "OP_SYS_RETURN", Opcodes.sys_return)
    ∷ (codes "OP_ENCRYPT_DATA", Opcodes.encrypt_data)
    ∷ (codes "OP_DECRYPT_DATA", Opcodes.decrypt_data)
    ∷ (codes "OP_NOP", Opcodes.nop)
    ∷ (codes "OP_HALT", Opcodes.halt)
    ∷ (codes "OP_UNKNOWN", Opcodes.unknown)
    ∷ []

-- `SYSCALL_TABLE`
abbrev pub sys_call_table : List (Bytes × SysCall)
sys_call_table =
    (codes "SYS_CALL_EXIT", SysCalls.exit)
    ∷ (codes "SYS_CALL_PRINTLN", SysCalls.print_ln)
    ∷ (codes "SYS_CALL_PRINT", SysCalls.print)
    ∷ (codes "SYS_CALL_READ_INPUT", SysCalls.read_input)
    ∷ (codes "SYS_CALL_OPEN", SysCalls.open_file)
    ∷ (codes "SYS_CALL_DESCRIPTOR_INFO", SysCalls.descriptor_info)
    ∷ (codes "SYS_CALL_CLOSE", SysCalls.close)
    ∷ (codes "SYS_CALL_READ", SysCalls.read)
    ∷ (codes "SYS_CALL_WRITE", SysCalls.write)
    ∷ (codes "SYS_CALL_SET_BACKGROUND", SysCalls.set_background)
    ∷ (codes "SYS_CALL_RENDER_BITMAP", SysCalls.render_bitmap)
    ∷ (codes "SYS_CALL_SLEEP", SysCalls.sleep)
    ∷ (codes "SYS_CALL_GET_FILE_ATTR", SysCalls.get_file_attr)
    ∷ (codes "SYS_CALL_SET_FILE_ATTR", SysCalls.set_file_attr)
    ∷ (codes "SYS_CALL_SCHED_PROGRAM", SysCalls.sched_program)
    ∷ (codes "SYS_CALL_IS_PROCESS_ACTIVE", SysCalls.is_process_active)
    ∷ (codes "SYS_CALL_KILL_PROCESS", SysCalls.kill_process)
    ∷ (codes "SYS_CALL_SKIP_SCHED", SysCalls.skip_sched)
    ∷ (codes "SYS_CALL_WAIT_SCHED", SysCalls.wait_sched)
    ∷ []

-- `COLOR_TABLE`
abbrev pub color_table : List (Bytes × Color)
color_table =
    (codes "COLOR_NO", Colors.no_color)
    ∷ (codes "COLOR_GREEN", Colors.green)
    ∷ (codes "COLOR_YELLOW", Colors.yellow)
    ∷ (codes "COLOR_RED", Colors.red)
    ∷ (codes "COLOR_BLACK", Colors.black)
    ∷ (codes "COLOR_BLUE", Colors.blue)
    ∷ (codes "COLOR_MAGENTA", Colors.magenta)
    ∷ (codes "COLOR_CYAN", Colors.cyan)
    ∷ (codes "COLOR_WHITE", Colors.white)
    ∷ (codes "COLOR_PINK", Colors.pink)
    ∷ []

-- An entry of `KEYBOARD_MODE_TABLE`: the value of a mode and the mode.
pub record ModeEntry : Type 0 where
  pub value : Bytes
  pub mode : KeyboardMode

-- `KEYBOARD_MODE_TABLE`
abbrev pub keyboard_mode_table : List (Bytes × ModeEntry)
keyboard_mode_table =
    (
      codes "KEYBOARD_READ_LINE",
      record { value = codes "KeyboardReadLine"; mode = Keyboard.read_line },
    )
    ∷ (
      codes "KEYBOARD_READ_LINE_SILENTLY",
      record { value = codes "KeyboardReadLineSilently"; mode = Keyboard.read_line_silently },
    )
    ∷ (
      codes "KEYBOARD_READ_CHAR",
      record { value = codes "KeyboardReadChar"; mode = Keyboard.read_char },
    )
    ∷ (
      codes "KEYBOARD_READ_CHAR_SILENTLY",
      record { value = codes "KeyboardReadCharSilently"; mode = Keyboard.read_char_silently },
    )
    ∷ []
