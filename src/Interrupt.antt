-- ===== src/Interrupt.antt =====
-- tools/kagu_boot/src/interrupt_handler.cpp: the timer, the saved context of an interrupt and the
-- addresses of the handlers, all of them texts in registers of the memory.
pub mod Context
pub mod Timer
use kagu_os.Prelude.{
  Bool, true, false, ◌||◌, Option, none, some, [], ◌∷◌, ◌++◌, if◌then◌else◌, ℤ, ◌-ℤ◌, ltb_ℤ, leb_ℤ,
  eqb_ℤ, pos,
}
use kagu_os.Std.Text.{Bytes, codes, beq, is_empty}
use kagu_os.Std.Fault.{Result, ok, fail, ◌>>=◌}
use kagu_os.Std.Number.{to_string, stoi}
use kagu_os.Std.Stream.{read_stream_int}
use kagu_os.Kagu.Registers.{
  address, sys_hw_timer, sys_interrupt_data, sys_call_handler, sys_interrupt_handler,
}
use kagu_os.Ram.{Ram, direct_read, direct_write, set_kernel_mode}

-- `struct InterruptData`; the type is the number of an `InterruptType`, which is cast with no check.
pub record InterruptData : Type 0 where
  pub type : ℤ
  pub program_counter : ℤ
  pub ignore_result : Bool

abbrev pub software : ℤ
software = pos 0

abbrev pub timer : ℤ
timer = pos 1

-- `InterruptData::parse`: three extractions, each of which may fail.
unfoldable pub parse : Bytes → Option InterruptData
parse str = if is_empty str then none else elim (read_stream_int str) [
  | none ↦ none
  | some (type, s) ↦ elim (read_stream_int s) [
    | none ↦ none
    | some (pc, s') ↦ elim (read_stream_int s') [
      | none ↦ none
      | some (ignore, s'') ↦
          some (record { type = type; program_counter = pc; ignore_result = eqb_ℤ ignore (pos 1) })
    ]
  ]
]

-- `InterruptData::toString`
unfoldable pub data_to_string : InterruptData → Bytes
data_to_string d =
    to_string d.type
    ++ 32 ∷ (to_string d.program_counter ++ 32 ∷ (if d.ignore_result then codes "1" else codes "0"))

-- The handler's own state, beside the memory.
pub record Interrupts : Type 0 where
  pub timer_enabled : Bool

-- What a tick makes of a timer that holds the number `t`: whether it fires, and the new text.
unfoldable pub tick : ℤ → Bool × Option Bytes
tick t =
    if ltb_ℤ t (pos 0)
    then (false, none)
    else if eqb_ℤ t (pos 0)
    then (true, some (codes "-1"))
    else (false, some (to_string (t -ℤ pos 1)))

-- The text of the timer: nothing happens where it is empty or no number.
unfoldable pub tick_text : Bytes → Bool × Option Bytes
tick_text text =
    if is_empty text
    then (false, none)
    else elim (stoi text) [ fail e ↦ (false, none) | ok t ↦ tick t ]

abbrev settle : Bool × Option Bytes → Ram → Result (Bool × Ram)
settle (fired, none) ram = ok (fired, ram)
settle (fired, some text) ram = do
  ram' ← direct_write (pos (address sys_hw_timer)) text ram
  ok (fired, ram')

-- `checkTimer`
unfoldable pub check_timer : Ram → Result (Bool × Ram)
unfolding tick_text tick
check_timer ram =
    if ram.kernel_mode
    then ok (false, ram)
    else do text ← direct_read (pos (address sys_hw_timer)) ram; settle (tick_text text) ram

-- `setTimer`
unfoldable pub set_timer : ℤ → Interrupts → Ram → Result (Interrupts × Ram)
set_timer ticks it ram = do
  ram' ← direct_write (pos (address sys_hw_timer)) (to_string ticks) ram
  ok (record it { timer_enabled = leb_ℤ (pos 0) ticks }, ram')

unfoldable pub enable_timer : Bool → Interrupts → Interrupts
enable_timer enabled it = record it { timer_enabled = enabled }

unfoldable pub get_interrupt_data : Ram → Result (Option InterruptData)
get_interrupt_data ram = do
  text ← direct_read (pos (address sys_interrupt_data)) ram
  ok (parse text)

unfoldable pub set_interrupt_data : InterruptData → Ram → Result Ram
set_interrupt_data d ram = direct_write (pos (address sys_interrupt_data)) (data_to_string d) ram

unfoldable pub clear_interrupt_data : Ram → Result Ram
clear_interrupt_data ram = direct_write (pos (address sys_interrupt_data)) [] ram

unfoldable pub trigger_timer_interrupt : ℤ → Ram → Result Ram
trigger_timer_interrupt pc ram = do
  ram' ←
      set_interrupt_data (record { type = timer; program_counter = pc; ignore_result = true }) ram
  ok (set_kernel_mode true ram')

unfoldable pub trigger_sys_call : ℤ → Ram → Result Ram
trigger_sys_call pc ram =
    set_interrupt_data (record { type = software; program_counter = pc; ignore_result = false }) ram

-- An empty or zero handler address is 0; any other text must hold a number.
unfoldable pub handler_address : Bytes → Result ℤ
handler_address addr = if is_empty addr || beq addr (codes "0") then ok (pos 0) else stoi addr

unfoldable pub get_sys_call_handler : Ram → Result ℤ
unfolding handler_address
get_sys_call_handler ram = do
  addr ← direct_read (pos (address sys_call_handler)) ram
  handler_address addr

unfoldable pub get_interrupt_handler : Ram → Result ℤ
unfolding handler_address
get_interrupt_handler ram = do
  addr ← direct_read (pos (address sys_interrupt_handler)) ram
  handler_address addr
