-- ===== src/Kagu/SysCalls.antt =====
-- syscalls.hpp: the numbers of the system calls.
use kagu_os.Prelude.{ℕ, Bool, ◌&&◌, leb, ℤ, ltb_ℤ, leb_ℤ, pos}

pub data SysCall : Type 0 where
  exit print_ln print read_input : SysCall
  open_file descriptor_info close read write : SysCall
  set_background render_bitmap sleep get_file_attr set_file_attr : SysCall
  sched_program is_process_active kill_process skip_sched wait_sched : SysCall

-- `toInt(SysCall)`
abbrev pub sys_call_code : SysCall → ℕ
sys_call_code exit = 0
sys_call_code print_ln = 1
sys_call_code print = 2
sys_call_code read_input = 3
sys_call_code open_file = 4
sys_call_code descriptor_info = 5
sys_call_code close = 6
sys_call_code read = 7
sys_call_code write = 8
sys_call_code set_background = 9
sys_call_code render_bitmap = 10
sys_call_code sleep = 11
sys_call_code get_file_attr = 12
sys_call_code set_file_attr = 13
sys_call_code sched_program = 14
sys_call_code is_process_active = 15
sys_call_code kill_process = 16
sys_call_code skip_sched = 17
sys_call_code wait_sched = 18

abbrev pub sys_call_count : ℕ
sys_call_count = 19

-- `isValidSysCall`
unfoldable pub is_valid_sys_call : ℤ → Bool
is_valid_sys_call n = leb_ℤ (pos 0) n && ltb_ℤ n (pos sys_call_count)

unfoldable pub is_file_sys_call : SysCall → Bool
is_file_sys_call sc =
    leb (sys_call_code open_file) (sys_call_code sc) && leb (sys_call_code sc) (sys_call_code write)

unfoldable pub is_process_sys_call : SysCall → Bool
is_process_sys_call sc =
    leb (sys_call_code sched_program) (sys_call_code sc)
    && leb (sys_call_code sc) (sys_call_code wait_sched)
