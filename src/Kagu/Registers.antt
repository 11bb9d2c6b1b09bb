-- ===== src/Kagu/Registers.antt =====
-- registers.hpp and config.hpp: the memory-mapped registers and the limits of the configuration.
use kagu_os.Prelude.{
  ℕ, suc, ◌≤◌, ◌≡◌, refl, Bool, false, ◌&&◌, ◌||◌, not, Option, none, some, List, [], ◌∷◌, arith,
  leb, get_elem?, ℤ, pos,
}
use kagu_os.Std.Text.{Bytes, codes}

-- `enum class Address`; `UserSpaceEnd` is another name of the number 11.
pub data Address : Type 0 where
  reg_a reg_b reg_c reg_d reg_e reg_f : Address
  reg_op reg_res reg_bool_res reg_error reg_last_key : Address
  display_buffer display_color keyboard_buffer display_background : Address
  program_counter sys_energy free_memory_end : Address
  free_memory_start free_chunks proc_start_address proc_end_address : Address
  sys_call_handler sys_ret_address sys_interrupt_handler sys_interrupt_data sys_hw_timer : Address
  kernel_start : Address

-- `toInt(Address)`
abbrev pub address : Address → ℕ
address reg_a = 1
address reg_b = 2
address reg_c = 3
address reg_d = 4
address reg_e = 5
address reg_f = 6
address reg_op = 7
address reg_res = 8
address reg_bool_res = 9
address reg_error = 10
address reg_last_key = 11
address display_buffer = 12
address display_color = 13
address keyboard_buffer = 14
address display_background = 15
address program_counter = 16
address sys_energy = 17
address free_memory_end = 18
address free_memory_start = 19
address free_chunks = 20
address proc_start_address = 21
address proc_end_address = 22
address sys_call_handler = 23
address sys_ret_address = 24
address sys_interrupt_handler = 25
address sys_interrupt_data = 26
address sys_hw_timer = 27
address kernel_start = 41

abbrev pub user_space_end : ℕ
user_space_end = 11

abbrev pub min_ram_size : ℕ
min_ram_size = 100

abbrev pub hw_dir : Bytes
hw_dir = codes "hw"

-- `KERNEL_DATA`, `USER_DISK`, `KERNEL_MAP` and `USER_MAP`
abbrev pub kernel_data : Bytes
kernel_data = codes "build/kernel.data"

abbrev pub user_disk : Bytes
user_disk = codes "build/user.disk"

abbrev pub kernel_map : Bytes
kernel_map = codes "build/kernel.map"

abbrev pub user_map : Bytes
user_map = codes "build/user.map"

abbrev pub ram_dump_file : Bytes
ram_dump_file = codes "tmp/RAM.txt"

abbrev pub user_ram_dump_file : Bytes
user_ram_dump_file = codes "tmp/RAM_user.txt"

-- `config::USER_SPACE_START`, where the code of a user program begins
abbrev pub user_space_start : ℕ
user_space_start = 12

unfoldable pub is_user_register : Address → Bool
is_user_register r = leb 1 (address r) && leb (address r) user_space_end

unfoldable pub is_system_register : Address → Bool
is_system_register r =
    leb (address display_buffer) (address r) && leb (address r) (address free_memory_end)

unfoldable pub is_firmware_zone : Address → Bool
is_firmware_zone r = leb 19 (address r) && leb (address r) 40

unfoldable pub is_code_space : ℕ → Bool
is_code_space n = leb (address kernel_start) n

-- The enumerators in the order of their numbers, from 1; 41 stands apart.
abbrev registers : List Address
registers =
    reg_a ∷ reg_b ∷ reg_c ∷ reg_d ∷ reg_e ∷ reg_f ∷ reg_op ∷ reg_res ∷ reg_bool_res ∷ reg_error
    ∷ reg_last_key ∷ display_buffer ∷ display_color ∷ keyboard_buffer ∷ display_background
    ∷ program_counter ∷ sys_energy ∷ free_memory_end ∷ free_memory_start ∷ free_chunks
    ∷ proc_start_address ∷ proc_end_address ∷ sys_call_handler ∷ sys_ret_address
    ∷ sys_interrupt_handler ∷ sys_interrupt_data ∷ sys_hw_timer ∷ []

-- The switch of `getRegisterName`; `none` is the null pointer.
unfoldable pub register_name : Address → Option Bytes
register_name reg_op = some (codes "REG_OP")
register_name reg_a = some (codes "REG_A")
register_name reg_b = some (codes "REG_B")
register_name reg_c = some (codes "REG_C")
register_name reg_d = some (codes "REG_D")
register_name reg_e = some (codes "REG_E")
register_name reg_f = some (codes "REG_F")
register_name reg_res = some (codes "REG_RES")
register_name reg_bool_res = some (codes "REG_BOOL_RES")
register_name reg_error = some (codes "REG_ERROR")
register_name reg_last_key = some (codes "REG_LAST_KEY")
register_name display_buffer = some (codes "DISPLAY_BUFFER")
register_name display_color = some (codes "DISPLAY_COLOR")
register_name keyboard_buffer = some (codes "KEYBOARD_BUFFER")
register_name display_background = some (codes "DISPLAY_BACKGROUND")
register_name program_counter = some (codes "PROGRAM_COUNTER")
register_name sys_energy = some (codes "SYS_ENERGY")
register_name free_memory_end = some (codes "FREE_MEMORY_END")
register_name kernel_start = some (codes "KERNEL_START")
register_name _ = none

-- `getRegisterName(RamAddress)`
unfoldable pub get_register_name : ℤ → Option Bytes
unfolding register_name
get_register_name (pos (suc n)) = elim (get_elem? registers n) [
  | none ↦ none
  | some r ↦ register_name r
]
get_register_name _ = none

-- Every register number is read back as its register: names agree for both overloads.
get_register_name-address :
    (r : Address) → address r ≤ 27 → get_register_name (pos (address r)) ≡ register_name r
unfolding get_register_name
get_register_name-address kernel_start h = absurd (omega arith)
get_register_name-address _ h = refl

-- The four zones of the memory map: each register lies in exactly one of them.
zones_partition :
    (r : Address)
    → (is_user_register r
        ≡ not (is_system_register r || (is_firmware_zone r || is_code_space (address r))))
      × ((is_system_register r && is_firmware_zone r) ≡ false)
unfolding is_user_register is_system_register is_firmware_zone is_code_space
zones_partition reg_a = (refl, refl)
zones_partition _ = (refl, refl)
