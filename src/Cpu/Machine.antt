-- ===== src/Cpu/Machine.antt =====
-- The state of the processor with its devices, and the actions on it. What an action wrote before a
-- fault stays written, as it does when C++ throws, so the state comes back beside the fault too.
pub mod Runs
pub mod Jumps
use kagu_os.Prelude.{Bool, false, ◌&&◌, ◌||◌, not, Option, none, if◌then◌else◌, ℤ, pos}
use kagu_os.Std.Text.{Bytes}
use kagu_os.Std.Fault.{Fault, Result, ok, fail}
use kagu_os.Std.Number.{stoi, to_string, int_add, int_sub}
use kagu_os.Std.Files.{Files}
use kagu_os.Kagu.Registers.{ram_dump_file, user_ram_dump_file, Address, address, program_counter}
use kagu_os.Ram.{Ram}
use kagu_os.Disk.{Disk}
use kagu_os.Display.{Display}
use kagu_os.Keyboard.{Keyboard}
use kagu_os.DebugServer.{DebugServer}
use kagu_os.Ram.Dump.{dump_to_file}
use kagu_os.Ram

pub record Machine : Type 0 where
  pub ram : Ram
  pub display : Display
  pub keyboard : Keyboard
  pub disk : Disk
  pub files : Files
  pub running : Bool
  pub debug_mode : Bool
  pub debug_user_only : Bool
  pub debug_print_jumps : Bool
  pub debug_sleep_ms : ℤ
  pub debug_server : Option DebugServer

-- `CPU::CPU`, with the files
unfoldable pub new_cpu : Ram → Display → Keyboard → Disk → Files → Machine
new_cpu ram display keyboard disk files = record {
  ram = ram;
  display = display;
  keyboard = keyboard;
  disk = disk;
  files = files;
  running = false;
  debug_mode = false;
  debug_user_only = false;
  debug_print_jumps = false;
  debug_sleep_ms = pos 0;
  debug_server = none;
}

abbrev pub Exec {ℓ} : Type ℓ → Type ℓ
Exec A = Machine → Result A × Machine

abbrev pub continue {ℓ κ} :
    {A : Type ℓ} {B : Type κ}
    → (A → Machine → Result B × Machine)
    → Result A × Machine
    → Result B × Machine
continue f (ok a, m) = f a m
continue f (fail e, m) = (fail e, m)

infixl 10 ◌>>=◌ ◌>>◌
abbrev pub ◌>>=◌ {ℓ κ} :
    {A : Type ℓ} {B : Type κ}
    → (Machine → Result A × Machine)
    → (A → Machine → Result B × Machine)
    → Machine
    → Result B × Machine
◌>>=◌ p f m = continue f (p m)

abbrev pub ◌>>◌ {ℓ} :
    {B : Type ℓ} → Exec (Unit {0}) → (Machine → Result B × Machine) → Machine → Result B × Machine
p >> q = p >>= λ _. q

abbrev pub pure {ℓ} : {A : Type ℓ} → A → Exec A
pure a m = (ok a, m)

abbrev pub raise {ℓ} : {A : Type ℓ} → Fault → Exec A
raise e m = (fail e, m)

abbrev pub lift {ℓ} : {A : Type ℓ} → Result A → Exec A
lift r m = (r, m)

abbrev pub modify : (Machine → Machine) → Exec (Unit {0})
modify f m = (ok tt, f m)

abbrev pub gets {ℓ} : {A : Type ℓ} → (Machine → A) → Exec A
gets f m = (ok (f m), m)

-- An action on the memory that writes: a fault leaves the memory as it was.
abbrev pub settle : Machine → Result Ram → Result (Unit {0}) × Machine
settle m (ok ram) = (ok tt, record m { ram = ram })
settle m (fail e) = (fail e, m)

abbrev pub on_ram : (Ram → Result Ram) → Exec (Unit {0})
on_ram f m = settle m (f m.ram)

abbrev pub of_ram {ℓ} : {A : Type ℓ} → (Ram → Result A) → Exec A
of_ram f m = (f m.ram, m)

abbrev pub on_display : (Display → Display) → Exec (Unit {0})
on_display f m = (ok tt, record m { display = f m.display })

abbrev pub read_reg : Address → Exec Bytes
read_reg r = of_ram (Ram.read_register r)

abbrev pub write_reg : Address → Bytes → Exec (Unit {0})
write_reg r v = on_ram (Ram.write_register r v)

-- `directAccess` to a register, read and assigned to
abbrev pub read_direct : Address → Exec Bytes
read_direct r = of_ram (Ram.direct_read (pos (address r)))

abbrev pub write_direct : Address → Bytes → Exec (Unit {0})
write_direct r v = on_ram (Ram.direct_write (pos (address r)) v)

unfoldable pub get_program_counter : Exec ℤ
get_program_counter = do text ← read_direct program_counter; lift (stoi text)

unfoldable pub set_program_counter : ℤ → Exec (Unit {0})
set_program_counter pc = write_direct program_counter (to_string pc)

unfoldable pub jump_next : Exec (Unit {0})
unfolding get_program_counter set_program_counter
jump_next = do pc ← get_program_counter; next ← lift (int_add pc (pos 1)); set_program_counter next

-- The counter is incremented before the next instruction is fetched.
unfoldable pub jump : ℤ → Exec (Unit {0})
unfolding set_program_counter
jump addr = do before ← lift (int_sub addr (pos 1)); set_program_counter before

unfoldable pub is_kernel_mode : Exec Bool
is_kernel_mode = gets (λ m. m.ram.kernel_mode)

-- The settings of the debug output.
unfoldable pub set_debug_mode : Bool → Machine → Machine
set_debug_mode enabled m = record m { debug_mode = enabled }

unfoldable pub set_debug_user_only : Bool → Machine → Machine
set_debug_user_only enabled m = record m { debug_user_only = enabled }

unfoldable pub set_debug_print_jumps : Bool → Machine → Machine
set_debug_print_jumps enabled m = record m { debug_print_jumps = enabled }

unfoldable pub set_debug_sleep : ℤ → Machine → Machine
set_debug_sleep milliseconds m = record m { debug_sleep_ms = milliseconds }

unfoldable pub set_debug_server : Option DebugServer → Machine → Machine
set_debug_server server m = record m { debug_server = server }

-- `shouldDebugPrint`
unfoldable pub should_debug_print : Machine → Bool
should_debug_print m = m.debug_mode || m.debug_user_only && not m.ram.kernel_mode

-- The file of a dump: the kernel's or the user's.
abbrev dump_file : Bool → Bytes
dump_file kernel = if kernel then ram_dump_file else user_ram_dump_file

-- `dumpToFile(file, userOnly)`: all of the memory, or the user registers alone
unfoldable pub dump : Bool → Bool → Exec (Unit {0})
unfolding dump_to_file
dump kernel_file only m =
    (ok tt, record m { files = dump_to_file (dump_file kernel_file) only m.ram m.files })
