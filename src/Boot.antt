-- ===== src/Boot.antt =====
-- main_boot.cpp: the command line of the emulator, the parts it is built from, and its status. With
-- the option `--debug-port` the emulator waits for a debugger, whose text is given.
pub mod Start
use kagu_os.Cpu.Reset.{reset_vector}
use kagu_os.Prelude.{
  ℕ, Bool, true, false, ◌||◌, Option, none, some, List, [], ◌∷◌, ◌++◌, if◌then◌else◌, ℤ, ltb_ℤ, pos,
}
use kagu_os.Std.Text.{Bytes, beq, codes, is_some}
use kagu_os.Std.Number.{to_string, stoi}
use kagu_os.Std.Fault.{◌>>=◌, Result, ok, fail}
use kagu_os.Std.Files.{Files}
use kagu_os.Kagu.Registers.{hw_dir, min_ram_size}
use kagu_os.Ram.{Ram}
use kagu_os.Cpu.Float.{FloatOps}
use kagu_os.Cpu.Machine.{
  new_cpu, set_debug_mode, set_debug_user_only, set_debug_print_jumps, set_debug_sleep,
  set_debug_server, Machine, continue,
}
use kagu_os.Cpu.Step.{run}
use kagu_os.Keyboard.{Keyboard}
use kagu_os.DebugServer.Pause
use kagu_os.DebugServer
use kagu_os.Ram
use kagu_os.Display

-- The options behind the two arguments.
pub record Options : Type 0 where
  pub debug_mode : Bool
  pub debug_user_only : Bool
  pub print_jumps : Bool
  pub debug_sleep_ms : ℤ
  pub debug_port : ℤ

-- A part of the command line is refused with a text, or gives a value.
pub data Parsed {ℓ} (A : Type ℓ) : Type ℓ where
  refused : Bytes → Parsed A
  parsed : A → Parsed A

-- `printUsage`
unfoldable pub usage : Bytes → Bytes
usage prog =
    codes "KaguOS Emulator\nUsage: "
    ++ (prog ++ codes " <cpu_firmware> <ram_size> [options]\n\nArguments:\n")
    ++ codes "  cpu_firmware    Path to cpu reset vector firmware\n"
    ++ (codes "  ram_size        RAM size in cells (minimum: "
        ++ (to_string (pos min_ram_size) ++ codes ")\n\nOptions:\n"))
    ++ codes "  -d               Enable debug mode (dump RAM after each step)\n"
    ++ codes "  -u               Enable debug only for user space instructions\n"
    ++ codes "  -j               Print instruction info during execution\n"
    ++ codes "  -s <ms>          Sleep between steps in debug mode (milliseconds)\n"
    ++ codes "  --debug-port <p> Start TCP debug server on port p (DAP back-end)\n\nExamples:\n"
    ++ (codes "  " ++ (prog ++ codes " hw/cpu_firmware.bin 2048\n"))
    ++ (codes "  " ++ (prog ++ codes " hw/cpu_firmware.bin 2048 -j\n"))
    ++ (codes "  " ++ (prog ++ codes " hw/cpu_firmware.bin 2048 --debug-port 4711\n"))

-- The options `-d`, `-u` and `-j`.
unfoldable pub flag : Bytes → Options → Option Options
unfolding beq
flag opt o =
    if beq opt (codes "-d")
    then some (record o { debug_mode = true })
    else if beq opt (codes "-u")
    then some (record o { debug_user_only = true })
    else if beq opt (codes "-j")
    then some (record o { print_jumps = true })
    else none

abbrev unknown_option : Bytes → Bytes → Parsed Options
unknown_option prog opt = refused (codes "Error: Unknown option: " ++ (opt ++ 10 ∷ usage prog))

-- An option at the end of the command line.
unfoldable pub last_option : Bytes → Bytes → Options → Parsed Options
unfolding flag beq usage
last_option prog opt o = elim (flag opt o) [
  | some o' ↦ parsed o'
  | none ↦
      if beq opt (codes "-s") || beq opt (codes "--debug-port")
      then refused (codes "Error: " ++ (opt ++ codes " requires an argument\n"))
      else unknown_option prog opt
]

abbrev with_number : Bytes → (ℤ → Parsed Options) → Result ℤ → Parsed Options
with_number message next (ok n) = next n
with_number message next (fail e) = refused message

abbrev or_flag : Parsed Options → (Options → Parsed Options) → Option Options → Parsed Options
or_flag other next none = other
or_flag other next (some o) = next o

-- The loop over the options.
unfoldable pub parse_options : Bytes → List Bytes → Options → Parsed Options
unfolding last_option flag beq stoi usage
parse_options prog [] o = parsed o
parse_options prog (opt ∷ []) o = last_option prog opt o
parse_options prog (opt ∷ arg ∷ rest) o =
    let next : Options → Parsed Options = λ o'. parse_options prog (arg ∷ rest) o' in
    let behind : Options → Parsed Options = λ o'. parse_options prog rest o' in
    let other : Parsed Options =
      if beq opt (codes "-s")
      then with_number (codes "Error: Invalid sleep value: " ++ (arg ++ 10 ∷ []))
          (λ n. behind (record o { debug_sleep_ms = n })) (stoi arg)
      else if beq opt (codes "--debug-port")
      then with_number (codes "Error: Invalid port value: " ++ (arg ++ 10 ∷ []))
          (λ n. behind (record o { debug_port = n })) (stoi arg)
      else unknown_option prog opt in
    or_flag other next (flag opt o)

abbrev pub no_options : Options
no_options = record {
  debug_mode = false;
  debug_user_only = false;
  print_jumps = false;
  debug_sleep_ms = pos 0;
  debug_port = pos 0;
}

-- The firmware, the size of the memory and the options.
pub record Request : Type 0 where
  pub firmware : Bytes
  pub ram_size : ℤ
  pub options : Options

abbrev pub with_options : Bytes → ℤ → Parsed Options → Parsed Request
with_options firmware n (refused s) = refused s
with_options firmware n (parsed o) =
    parsed (record { firmware = firmware; ram_size = n; options = o })

-- The checks behind the conversion of the size.
unfoldable pub check_request : Files → Bytes → Bytes → ℤ → List Bytes → Parsed Request
unfolding parse_options
check_request fs prog firmware n opts =
    if ltb_ℤ n (pos min_ram_size)
    then refused
        (codes "Error: RAM size must be at least " ++ (to_string (pos min_ram_size) ++ 10 ∷ []))
    else if is_some (fs.content firmware)
    then with_options firmware n (parse_options prog opts no_options)
    else refused (codes "Error: File not found: " ++ (firmware ++ 10 ∷ []))

-- The command line, without the name of the program.
unfoldable pub parse_command : Files → Bytes → List Bytes → Parsed Request
unfolding check_request usage stoi
parse_command fs prog [] = refused (usage prog)
parse_command fs prog (firmware ∷ []) = refused (usage prog)
parse_command fs prog (firmware ∷ size ∷ opts) = elim (stoi size) [
  | fail e ↦ refused (codes "Error: Invalid RAM size: " ++ (size ++ 10 ∷ []))
  | ok n ↦ check_request fs prog firmware n opts
]

-- The keyboard in front of a standard input, with the keys that will have been pressed at each poll.
abbrev pub new_keyboard : Bytes → List ℕ → Keyboard
new_keyboard stdin polls = record {
  last_input = [];
  pending_input = false;
  eof_reached = false;
  input_queue = [];
  stdin = stdin;
  polls = polls;
}

-- The debug server of a port, once its client has connected.
abbrev pub attached : ℤ → Bytes → ℤ → Option DebugServer.DebugServer
attached port client size =
    if ltb_ℤ (pos 0) port then some (Pause.wait_for_client size (DebugServer.new client)) else none

-- The machine around a memory, before the reset. The text is what a debugger will send.
unfoldable pub machine_of : Files → Keyboard → Bytes → Request → Ram → Machine
unfolding new_cpu set_debug_mode set_debug_user_only set_debug_print_jumps set_debug_sleep
    set_debug_server
machine_of fs keyboard client r ram =
    let cpu = new_cpu ram Display.new keyboard (record { hw_dir = hw_dir }) fs in
    set_debug_server (attached r.options.debug_port client (pos ram.size)) (
      set_debug_sleep r.options.debug_sleep_ms (
        set_debug_print_jumps r.options.print_jumps (
          set_debug_user_only r.options.debug_user_only (set_debug_mode r.options.debug_mode cpu))))

unfoldable pub build : Files → Keyboard → Bytes → Request → Result Machine
build fs keyboard client r = Ram.new r.ram_size >>= λ ram. ok (machine_of fs keyboard client r ram)

-- The reset and so many steps, and the status that the program has after them.
unfoldable pub boot : FloatOps → ℕ → Bytes → Machine → Result (Unit {0}) × Machine
unfolding reset_vector run
boot float steps firmware m = continue (λ _. run float steps) (reset_vector firmware m)

abbrev pub status : Result (Unit {0}) × Machine → ℕ
status (ok u, m) = 0
status (fail e, m) = 1
