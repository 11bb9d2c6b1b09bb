-- ===== src/Cpu/Tests.antt =====
-- Runs of the model at small machines.
use kagu_os.Cpu.Reset.{reset_vector}
use kagu_os.Prelude.{true, false, none, some, [], pos}
use kagu_os.Std.Text.{Bytes, codes}
use kagu_os.Std.Fault.{Result, invalid_argument, fail}
use kagu_os.Std.Files.{Files}
use kagu_os.Ram.{Ram}
use kagu_os.Cpu.Float.{FloatOps}
use kagu_os.Cpu.Machine.{Machine}
use kagu_os.Cpu.Step.{run}
use kagu_os.Display

-- Floating-point operations that refuse every text.
abbrev pub no_floats : FloatOps
no_floats = record {
  Double = Bytes;
  stod = λ s. fail invalid_argument;
  one = [];
  add = λ x y. x;
  sub = λ x y. x;
  mul = λ x y. x;
  div = λ x y. x;
  less = λ x y. false;
  less_or_equal = λ x y. false;
  fixed = λ x. x;
}

abbrev pub no_files : Files
no_files = record { content = λ p. some (codes "0\n1 @5 2\n1 @30 7\n0\n"); writable = λ p. false }

abbrev pub fresh : Ram → Machine
fresh ram = record {
  ram = ram;
  display = Display.new;
  keyboard = record {
    last_input = [];
    pending_input = false;
    eof_reached = false;
    input_queue = [];
    stdin = [];
    polls = [];
  };
  disk = record { hw_dir = codes "hw" };
  files = no_files;
  running = true;
  debug_mode = false;
  debug_user_only = false;
  debug_print_jumps = false;
  debug_sleep_ms = pos 0;
  debug_server = none;
}

abbrev pub blank : Ram
blank = record { cells = λ i. codes "0"; size = 100; kernel_mode = true }

-- Firmware whose first line is data: three steps run its two copies, and leave 5 in cell 2.
booted : Result (Unit {0}) × Machine
booted = reset_vector (codes "fw") (fresh blank)

after : Bytes
unfolding booted
after = (run no_floats 3 booted.1).1.ram.cells 2
