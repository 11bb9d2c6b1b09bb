-- ===== src/Examples/Devices.antt =====
-- The theorems on the timer, the interrupt data, the disk, the canvas and the command line.
use kagu_os.Prelude.{
  ℕ, ◌≤◌, ◌≡◌, refl, ap, ◌≢◌, ◌⊎◌, true, false, some, List, [], ◌∷◌, arith, get_elem?, pos_part,
  pos, leb_ℤ, ◌+ℤ◌,
}
use kagu_os.Boot.Start.{IsFresh, accepted_starts}
use kagu_os.Cpu.Tests.{no_files}
use kagu_os.Cpu.Machine.{Machine}
use kagu_os.Boot.{parse_command, Request, build, new_keyboard, parsed}
use kagu_os.Kagu.Registers.{address, sys_hw_timer, min_ram_size}
use kagu_os.Disk.Blocks.{last_block_refused, read_block-write_block, read_block-write_block_ne}
use kagu_os.Std.Text.{codes, Bytes}
use kagu_os.Std.Number.{fits_int, stoi, to_string, int_add}
use kagu_os.Std.Files.{Files, IsLine, replace_file, lines, unlines}
use kagu_os.Std.Fault.{ok}
use kagu_os.Ram.{store}
use kagu_os.Disk.{Disk, read_block, write_block, disk_path}
use kagu_os.Examples.{process_ram, codes, fits_int, ok, store, stoi, Bytes}
use kagu_os.Canvas.{Canvas, initialize, get_pixel, set_pixel, is_blank}
use kagu_os.Canvas.Shape.{IsCanvas, initialize-IsCanvas}
use kagu_os.Display.Bitmap.{draw_bitmap-IsCanvas}
use kagu_os.Display.{Display, draw_bitmap, bitmap_width}
use kagu_os.Display
use kagu_os.Canvas.Pixels.{get_pixel-set_pixel}
use kagu_os.Interrupt.{parse, data_to_string, InterruptData}
use kagu_os.Interrupt.Context.{parse-data_to_string}
use kagu_os.Interrupt.Timer.{checks, timer_countdown}

timer_countdown_example :
    checks 5 process_ram
    ≡ ok (
      false ∷ false ∷ true ∷ false ∷ false ∷ [],
      store (address sys_hw_timer) (codes "-1") process_ram,
    )
timer_countdown_example =
    timer_countdown 2 2 process_ram refl (omega arith) (unfold to_string in refl) (omega arith)

abbrev saved_context : InterruptData
saved_context = record { type = pos 1; program_counter = pos 1203; ignore_result = true }

parse-data_to_string_example : parse (data_to_string saved_context) ≡ some saved_context
parse-data_to_string_example =
    parse-data_to_string saved_context (unfold fits_int in refl) (unfold fits_int in refl)

-- A disk of four blocks, of which two are there.
abbrev disk : Disk
disk = record { hw_dir = codes "hw" }

abbrev files : Files
files = record { content = λ p. some (codes "4\na\n"); writable = λ p. true }

written : Files
written = replace_file (disk_path disk (codes "d")) (codes "4\na\nb\n") files

block_written : write_block disk (codes "d") (pos 3) (codes "b") files ≡ ok (true, written)
unfolding write_block written replace_file disk_path stoi lines unlines
block_written = refl

b-IsLine : IsLine (codes "b")
b-IsLine = (λ e. omega (arith, e), tt)

read_block-write_block_example : read_block disk (codes "d") (pos 3) written ≡ ok (some (codes "b"))
read_block-write_block_example =
    read_block-write_block disk (codes "d") (pos 3) (codes "b") files written b-IsLine block_written

read_block-write_block_ne_example :
    read_block disk (codes "d") (pos 2) written ≡ ok (some (codes "a"))
unfolding lines
read_block-write_block_ne_example =
    read_block-write_block_ne disk (codes "d") (pos 3) 2 (codes "b") (codes "a") files written
      b-IsLine block_written (λ e. cc) (unfold read_block disk_path stoi in refl)

last_block_refused_example :
    (write_block disk (codes "d") (pos 4) (codes "b") files ≡ ok (false, files))
    × (read_block disk (codes "d") (pos 4) files ≡ ok (get_elem? (codes "4" ∷ codes "a" ∷ []) 3))
last_block_refused_example =
    last_block_refused disk (codes "d") 3 (codes "b") (codes "4\na\n") (codes "4") (codes "a" ∷ [])
      files refl (unfold lines in refl) (unfold stoi in refl)

abbrev bare : Canvas
bare = record { pixels = []; width = 0; height = 0; background_color = 46; dirty = false }

-- A small screen with a canvas of four columns and three rows.
abbrev screen : Display
screen = record Display.new { canvas = initialize 4 3 46 bare; screen_width = 8; screen_height = 6 }

draw_bitmap-IsCanvas_example :
    (c : Canvas) × (draw_bitmap (pos 3) (pos 2) (codes "##" ∷ codes "##" ∷ []) screen
      ≡ ok (record screen { canvas = c }))
    × IsCanvas c
    × (c.width ≡ 5)
    × (c.height ≡ 4)
    × (leb_ℤ (pos 5) (pos c.width) ≡ true)
    × (leb_ℤ (pos 4) (pos c.height) ≡ true)
unfolding initialize is_blank fits_int
draw_bitmap-IsCanvas_example =
    draw_bitmap-IsCanvas (pos 3) (pos 2) (pos 5) (pos 4) (codes "##" ∷ codes "##" ∷ []) screen
      (initialize-IsCanvas 4 3 46 bare) (unfold bitmap_width in refl)
      (unfold int_add ◌+ℤ◌ bitmap_width in refl) (unfold int_add ◌+ℤ◌ in refl)

get_pixel-set_pixel_example :
    (get_pixel (pos 1) (pos 2) (set_pixel (pos 1) (pos 2) 35 (initialize 4 3 46 bare)) ≡ 35)
    × (((◌≢◌ {A = ℕ} 1 0) ⊎ (◌≢◌ {A = ℕ} 2 2))
        → get_pixel (pos 0) (pos 2) (set_pixel (pos 1) (pos 2) 35 (initialize 4 3 46 bare))
          ≡ get_pixel (pos 0) (pos 2) (initialize 4 3 46 bare))
get_pixel-set_pixel_example =
    get_pixel-set_pixel 1 2 0 2 35 (initialize 4 3 46 bare) (initialize-IsCanvas 4 3 46 bare)
      (unfold initialize in omega arith) (unfold initialize in omega arith)
      (unfold initialize in omega arith) (unfold initialize in omega arith)

-- A command line with the option `-j` and a pause.
abbrev command : List Bytes
command = codes "fw" ∷ codes "128" ∷ codes "-j" ∷ codes "-s" ∷ codes "5" ∷ []

abbrev request : Request
request = record {
  firmware = codes "fw";
  ram_size = pos 128;
  options = record {
    debug_mode = false;
    debug_user_only = false;
    print_jumps = true;
    debug_sleep_ms = pos 5;
    debug_port = pos 0;
  };
}

command_accepted : parse_command no_files (codes "kagu_boot") command ≡ parsed request
unfolding parse_command
command_accepted = refl

not_most : request.ram_size ≢ pos 2147483647
not_most e = omega (arith, ap pos_part e)

accepted_starts_example :
    (k : ℕ) × (m : Machine) × (request.ram_size ≡ pos k)
    × (min_ram_size ≤ k)
    × (build no_files (new_keyboard [] []) [] request ≡ ok m)
    × IsFresh k m
accepted_starts_example =
    accepted_starts no_files (new_keyboard [] []) [] (codes "kagu_boot") command request
      command_accepted not_most
