-- ===== src/Asm/Main.antt =====
-- main_asm.cpp: the options of the assembler, and its status.
pub mod Status
use kagu_os.Prelude.{ℕ, Bool, true, false, ◌||◌, List, [], ◌∷◌, ◌++◌, if◌then◌else◌, pos}
use kagu_os.Std.Text.{Bytes, beq, codes}
use kagu_os.Std.Number.{to_string}
use kagu_os.Std.Files.{Files}
use kagu_os.Asm.State.{new}
use kagu_os.Asm.Compile.{compile}
use kagu_os.Kagu.Registers.{user_space_start}
use kagu_os.Asm.Symbols.{begins}

-- What the arguments ask for: the usage, an error, or a run of the assembler.
pub data Request : Type 0 where
  help : Request
  unknown_option : Bytes → Request
  no_sources : Request
  assemble : Bool → Bool → List Bytes → Request

-- The loop over the arguments, with the options and the sources that it has met.
unfoldable pub parse_arguments : Bool → Bool → List Bytes → List Bytes → Request
unfolding beq
parse_arguments user_space debug_info [] [] = no_sources
parse_arguments user_space debug_info (path ∷ paths) [] =
    assemble user_space debug_info (path ∷ paths)
parse_arguments user_space debug_info paths (arg ∷ args) =
    let as_user = parse_arguments true debug_info paths args in
    let without_debug = parse_arguments user_space false paths args in
    let with_source = parse_arguments user_space debug_info (paths ++ arg ∷ []) args in
    if beq arg (codes "-u") || beq arg (codes "--user-space")
    then as_user
    else if beq arg (codes "-n") || beq arg (codes "--no-debug")
    then without_debug
    else if beq arg (codes "-h") || beq arg (codes "--help")
    then help
    else if begins (codes "-") arg
    then unknown_option arg
    else with_source

-- `printUsage`
unfoldable pub usage : Bytes → Bytes
usage prog =
    codes "Usage: "
    ++ (prog ++ codes " [options] <source_files...>\nOptions:\n")
    ++ (codes "  -u, --user-space  Compile for user space (start at address "
        ++ (to_string (pos user_space_start) ++ codes ")\n"))
    ++ codes "  -n, --no-debug    Don't include debug comments in output\n"
    ++ codes "  -h, --help        Show this help\n"

-- What the program leaves: its status, its two output streams, and the files.
pub record Exit : Type 0 where
  pub status : ℕ
  pub out : Bytes
  pub err : Bytes
  pub files : Files

abbrev pub stopped : ℕ → Bytes → Files → Exit
stopped status err fs = record { status = status; out = []; err = err; files = fs }

unfoldable pub serve : Files → Bytes → Request → Exit
unfolding usage compile new
serve fs prog help = stopped 0 (usage prog) fs
serve fs prog (unknown_option arg) =
    stopped 1 (codes "Unknown option: " ++ (arg ++ 10 ∷ usage prog)) fs
serve fs prog no_sources = stopped 1 (codes "No source files specified\n" ++ usage prog) fs
serve fs prog (assemble user_space debug_info paths) =
    let r = compile fs paths (new user_space debug_info) in
    record {
      status = if r.succeeded then 0 else 1;
      out = r.compiler.out;
      err = r.compiler.err;
      files = r.files;
    }

-- `main`, with the name of the program and its arguments
unfoldable pub main : Files → Bytes → List Bytes → Exit
unfolding parse_arguments serve
main fs prog [] = stopped 1 (usage prog) fs
main fs prog (arg ∷ args) = serve fs prog (parse_arguments false true [] (arg ∷ args))
