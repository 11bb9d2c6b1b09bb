-- ===== src/Asm/Compile.antt =====
-- `pass2`, `writeSourceMap` and `compile` of compiler.cpp, and the options of main_asm.cpp.
pub mod Rows
pub mod Image
pub mod Success
pub mod Refused
use kagu_os.Prelude.{
  ℕ, ◌+◌, ◌-◌, Bool, true, false, not, Option, none, some, List, [], ◌∷◌, ◌++◌, ltb, ◌==◌,
  if◌then◌else◌, take, replicate, pos,
}
use kagu_os.Std.Number.{to_string}
use kagu_os.Std.Text.{Bytes, find, codes, drop}
use kagu_os.Std.Files.{Files, replace_file, unlines}
use kagu_os.Asm.Lines.{pass1}
use kagu_os.Asm.Layout.{calculate_addresses}
use kagu_os.Asm.Emit.{emit_all}
use kagu_os.Asm.State.{
  Compiler, Outcome, done, exited, compilation_error, ConstantInfo, VariableInfo, ParsedInstruction,
  tinted,
}

abbrev pad_at : Bytes → Option ℕ → Bytes
pad_at line none = line
pad_at line (some n) =
    if ltb n 15 then take n line ++ (replicate (15 - n) 32 ++ drop n line) else line

-- The comment of a line, moved to column 15.
unfoldable pub align_comment : Bytes → Bytes
unfolding find
align_comment line = pad_at line (find (b'#' ∷ []) line)

abbrev pub align_all : Bool → List Bytes → List Bytes
align_all on [] = []
align_all on (line ∷ ls) = (if on then align_comment line else line) ∷ align_all on ls

abbrev pub values : List ConstantInfo → List Bytes
values [] = []
values (ci ∷ cs) = ci.evaluated_value ∷ values cs

abbrev pub blank_lines : List (Bytes × VariableInfo) → List Bytes
blank_lines [] = []
blank_lines (v ∷ vs) = [] ∷ blank_lines vs

-- The lines of the image: the instructions, the values of the constants, and the variables.
unfoldable pub image : List Bytes → Compiler → List Bytes
unfolding align_comment
image code c =
    align_all c.debug_info code ++ (values c.constants ++ blank_lines c.variables_ordered)

-- What a run of the assembler leaves: whether it succeeded, its state, and the files.
pub record Run : Type 0 where
  pub succeeded : Bool
  pub compiler : Compiler
  pub files : Files

abbrev pub ended : Bool → Files → Compiler → Run
ended b fs c = record { succeeded = b; compiler = c; files = fs }

-- A program that leaves has status 1, and leaves the file empty that it has opened.
abbrev left : Files → Compiler → Run
left fs c = ended false (replace_file c.output_file [] fs) c

abbrev pub empty_program : Files → Outcome (Unit {0}) → Run
empty_program fs (done u c) = ended false fs c
empty_program fs (exited c) = ended false fs c

abbrev pub save_image : Files → List Bytes → Compiler → Run
save_image fs [] c = empty_program (replace_file c.output_file (unlines (image [] c)) fs) (
    compilation_error []
      (codes "Empty kernel file: no valid instructions present in the provided source files") c)
save_image fs (line ∷ code) c =
    ended true (replace_file c.output_file (unlines (image (line ∷ code) c)) fs) c

abbrev pub emitted : Files → Outcome (List Bytes) → Run
emitted fs (done code c) = save_image fs code c
emitted fs (exited c) = left fs c

-- `pass2`: the directory of the image is there.
unfoldable pub pass2 : Files → Compiler → Run
unfolding emit_all image compilation_error
pass2 fs c =
    if fs.writable c.output_file
    then emitted fs (emit_all c.parsed_instructions c)
    else ended false fs (record c {
      err = c.err ++ (codes "Cannot create output file: " ++ (c.output_file ++ 10 ∷ []));
    })

-- The lines of the source map.
unfoldable pub map_instructions : ℕ → List ParsedInstruction → List Bytes
map_instructions a [] = []
map_instructions a (instr ∷ rest) =
    (to_string (pos a) ++ b' ' ∷ (instr.source_file ++ b':' ∷ to_string (pos instr.line_number)))
    ∷ map_instructions (a + 1) rest

unfoldable pub map_variables : List (Bytes × VariableInfo) → List Bytes
map_variables [] = []
map_variables ((name, vi) ∷ rest) =
    (codes "var:"
      ++ (name
          ++ b' '
            ∷ (to_string (pos vi.address)
                ++ b' ' ∷ (vi.file ++ b':' ∷ to_string (pos vi.declaration_line)))))
    ∷ map_variables rest

unfoldable pub source_map : Compiler → List Bytes
unfolding map_instructions map_variables
source_map c =
    map_instructions c.first_instruction_no c.parsed_instructions
    ++ map_variables c.variables_ordered

-- `writeSourceMap`: a map that cannot be written is a warning.
unfoldable pub write_source_map : Files → Compiler → Run
unfolding source_map
write_source_map fs c =
    if fs.writable c.map_file
    then ended true (replace_file c.map_file (unlines (source_map c)) fs) c
    else ended true fs (record c {
      err = c.err ++ (codes "Warning: Cannot create source map: " ++ (c.map_file ++ 10 ∷ []));
    })

abbrev failure_text : ℕ → Bytes
failure_text n =
    tinted (codes "91") (codes "Compilation failed: " ++ (to_string (pos n) ++ codes " error(s)."))
    ++ 10 ∷ []

abbrev success_text : Compiler → Bytes
success_text c =
    tinted (codes "92") (
      codes "Compilation succeeded. Output image: "
      ++ (c.output_file ++ (codes " | Source map: " ++ c.map_file)))
    ++ 10 ∷ []

abbrev report_success : Run → Run
report_success r = record r {
  compiler = record r.compiler { out = r.compiler.out ++ success_text r.compiler };
}

-- The end of `compile`, behind `pass2`.
unfoldable pub conclude : Run → Run
unfolding write_source_map
conclude r =
    if not r.succeeded
    then r
    else if r.compiler.compilation_error_count == 0
    then report_success (write_source_map r.files r.compiler)
    else record r {
      succeeded = false;
      compiler = record r.compiler {
        err = r.compiler.err ++ failure_text r.compiler.compilation_error_count;
      };
    }

abbrev pub assembled : Files → Outcome Bool → Run
assembled fs (exited c) = ended false fs c
assembled fs (done false c) = ended false fs c
assembled fs (done true c) = conclude (pass2 fs (calculate_addresses c))

-- `compile`
unfoldable pub compile : Files → List Bytes → Compiler → Run
unfolding pass1 calculate_addresses pass2 conclude
compile fs paths c = assembled fs (pass1 fs paths c)
