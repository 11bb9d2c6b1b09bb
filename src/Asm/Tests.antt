-- ===== src/Asm/Tests.antt =====
-- Runs of the assembler on small sources.
use kagu_os.Std.Text.{Bytes, codes}
use kagu_os.Std.Files.{Files, lines}
use kagu_os.Prelude.{true, Option, none, some, List, [], ◌∷◌}
use kagu_os.Asm.State.{new}
use kagu_os.Asm.Compile.{compile, Run}

abbrev program : Files
program = record {
  content = λ p. some (
      codes
        "// a program\nvar x\nwrite 5 to REG_A\nlabel again\nwrite \"a b\" to var:x\nwrite OP_ADD to REG_OP\njump label:again // back\nDEBUG_ON\nwrite label:again to *REG_B\ncopy *var:x to REG_C\n");
  writable = λ p. true;
}

assembled : Run
assembled = compile program (codes "a.kga" ∷ []) (new true true)

abbrev pub text : Option Bytes → Bytes
text none = []
text (some s) = s

image : List Bytes
image = lines (text (assembled.files.content (codes "build/user.disk")))

source_map : List Bytes
source_map = lines (text (assembled.files.content (codes "build/user.map")))
