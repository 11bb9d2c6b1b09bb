-- ===== src/Asm/Lines/Instructions.antt =====
-- The instructions that the first pass of compiler.cpp leaves.
use kagu_os.Prelude.{Bool, ◌||◌, List, if_intro, All, All-append}
use kagu_os.Std.Text.{Bytes, is_some, is_empty}
use kagu_os.Std.Map.{lookup}
use kagu_os.Std.Files.{Files}
use kagu_os.Asm.State.{Compiler, ParsedInstruction}
use kagu_os.Asm.State.Leaves.{Leaves, compilation_error-Leaves}
use kagu_os.Asm.Lines.{add_variable, add_label, add_instruction, insert_constant, pass1}
use kagu_os.Asm.Lines.Keeps.{IsKept, pass1-Answers}
use kagu_os.Asm.Lines.Signatures.{IsTyped}

-- The instructions have the words that their commands take.
abbrev pub AllTyped : Compiler → Type 0
AllTyped c = All (λ (i : ParsedInstruction). IsTyped i.lexemes) c.parsed_instructions

AllTyped-IsKept : IsKept AllTyped
unfolding add_variable add_label add_instruction insert_constant
AllTyped-IsKept = record {
  failing = λ syntax info c h. compilation_error-Leaves AllTyped syntax info c (λ err. h);
  variable = λ syntax name c h.
      if_intro (Leaves (λ (_ : Unit {0}) c'. AllTyped c')) (is_some (lookup name c.variables)) _ _
        (λ _. compilation_error-Leaves AllTyped syntax _ c (λ err. h)) (λ _. h);
  label = λ syntax name c h.
      if_intro (Leaves (λ (_ : Unit {0}) c'. AllTyped c')) (is_some (lookup name c.labels)) _ _
        (λ _. compilation_error-Leaves AllTyped syntax _ c (λ err. h)) (λ _. h);
  instruction = λ ls c typed h.
      All-append (λ (i : ParsedInstruction). IsTyped i.lexemes) c.parsed_instructions _ h
        (typed, tt);
  constant = λ raw value c h.
      if_intro AllTyped (is_empty raw || is_some (lookup raw c.constants_index)) _ _ (λ _. h)
        (λ _. h);
  moved = λ file n line c h. h;
  reported = λ err c h. h;
}

-- Whatever the sources hold, the first pass adds typed instructions only: where the instructions
-- that are there are typed, those behind the pass are. The words of a typed instruction are as many
-- as its command takes, and each is of a kind that the command takes there.
pub pass1-AllTyped :
    (fs : Files) (paths : List Bytes) (c : Compiler)
    → AllTyped c
    → Leaves (λ (_ : Bool) c'. AllTyped c') (pass1 fs paths c)
pass1-AllTyped = pass1-Answers AllTyped AllTyped-IsKept
