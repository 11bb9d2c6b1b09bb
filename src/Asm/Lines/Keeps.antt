-- ===== src/Asm/Lines/Keeps.antt =====
-- What holds of the state through the first pass.
use kagu_os.Prelude.{
  ℕ, ◌+◌, ◌≡◌, refl, Bool, false, ◌||◌, Option, none, some, List, [], ◌∷◌, ◌++◌, if_intro,
}
use kagu_os.Asm.Words.{tokenize_line, pattern_of, lexemes_of}
use kagu_os.Asm.Symbols.{begins}
use kagu_os.Std.Files.{Files, lines}
use kagu_os.Asm.Patterns.{CommandPattern, match_pattern, command_patterns}
use kagu_os.Std.Text.{Bytes, codes, beq}
use kagu_os.Asm.Lexer.{Lexeme}
use kagu_os.Asm.State.{Compiler, compilation_error, Outcome, Pass}
use kagu_os.Asm.State.Leaves.{Leaves, Leaves-continue}
use kagu_os.Asm.Lines.{
  add_instruction, Bytes, Lexeme, codes, perform, put_constant, write_constant, Pass, constant_of,
  beq, second_value, CommandPattern, Files, process_command, process_line, process_lines,
  process_tokens, begins, match_pattern, read_files, tokenize_line, find_command, pattern_of,
  command_patterns, lexemes_of, pass1, read_one, lines, add_variable, add_label, insert_constant,
}
use kagu_os.Asm.Lines.Signatures.{IsTyped}
use kagu_os.Asm.Lines.Typed.{matched-IsTyped}
use kagu_os.Asm.Lines.Built.{
  IsBuilt, error-IsBuilt, add_variable-IsBuilt, add_label-IsBuilt, add_instruction-IsBuilt,
  insert_constant-IsBuilt,
}

-- What every action of the first pass keeps: it holds behind each of them where it has held before.
pub record IsKept (P : Compiler → Type 0) : Type 0 where
  pub failing :
      (syntax info : Bytes) (c : Compiler)
      → P c
      → Leaves (λ (_ : Unit {0}) c'. P c') (compilation_error syntax info c)
  pub variable :
      (syntax name : Bytes) (c : Compiler)
      → P c
      → Leaves (λ (_ : Unit {0}) c'. P c') (add_variable syntax name c)
  pub label :
      (syntax name : Bytes) (c : Compiler)
      → P c
      → Leaves (λ (_ : Unit {0}) c'. P c') (add_label syntax name c)
  pub instruction :
      (ls : List Lexeme) (c : Compiler)
      → IsTyped ls
      → P c
      → Leaves (λ (_ : Unit {0}) c'. P c') (add_instruction ls c)
  pub constant : (raw value : Bytes) (c : Compiler) → P c → P (insert_constant raw value c)
  pub moved :
      (file : Bytes) (n : ℕ) (line : Bytes) (c : Compiler)
      → P c
      → P (record c { current_file = file; current_line_no = n; current_line = line })
  pub reported : (err : Bytes) (c : Compiler) → P c → P (record c { err = err })

module _ (P : Compiler → Type 0) (laws : IsKept P) where
  put_constant-Keeps : (k : Option (Bytes × Bytes)) (c : Compiler) → P c → P (put_constant k c)
  put_constant-Keeps none c b = b
  put_constant-Keeps (some (raw, value)) c b = laws.constant raw value c b

  abbrev Keeps : Outcome (Unit {0}) → Type 0
  Keeps = Leaves (λ _ c'. P c')

  write_constant-Keeps : (ls : List Lexeme) (c : Compiler) → P c → Keeps (write_constant ls c)
  write_constant-Keeps [] c b = b
  write_constant-Keeps (cmd ∷ []) c b = b
  write_constant-Keeps (cmd ∷ arg ∷ ls) c b =
      put_constant-Keeps (constant_of arg.type arg.value c.symbol_table) c b

  perform-Keeps :
      (cmd syntax : Bytes) (ls : List Lexeme) (c : Compiler)
      → (beq cmd (codes "var") ≡ false → beq cmd (codes "label") ≡ false → IsTyped ls)
      → P c
      → Keeps (perform cmd syntax ls c)
  unfolding perform
  perform-Keeps cmd syntax ls c typed b =
      if_intro holds (beq cmd (codes "var")) _ _ (λ _. laws.variable syntax (second_value ls) c b)
        (λ v.
          if_intro holds (beq cmd (codes "label")) _ _
            (λ _. laws.label syntax (second_value ls) c b)
            (λ l.
              if_intro holds (beq cmd (codes "DEBUG_ON") || beq cmd (codes "DEBUG_OFF")) _ _
                (λ _. laws.instruction ls c (typed v l) b)
                (λ _.
                  if_intro holds (beq cmd (codes "write")) _ _
                    (λ _.
                      Leaves-continue (λ _ c'. P c') (λ _ c'. P c') (λ _. write_constant ls)
                        (add_instruction ls c) (laws.instruction ls c (typed v l) b)
                        (λ _ c' b'. write_constant-Keeps ls c' b'))
                    (λ _. laws.instruction ls c (typed v l) b))))
    where
      holds : Pass (Unit {0}) → Type 0
      holds p = Keeps (p c)

  process_command-Keeps :
      (line cmd : Bytes) (ts : List Bytes) (p : CommandPattern) (c : Compiler)
      → begins (codes "//") cmd ≡ false
      → find_command cmd command_patterns ≡ some p
      → P c
      → Keeps (process_command line cmd (cmd ∷ ts) p c)
  unfolding process_command
  process_command-Keeps line cmd ts p c plain found b =
      if_intro (λ (q : Pass (Unit {0})). Keeps (q c))
        (match_pattern (pattern_of (lexemes_of line cmd p.lexeme_count 0 (cmd ∷ ts))) p.pattern) _ _
        (λ matches.
          perform-Keeps cmd p.syntax (lexemes_of line cmd p.lexeme_count 0 (cmd ∷ ts)).0 c
            (matched-IsTyped line cmd ts p plain found matches) b)
        (λ _. laws.failing p.syntax (codes "Unexpected arguments for command " ++ cmd) c b)

  process_found-Keeps :
      (line cmd : Bytes) (ts : List Bytes) (p : Option CommandPattern) (c : Compiler)
      → begins (codes "//") cmd ≡ false
      → find_command cmd command_patterns ≡ p
      → P c
      → Keeps (elim p [
        | none ↦ compilation_error (codes "Unknown command: " ++ cmd) [] c
        | some p ↦ process_command line cmd (cmd ∷ ts) p c
      ])
  process_found-Keeps line cmd ts none c plain found b =
      laws.failing (codes "Unknown command: " ++ cmd) [] c b
  process_found-Keeps line cmd ts (some p) c plain found b =
      process_command-Keeps line cmd ts p c plain found b

  process_tokens-Keeps :
      (line : Bytes) (ts : List Bytes) (c : Compiler) → P c → Keeps (process_tokens line ts c)
  process_tokens-Keeps line [] c b = b
  process_tokens-Keeps line (cmd ∷ ts) c b =
      if_intro Keeps (begins (codes "//") cmd) _ _ (λ _. b)
        (λ plain.
          process_found-Keeps line cmd ts (find_command cmd command_patterns) c plain refl b)

  pub process_line-Keeps : (line : Bytes) (c : Compiler) → P c → Keeps (process_line line c)
  unfolding process_line
  process_line-Keeps line c b = process_tokens-Keeps line (tokenize_line line) c b

  pub process_lines-Keeps : (ls : List Bytes) (c : Compiler) → P c → Keeps (process_lines ls c)
  unfolding process_lines
  process_lines-Keeps [] c b = b
  process_lines-Keeps (line ∷ ls) c b =
      Leaves-continue (λ _ c'. P c') (λ _ c'. P c') (λ _. process_lines ls)
        (process_line line
          (record c { current_line_no = c.current_line_no + 1; current_line = line }))
        (process_line-Keeps line
          (record c { current_line_no = c.current_line_no + 1; current_line = line })
          (laws.moved c.current_file (c.current_line_no + 1) line c b))
        (λ _ c' b'. process_lines-Keeps ls c' b')

  abbrev pub Answers : Outcome Bool → Type 0
  Answers = Leaves (λ _ c'. P c')

  read_one-Answers :
      (path : Bytes) (others : Pass Bool) (text : Option Bytes) (c : Compiler)
      → P c
      → ((c' : Compiler) → P c' → Answers (others c'))
      → Answers (read_one path others text c)
  unfolding read_one
  read_one-Answers path others none c b h =
      laws.reported (c.err ++ (path ++ codes " is not a valid source file\n")) c b
  read_one-Answers path others (some text) c b h =
      Leaves-continue (λ _ c'. P c') (λ _ c'. P c') (λ _. others)
        (process_lines (lines text) (record c { current_file = path; current_line_no = 0 }))
        (process_lines-Keeps (lines text) (record c { current_file = path; current_line_no = 0 })
          (laws.moved path 0 c.current_line c b))
        (λ _ c' b'. h c' b')

  pub read_files-Answers :
      (fs : Files) (paths : List Bytes) (c : Compiler) → P c → Answers (read_files fs paths c)
  unfolding read_files
  read_files-Answers fs [] c b = b
  read_files-Answers fs (path ∷ paths) c b =
      read_one-Answers path (read_files fs paths) (fs.content path) c b
        (λ c' b'. read_files-Answers fs paths c' b')

  pub pass1-Answers :
      (fs : Files) (paths : List Bytes) (c : Compiler) → P c → Answers (pass1 fs paths c)
  unfolding pass1
  pass1-Answers fs paths c b =
      Leaves-continue (λ _ c'. P c') (λ _ c'. P c') _ (read_files fs paths c)
        (read_files-Answers fs paths c b) (λ _ c' b'. b')

-- The order of the state is kept.
IsBuilt-IsKept : IsKept IsBuilt
IsBuilt-IsKept = record {
  failing = λ syntax info c b. error-IsBuilt c b syntax info;
  variable = λ syntax name c b. add_variable-IsBuilt c b syntax name;
  label = λ syntax name c b. add_label-IsBuilt c b syntax name;
  instruction = λ ls c typed b. add_instruction-IsBuilt c b ls;
  constant = λ raw value c b. insert_constant-IsBuilt c b raw value;
  moved = λ file n line c b. record {
    counted = b.counted;
    labelled = b.labelled;
    indexed = b.indexed;
    agree = b.agree;
    once = b.once;
    apart = b.apart;
  };
  reported = λ err c b. record {
    counted = b.counted;
    labelled = b.labelled;
    indexed = b.indexed;
    agree = b.agree;
    once = b.once;
    apart = b.apart;
  };
}

-- Whatever the sources hold, the first pass that starts from a state in order, as the new compiler
-- is, leaves the state in order: the addresses of the
-- instructions are consecutive from the first one on, every label points to one of them or to the end,
-- the index of the constants leads to the constants of its keys, and the two tables of variables
-- agree and name no variable twice. The image and the source map stay two files.
pub pass1-IsBuilt :
    (fs : Files) (paths : List Bytes) (c : Compiler)
    → IsBuilt c
    → Leaves (λ (_ : Bool) c'. IsBuilt c') (pass1 fs paths c)
pass1-IsBuilt = pass1-Answers IsBuilt IsBuilt-IsKept
