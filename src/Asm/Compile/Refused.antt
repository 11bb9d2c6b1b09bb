-- ===== src/Asm/Compile/Refused.antt =====
-- A source with a line that is refused.
use kagu_os.Prelude.{
  ℕ, ◌≤◌, ◌≡◌, refl, sym, subst, Bool, true, false, ◌&&◌, ◌||◌, Option, none, some, List, [], ◌∷◌,
  ◌++◌, arith, ◌==◌, if_intro,
}
use kagu_os.Asm.Compile.{assembled, compile, pass1}
use kagu_os.Std.Files.{Files, lines}
use kagu_os.Std.Text.{Bytes, codes, is_empty, is_some}
use kagu_os.Std.Map.{lookup}
use kagu_os.Asm.Symbols.{begins}
use kagu_os.Asm.Patterns.{CommandPattern, command_patterns, match_pattern}
use kagu_os.Asm.Words.{tokenize_line, lexemes_of, pattern_of}
use kagu_os.Asm.State.{Compiler, Outcome, done, exited, compilation_error, Pass}
use kagu_os.Asm.State.Leaves.{Leaves, compilation_error-Leaves, Leaves-continue}
use kagu_os.Asm.Lines.{
  add_variable, add_label, add_instruction, insert_constant, find_command, process_line,
  process_command, process_lines, process_tokens, read_files, read_one, pass1,
}
use kagu_os.Asm.Lines.Keeps.{IsKept, process_lines-Keeps, process_line-Keeps, read_files-Answers}

-- At least so many errors have been counted.
abbrev Counts : ℕ → Compiler → Type 0
Counts n c = n ≤ c.compilation_error_count

-- No action takes an error back.
Counts-IsKept : (n : ℕ) → IsKept (Counts n)
unfolding add_variable add_label add_instruction insert_constant
Counts-IsKept n = record {
  failing = λ syntax info c h.
      compilation_error-Leaves (Counts n) syntax info c (λ err. omega (arith, h));
  variable = λ syntax name c h.
      if_intro (Leaves (λ (_ : Unit {0}) c'. Counts n c')) (is_some (lookup name c.variables)) _ _
        (λ _. compilation_error-Leaves (Counts n) syntax _ c (λ err. omega (arith, h))) (λ _. h);
  label = λ syntax name c h.
      if_intro (Leaves (λ (_ : Unit {0}) c'. Counts n c')) (is_some (lookup name c.labels)) _ _
        (λ _. compilation_error-Leaves (Counts n) syntax _ c (λ err. omega (arith, h))) (λ _. h);
  instruction = λ ls c typed h. h;
  constant = λ raw value c h.
      if_intro (Counts n) (is_empty raw || is_some (lookup raw c.constants_index)) _ _ (λ _. h)
        (λ _. h);
  moved = λ file m line c h. h;
  reported = λ err c h. h;
}

-- Nothing is kept by everything.
any-IsKept : IsKept (λ c. Unit {0})
any-IsKept = record {
  failing = λ syntax info c h. compilation_error-Leaves (λ c. Unit {0}) syntax info c (λ err. tt);
  variable = λ syntax name c h. any_leaves (add_variable syntax name c);
  label = λ syntax name c h. any_leaves (add_label syntax name c);
  instruction = λ ls c typed h. any_leaves (add_instruction ls c);
  constant = λ raw value c h. tt;
  moved = λ file m line c h. tt;
  reported = λ err c h. tt;
}
  where
    any_leaves : (o : Outcome (Unit {0})) → Leaves (λ _ c. Unit {0}) o
    any_leaves (done u c) = tt
    any_leaves (exited c) = tt

-- The line does not match the pattern of its command.
abbrev Mismatch : Bytes → Bytes → List Bytes → CommandPattern → Type 0
Mismatch line cmd ts p =
    match_pattern (pattern_of (lexemes_of line cmd p.lexeme_count 0 ts)) p.pattern ≡ false

abbrev NoCommand : Bytes → Bytes → List Bytes → Option CommandPattern → Type 0
NoCommand line cmd ts none = Unit
NoCommand line cmd ts (some p) = Mismatch line cmd ts p

-- The first word of the line is no comment, and it is no command, or the line does not match the
-- pattern of its command.
abbrev pub IsMalformed : Bytes → Type 0
IsMalformed line =
    (cmd : Bytes) × (ts : List Bytes) × (tokenize_line line ≡ cmd ∷ ts)
    × (begins (codes "//") cmd ≡ false)
    × NoCommand line cmd (cmd ∷ ts) (find_command cmd command_patterns)

abbrev Fails : Outcome (Unit {0}) → Type 0
Fails = Leaves (λ _ c'. Counts 1 c')

fails : (syntax info : Bytes) (c : Compiler) → Fails (compilation_error syntax info c)
fails syntax info c = compilation_error-Leaves (Counts 1) syntax info c (λ err. omega arith)

found-Fails :
    (line cmd : Bytes) (ts : List Bytes) (c : Compiler) (o : Option CommandPattern)
    → NoCommand line cmd ts o
    → Fails (elim o [
      | none ↦ compilation_error (codes "Unknown command: " ++ cmd) [] c
      | some p ↦ process_command line cmd ts p c
    ])
unfolding process_command
found-Fails line cmd ts c none h = fails (codes "Unknown command: " ++ cmd) [] c
found-Fails line cmd ts c (some p) h =
    if_intro (λ (a : Pass (Unit {0})). Fails (a c))
      (match_pattern (pattern_of (lexemes_of line cmd p.lexeme_count 0 ts)) p.pattern) _ _ (λ e. cc)
      (λ _. fails p.syntax (codes "Unexpected arguments for command " ++ cmd) c)

refused_line : (line : Bytes) (c : Compiler) → IsMalformed line → Fails (process_line line c)
unfolding process_line
refused_line line c (cmd, ts, ts_are, b, h) =
    subst (λ t. Fails (process_tokens line t c)) (sym ts_are)
      (if_intro Fails (begins (codes "//") cmd) _ _ (λ e. cc)
        (λ _. found-Fails line cmd (cmd ∷ ts) c (find_command cmd command_patterns) h))

-- Lines with such a line among them leave an error.
refused_lines :
    (front back : List Bytes) (line : Bytes) (c : Compiler)
    → IsMalformed line
    → Fails (process_lines (front ++ line ∷ back) c)
unfolding process_lines
refused_lines [] back line c r =
    Leaves-continue (λ _ c'. Counts 1 c') (λ _ c'. Counts 1 c') (λ _. process_lines back)
      (process_line line _) (refused_line line _ r)
      (λ _ c' h. process_lines-Keeps (Counts 1) (Counts-IsKept 1) back c' h)
refused_lines (other ∷ front) back line c r =
    Leaves-continue (λ _ _. Unit {0}) (λ _ c'. Counts 1 c')
      (λ _. process_lines (front ++ line ∷ back)) (process_line other _)
      (process_line-Keeps (λ c. Unit {0}) any-IsKept other _ tt)
      (λ _ c' h. refused_lines front back line c' r)

abbrev Answered : Outcome Bool → Type 0
Answered = Leaves (λ found c'. found ≡ true → Counts 1 c')

counted : (o : Outcome Bool) → Leaves (λ _ c'. Counts 1 c') o → Answered o
counted (done b c) h = λ e. h
counted (exited c) h = tt

skipped :
    (path : Bytes) (others : Pass Bool) (text : Option Bytes) (c : Compiler)
    → ((c' : Compiler) → Answered (others c'))
    → Answered (read_one path others text c)
unfolding read_one
skipped path others none c h = λ e. cc
skipped path others (some text) c h =
    Leaves-continue (λ _ _. Unit {0}) (λ found c'. found ≡ true → Counts 1 c') (λ _. others)
      (process_lines (lines text) _)
      (process_lines-Keeps (λ c. Unit {0}) any-IsKept (lines text) _ tt) (λ _ c' _. h c')

refused_files :
    (fs : Files) (before after : List Bytes) (path text : Bytes) (front back : List Bytes)
    (line : Bytes) (c : Compiler)
    → fs.content path ≡ some text
    → lines text ≡ front ++ line ∷ back
    → IsMalformed line
    → Answered (read_files fs (before ++ path ∷ after) c)
unfolding read_files read_one
refused_files fs [] after path text front back line c at ls r =
    let c1 = record c { current_file = path; current_line_no = 0 } in
    subst (λ o. Answered (read_one path (read_files fs after) o c)) (sym at)
      (Leaves-continue (λ _ c'. Counts 1 c') (λ found c'. found ≡ true → Counts 1 c')
        (λ _. read_files fs after) (process_lines (lines text) c1)
        (subst (λ l. Fails (process_lines l c1)) (sym ls) (refused_lines front back line c1 r))
        (λ _ c' h.
          counted (read_files fs after c')
            (read_files-Answers (Counts 1) (Counts-IsKept 1) fs after c' h)))
refused_files fs (other ∷ before) after path text front back line c at ls r =
    skipped other (read_files fs (before ++ path ∷ after)) (fs.content other) c
      (λ c'. refused_files fs before after path text front back line c' at ls r)

no_success : (found : Bool) (n : ℕ) → (found ≡ true → 1 ≤ n) → (found && n == 0) ≡ false
no_success false n h = refl
no_success true n h = ground (arith, h refl)

stays :
    (fs : Files) (o : Outcome Bool)
    → Leaves (λ found c'. found ≡ false) o
    → ((assembled fs o).succeeded ≡ false) × ((assembled fs o).files ≡ fs)
stays fs (exited c) h = (refl, refl)
stays fs (done false c) h = (refl, refl)
stays fs (done true c) h = cc

-- Where any line of any source has no command in front, or does not match the pattern of its
-- command, and is no comment, the assembler fails and leaves every file as it was, whatever the other
-- lines and sources hold.
pub refused_source :
    (fs : Files) (before after : List Bytes) (path text : Bytes) (front back : List Bytes)
    (line : Bytes) (c : Compiler)
    → fs.content path ≡ some text
    → lines text ≡ front ++ line ∷ back
    → IsMalformed line
    → ((compile fs (before ++ path ∷ after) c).succeeded ≡ false)
      × ((compile fs (before ++ path ∷ after) c).files ≡ fs)
unfolding compile pass1
refused_source fs before after path text front back line c at ls r =
    stays fs (pass1 fs (before ++ path ∷ after) c) (
      Leaves-continue (λ found c'. found ≡ true → Counts 1 c') (λ found c'. found ≡ false) _
        (read_files fs (before ++ path ∷ after) c)
        (refused_files fs before after path text front back line c at ls r)
        (λ found c' h. no_success found c'.compilation_error_count h))
