-- ===== src/Asm/Compile/Success.antt =====
-- What a run of the assembler that succeeds has done.
use kagu_os.Asm.Emit.Keeps.{steady, emit_all-Leaves}
use kagu_os.Prelude.{
  ◌≡◌, refl, sym, ap, ◌∙◌, subst, ◌≢◌, Bool, true, false, not, some, List, [], ◌∷◌, arith, ◌==◌,
  if_intro, length,
}
use kagu_os.Asm.Lines.Keeps.{pass1-IsBuilt}
use kagu_os.Asm.State.Leaves.{Leaves}
use kagu_os.Asm.Lines.Built.{IsBuilt}
use kagu_os.Std.Text.{Bytes, beq-ne, codes}
use kagu_os.Std.Files.{Files, replace_file, unlines, content-replace_file}
use kagu_os.Asm.State.{Compiler, Outcome, done, exited, compilation_error}
use kagu_os.Asm.Lines.{pass1}
use kagu_os.Asm.Layout.{calculate_addresses}
use kagu_os.Asm.Emit.{emit_all}
use kagu_os.Asm.Compile.{
  Run, ended, image, pass2, conclude, write_source_map, emitted, empty_program, compilation_error,
  compile, assembled, codes,
}
use kagu_os.Asm.Compile.Image.{IsLaidOut, image-IsLaidOut}

-- Both passes have ended without an error, and the image that is written is laid out.
pub record IsAssembled (fs : Files) (paths : List Bytes) (c : Compiler) (r : Run) : Type 0 where
  pub state : Compiler
  pub code : List Bytes
  pub final : Compiler
  pub passed : pass1 fs paths c ≡ done true state
  pub emitted : emit_all state.parsed_instructions (calculate_addresses state) ≡ done code final
  pub laid : IsLaidOut state code final
  pub clean : final.compilation_error_count ≡ 0
  pub written : r.files.content final.output_file ≡ some (unlines (image code final))

map_keeps :
    (fs : Files) (c : Compiler) (path : Bytes)
    → c.map_file ≢ path
    → (write_source_map fs c).files.content path ≡ fs.content path
unfolding write_source_map replace_file
map_keeps fs c path ne =
    if_intro (λ (r : Run). r.files.content path ≡ fs.content path) (fs.writable c.map_file) _ _
      (λ _. rw (beq-ne c.map_file path ne) refl) (λ _. refl)

abbrev IsDone : Files → Compiler → List Bytes → Compiler → Type 0
IsDone fs c code c' =
    (emit_all c.parsed_instructions c ≡ done code c')
    × (pass2 fs c ≡ ended true (replace_file c'.output_file (unlines (image code c')) fs) c')

empty_program_fails : (fs : Files) (o : Outcome (Unit {0})) → (empty_program fs o).succeeded ≡ false
empty_program_fails fs (done u c) = refl
empty_program_fails fs (exited c) = refl

is_true : (b : Bool) → not b ≡ false → b ≡ true
is_true true h = refl
is_true false h = sym h

abbrev Concludes : Run → Run → Type 0
Concludes r x =
    x.succeeded ≡ true
    → (r.succeeded ≡ true)
      × (r.compiler.compilation_error_count ≡ 0)
      × (x.files ≡ (write_source_map r.files r.compiler).files)

conclude_success : (r : Run) → Concludes r (conclude r)
unfolding conclude
conclude_success r =
    if_intro (Concludes r) (not r.succeeded) _ _ (λ n h. cc)
      (λ n.
        if_intro (Concludes r) (r.compiler.compilation_error_count == 0) _ _
          (λ e h. (is_true r.succeeded n, ground arith, refl)) (λ e h. cc))

abbrev IsEmitted : Files → Outcome (List Bytes) → Run → List Bytes → Compiler → Type 0
IsEmitted fs o r code c =
    (o ≡ done code c) × (r ≡ ended true (replace_file c.output_file (unlines (image code c)) fs) c)

emitted_success :
    (fs : Files) (o : Outcome (List Bytes))
    → (emitted fs o).succeeded ≡ true
    → (code : List Bytes) × (c : Compiler) × IsEmitted fs o (emitted fs o) code c
emitted_success fs (exited c) h = cc
emitted_success fs (done [] c) h = absurd (
    cc (
      h,
      empty_program_fails (replace_file c.output_file (unlines (image [] c)) fs) (
          compilation_error []
            (codes "Empty kernel file: no valid instructions present in the provided source files")
            c),
    ))
emitted_success fs (done (line ∷ code) c) h = (line ∷ code, c, (refl, refl))

abbrev Emits : Files → Compiler → Run → Type 0
Emits fs c r =
    r.succeeded ≡ true
    → (code : List Bytes) × (c' : Compiler) × IsEmitted fs (emit_all c.parsed_instructions c) r code
        c'

pass2_success : (fs : Files) (c : Compiler) → Emits fs c (pass2 fs c)
unfolding pass2
pass2_success fs c =
    if_intro (Emits fs c) (fs.writable c.output_file) _ _
      (λ _ h. emitted_success fs (emit_all c.parsed_instructions c) h) (λ _ h. cc)

-- The two files stay two in the second pass.
still_apart :
    (c1 c' : Compiler)
    → IsBuilt c1
    → steady c' ≡ steady (calculate_addresses c1)
    → c'.map_file ≢ c'.output_file
unfolding calculate_addresses
still_apart c1 c' b st e = b.apart (ap (λ c. c.map_file) (sym st) ∙ e ∙ ap (λ c. c.output_file) st)

-- The two passes, one behind the other.
both_passes :
    (fs : Files) (paths : List Bytes) (c c1 : Compiler)
    → IsBuilt c1
    → pass1 fs paths c ≡ done true c1
    → (conclude (pass2 fs (calculate_addresses c1))).succeeded ≡ true
    → IsAssembled fs paths c (conclude (pass2 fs (calculate_addresses c1)))
both_passes fs paths c c1 b passed h =
    let (ok2, clean, files) = conclude_success (pass2 fs (calculate_addresses c1)) h in
    let (code, c', (emits, is)) = pass2_success fs (calculate_addresses c1) ok2 in
    let emits' : emit_all c1.parsed_instructions (calculate_addresses c1) ≡ done code c' =
      unfold calculate_addresses in emits in
    let (_, st) =
      subst
        (Leaves (λ ls c2.
          (length ls ≡ length c1.parsed_instructions)
          × (steady c2 ≡ steady (calculate_addresses c1))))
        emits' (emit_all-Leaves c1.parsed_instructions (calculate_addresses c1)) in
    record {
      state = c1;
      code = code;
      final = c';
      passed = passed;
      emitted = emits';
      laid = subst (Leaves (IsLaidOut c1)) emits' (image-IsLaidOut c1 b);
      clean = ap (λ (r : Run). r.compiler.compilation_error_count) (sym is) ∙ clean;
      written =
          ap (λ (f : Files). f.content c'.output_file) files
          ∙ ap (λ (r : Run). (write_source_map r.files r.compiler).files.content c'.output_file) is
          ∙ map_keeps (replace_file c'.output_file (unlines (image code c')) fs) c' c'.output_file
              (still_apart c1 c' b st)
          ∙ content-replace_file c'.output_file (unlines (image code c')) fs;
    }

assembled_success :
    (fs : Files) (paths : List Bytes) (c : Compiler) (o : Outcome Bool)
    → pass1 fs paths c ≡ o
    → Leaves (λ _ c'. IsBuilt c') o
    → (assembled fs o).succeeded ≡ true
    → IsAssembled fs paths c (assembled fs o)
assembled_success fs paths c (exited c1) passed b h = cc
assembled_success fs paths c (done false c1) passed b h = cc
assembled_success fs paths c (done true c1) passed b h = both_passes fs paths c c1 b passed h

-- A run from a state in order that succeeds has read every source without an error and printed every
-- instruction without one, and the file of the image holds the lines of an image that is laid out.
pub compile_success :
    (fs : Files) (paths : List Bytes) (c : Compiler)
    → IsBuilt c
    → (compile fs paths c).succeeded ≡ true
    → IsAssembled fs paths c (compile fs paths c)
unfolding compile
compile_success fs paths c b h =
    assembled_success fs paths c (pass1 fs paths c) refl (pass1-IsBuilt fs paths c b) h
