-- ===== src/Asm/Lines/Constants.antt =====
-- The constants of a `write` in the first pass of compiler.cpp.
use kagu_os.Prelude.{
  ◌≡◌, refl, ap, ◌∙◌, ◌≢◌, Bool, false, none, some, List, ◌∷◌, ℕ, arith, if_intro, Bool-cases, inl,
  inr, length, get_elem?, get_elem?-append_some, get_elem?-last,
}
use kagu_os.Std.Files.{Files}
use kagu_os.Std.Text.{Bytes, codes, is_empty, is_some, beq, beq_iff, beq-ne}
use kagu_os.Std.Map.{lookup, lookup-insert}
use kagu_os.Asm.Lexer.{Lexeme}
use kagu_os.Asm.State.{Compiler, ConstantInfo, Pass, ◌>>◌}
use kagu_os.Asm.State.Leaves.{Leaves, Leaves-continue, compilation_error-Leaves}
use kagu_os.Asm.Lines.{
  constant_of, insert_constant, perform, process_lines, read_files, add_variable, add_label,
  add_instruction,
}
use kagu_os.Asm.Lines.Keeps.{IsKept, process_lines-Keeps, read_files-Answers}

-- The table of constants has a constant of this key, with this text.
abbrev pub HasConstant : Bytes → Bytes → Compiler → Type 0
HasConstant raw value c =
    (i : ℕ) × (ci : ConstantInfo) × (lookup raw c.constants_index ≡ some i)
    × (get_elem? c.constants i ≡ some ci)
    × (ci.raw_value ≡ raw)
    × (ci.evaluated_value ≡ value)

module _ (raw value : Bytes) where
  -- The table as it was, in a state that may differ elsewhere.
  abbrev Holds : Compiler → Type 0
  Holds = HasConstant raw value

  other_key :
      (key : Bytes) (i : ℕ) (c : Compiler)
      → lookup raw c.constants_index ≡ some i
      → is_some (lookup key c.constants_index) ≡ false
      → key ≢ raw
  other_key key i c h new e = ground (arith, h, new, ap (λ k. lookup k c.constants_index) e)

  insert_constant-Holds :
      (key text : Bytes) (c : Compiler) → Holds c → Holds (insert_constant key text c)
  unfolding insert_constant
  insert_constant-Holds key text c (i, ci, at, is, r, v) = elim (Bool-cases (is_empty key)) [
    | inl e ↦ rw e (i, ci, at, is, r, v)
    | inr e ↦ elim (Bool-cases (is_some (lookup key c.constants_index))) [
      | inl old ↦ rw (e, old) (i, ci, at, is, r, v)
      | inr new ↦
          rw (e, new)
            (
              i,
              ci,
              lookup-insert key raw (length c.constants) c.constants_index
                  ∙ rw (beq-ne key raw (other_key key i c at new)) at,
              get_elem?-append_some c.constants _ i ci is,
              r,
              v,
            )
    ]
  ]

  inserted-Holds :
      (c : Compiler)
      → is_empty raw ≡ false
      → lookup raw c.constants_index ≡ none
      → Holds (insert_constant raw value c)
  unfolding insert_constant
  inserted-Holds c full new =
      rw (full, new)
        (
          length c.constants,
          record { raw_value = raw; evaluated_value = value; address = 0 },
          lookup-insert raw raw (length c.constants) c.constants_index
              ∙ rw ((beq_iff raw raw).1 refl) refl,
          get_elem?-last c.constants _,
          refl,
          refl,
        )

  -- No action of the first pass takes a constant out of the table or changes its text.
  Holds-IsKept : IsKept Holds
  unfolding add_variable add_label add_instruction
  Holds-IsKept = record {
    failing = λ syntax info c h. compilation_error-Leaves Holds syntax info c (λ err. h);
    variable = λ syntax name c h.
        if_intro (Leaves (λ (_ : Unit {0}) c'. Holds c')) (is_some (lookup name c.variables)) _ _
          (λ _. compilation_error-Leaves Holds syntax _ c (λ err. h)) (λ _. h);
    label = λ syntax name c h.
        if_intro (Leaves (λ (_ : Unit {0}) c'. Holds c')) (is_some (lookup name c.labels)) _ _
          (λ _. compilation_error-Leaves Holds syntax _ c (λ err. h)) (λ _. h);
    instruction = λ ls c typed h. h;
    constant = insert_constant-Holds;
    moved = λ file n line c h. h;
    reported = λ err c h. h;
  }

  -- The line of a `write` puts its constant into the table.
  perform-Holds :
      (syntax : Bytes) (cmd arg : Lexeme) (ls : List Lexeme) (c : Compiler)
      → constant_of arg.type arg.value c.symbol_table ≡ some (raw, value)
      → is_empty raw ≡ false
      → lookup raw c.constants_index ≡ none
      → Leaves (λ (_ : Unit {0}) c'. Holds c') (perform (codes "write") syntax (cmd ∷ arg ∷ ls) c)
  unfolding perform beq add_instruction
  perform-Holds syntax cmd arg ls c k full new = rw k (inserted-Holds _ full new)

-- The first pass from the line of a `write` on: the line, those behind it, and the other files.
abbrev pub write_and_rest : Bytes → List Lexeme → List Bytes → Files → List Bytes → Pass Bool
write_and_rest syntax ls rest fs paths = do
  perform (codes "write") syntax ls
  process_lines rest
  read_files fs paths

pub write_and_rest-HasConstant :
    (raw value syntax : Bytes) (cmd arg : Lexeme) (ls : List Lexeme) (rest : List Bytes)
    (fs : Files) (paths : List Bytes) (c : Compiler)
    → constant_of arg.type arg.value c.symbol_table ≡ some (raw, value)
    → is_empty raw ≡ false
    → lookup raw c.constants_index ≡ none
    → Leaves
        (λ (_ : Bool) c'. HasConstant raw value c')
        (write_and_rest syntax (cmd ∷ arg ∷ ls) rest fs paths c)
write_and_rest-HasConstant raw value syntax cmd arg ls rest fs paths c k full new =
    let P : Compiler → Type 0 = HasConstant raw value in
    Leaves-continue (λ _ c'. P c') (λ _ c'. P c') _
      (perform (codes "write") syntax (cmd ∷ arg ∷ ls) c)
      (perform-Holds raw value syntax cmd arg ls c k full new)
      (λ _ c1 h1.
        Leaves-continue (λ _ c'. P c') (λ _ c'. P c') _ (process_lines rest c1)
          (process_lines-Keeps P (Holds-IsKept raw value) rest c1 h1)
          (λ _ c2 h2. read_files-Answers P (Holds-IsKept raw value) fs paths c2 h2))
