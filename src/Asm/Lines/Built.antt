-- ===== src/Asm/Lines/Built.antt =====
-- The state of the first pass: its addresses, its constants and its variables.
use kagu_os.Prelude.{
  ℕ, ◌+◌, ◌≤◌, ◌≡◌, refl, sym, ◌∙◌, ◌≢◌, inl, inr, Bool, true, false, ◌||◌, Option, none, some,
  List, [], ◌∷◌, ◌++◌, arith, if_intro, length, get_elem?, length-append, get_elem?-append_some,
  get_elem?-last,
}
use kagu_os.Std.Text.{Bytes, is_empty, is_some, codes, beq_iff, beq}
use kagu_os.Std.Map.{
  lookup, insert, NodupKeys, append-NodupKeys, lookup-insert_cases, lookup-insert, lookup-append,
}
use kagu_os.Asm.Lexer.{Lexeme}
use kagu_os.Asm.State.{Compiler, compilation_error, new, ConstantInfo, LabelInfo, VariableInfo}
use kagu_os.Asm.State.Leaves.{Leaves, compilation_error-Leaves}
use kagu_os.Asm.Lines.{
  add_variable, add_label, add_instruction, insert_constant, Bytes, Lexeme, lookup, LabelInfo,
  is_empty, is_some, codes, insert, VariableInfo, beq,
}

-- Every label of a table points between the first instruction and the end.
abbrev pub IsLabelled : ℕ → ℕ → List (Bytes × LabelInfo) → Type 0
IsLabelled first next labels =
    (name : Bytes) (li : LabelInfo)
    → lookup name labels ≡ some li
    → (first ≤ li.address) × (li.address ≤ next)

-- The index of a constant leads to the constant of that key.
abbrev pub IsIndexed : List (Bytes × ℕ) → List ConstantInfo → Type 0
IsIndexed index constants =
    (raw : Bytes) (i : ℕ)
    → lookup raw index ≡ some i
    → (ci : ConstantInfo) × (get_elem? constants i ≡ some ci) × (ci.raw_value ≡ raw)

pub record IsBuilt (c : Compiler) : Type 0 where
  pub counted : c.next_instr_address ≡ c.first_instruction_no + length c.parsed_instructions
  pub labelled : IsLabelled c.first_instruction_no c.next_instr_address c.labels
  pub indexed : IsIndexed c.constants_index c.constants
  pub agree : (name : Bytes) → lookup name c.variables ≡ lookup name c.variables_ordered
  pub once : NodupKeys c.variables_ordered
  pub apart : c.map_file ≢ c.output_file

is_none {ℓ} : {A : Type ℓ} (o : Option A) → is_some o ≡ false → o ≡ none
is_none none h = refl
is_none (some a) h = cc

differ : (s t : Bytes) → beq s t ≡ false → s ≢ t
differ s t h e = ground (arith, h, (beq_iff s t).1 e)

apart_names :
    (user_space : Bool) → (new user_space true).map_file ≢ (new user_space true).output_file
unfolding new beq
apart_names true = differ _ _ refl
apart_names false = differ _ _ refl

pub new-IsBuilt : (user_space debug_info : Bool) → IsBuilt (new user_space debug_info)
unfolding new lookup
new-IsBuilt user_space debug_info = record {
  counted = omega arith;
  labelled = λ name li h. cc;
  indexed = λ raw i h. cc;
  agree = λ name. refl;
  once = tt;
  apart = apart_names user_space;
}

module _ (c : Compiler) (b : IsBuilt c) where
  pub error-IsBuilt :
      (syntax info : Bytes)
      → Leaves (λ (_ : Unit {0}) c'. IsBuilt c') (compilation_error syntax info c)
  error-IsBuilt syntax info = compilation_error-Leaves IsBuilt syntax info c (λ err. record {
    counted = b.counted;
    labelled = b.labelled;
    indexed = b.indexed;
    agree = b.agree;
    once = b.once;
    apart = b.apart;
  })

  insert_agree :
      (name j : Bytes) (vi : VariableInfo)
      → lookup name c.variables ≡ none
      → lookup j (insert name vi c.variables) ≡ lookup j (c.variables_ordered ++ (name, vi) ∷ [])
  unfolding lookup
  insert_agree name j vi new =
      rw
        (
          lookup-insert name j vi c.variables,
          lookup-append j c.variables_ordered ((name, vi) ∷ []),
          ← b.agree j,
        )
        (ground (arith, beq_iff name j))

  pub add_variable-IsBuilt :
      (syntax name : Bytes) → Leaves (λ (_ : Unit {0}) c'. IsBuilt c') (add_variable syntax name c)
  unfolding add_variable
  add_variable-IsBuilt syntax name =
      if_intro (Leaves (λ (_ : Unit {0}) c'. IsBuilt c')) (is_some (lookup name c.variables)) _ _
        (λ _. error-IsBuilt syntax (codes "Variable " ++ (name ++ codes " is already defined")))
        (λ e. record {
          counted = b.counted;
          labelled = b.labelled;
          indexed = b.indexed;
          agree = λ j. insert_agree name j _ (is_none (lookup name c.variables) e);
          once =
              append-NodupKeys c.variables_ordered name _ b.once
                (sym (b.agree name) ∙ is_none (lookup name c.variables) e);
          apart = b.apart;
        })

  now :
      (li : LabelInfo)
      → li.address ≡ c.next_instr_address
      → (c.first_instruction_no ≤ li.address) × (li.address ≤ c.next_instr_address)
  now li at = omega (arith, b.counted)

  insert-IsLabelled :
      (name : Bytes) (li : LabelInfo)
      → li.address ≡ c.next_instr_address
      → IsLabelled c.first_instruction_no c.next_instr_address (insert name li c.labels)
  insert-IsLabelled name li at j lj h = elim (lookup-insert_cases name j li lj c.labels h) [
    | inl (e, _) ↦ rw e at (now li at)
    | inr old ↦ b.labelled j lj old
  ]

  pub add_label-IsBuilt :
      (syntax name : Bytes) → Leaves (λ (_ : Unit {0}) c'. IsBuilt c') (add_label syntax name c)
  unfolding add_label
  add_label-IsBuilt syntax name =
      if_intro (Leaves (λ (_ : Unit {0}) c'. IsBuilt c')) (is_some (lookup name c.labels)) _ _
        (λ _. error-IsBuilt syntax (codes "Label " ++ (name ++ codes " is already defined")))
        (λ _. record {
          counted = b.counted;
          labelled = insert-IsLabelled name _ refl;
          indexed = b.indexed;
          agree = b.agree;
          once = b.once;
          apart = b.apart;
        })

  pub add_instruction-IsBuilt :
      (ls : List Lexeme) → Leaves (λ (_ : Unit {0}) c'. IsBuilt c') (add_instruction ls c)
  unfolding add_instruction
  add_instruction-IsBuilt ls = record {
    counted = omega (
      arith,
      b.counted,
      length-append c.parsed_instructions (
          record { source_file = c.current_file; line_number = c.current_line_no; lexemes = ls }
          ∷ []),
    );
    labelled = λ name li h. omega (arith, b.labelled name li h);
    indexed = b.indexed;
    agree = b.agree;
    once = b.once;
    apart = b.apart;
  }

  insert-IsIndexed :
      (raw value : Bytes)
      → IsIndexed
          (insert raw (length c.constants) c.constants_index)
          (c.constants ++ (record { raw_value = raw; evaluated_value = value; address = 0 }) ∷ [])
  insert-IsIndexed raw value j i h =
      elim (lookup-insert_cases raw j (length c.constants) i c.constants_index h) [
        | inl (e, k) ↦ (
          record { raw_value = raw; evaluated_value = value; address = 0 },
          rw (← e) (get_elem?-last c.constants _),
          k,
        )
        | inr old ↦
            let (ci, at, is) = b.indexed j i old in
            (ci, get_elem?-append_some c.constants _ i ci at, is)
      ]

  pub insert_constant-IsBuilt : (raw value : Bytes) → IsBuilt (insert_constant raw value c)
  unfolding insert_constant
  insert_constant-IsBuilt raw value =
      if_intro IsBuilt (is_empty raw || is_some (lookup raw c.constants_index)) _ _ (λ _. b)
        (λ _. record {
          counted = b.counted;
          labelled = b.labelled;
          indexed = insert-IsIndexed raw value;
          agree = b.agree;
          once = b.once;
          apart = b.apart;
        })
