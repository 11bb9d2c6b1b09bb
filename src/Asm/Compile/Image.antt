-- ===== src/Asm/Compile/Image.antt =====
-- The lines of the image, by the addresses of the layout.
use kagu_os.Prelude.{
  ℕ, ◌+◌, ◌-◌, ◌≤◌, ◌<◌, ◌≡◌, refl, sym, ap, ◌∙◌, subst, Option, none, some, List, [], ◌++◌, arith,
  length, get_elem?, length-append, get_elem?-append_some, pos, if◌then◌else◌,
}
use kagu_os.Asm.Emit.Keeps.{steady, emit_all-Leaves}
use kagu_os.Asm.Layout.Addresses.{
  get_elem?-resolve_constants, length-resolve_constants, get_elem?-place_constants,
  length-place_constants, length-place_ordered, place_variables_bounds, place_variables-injective,
}
use kagu_os.Std.Text.{Bytes}
use kagu_os.Std.Number.{to_string}
use kagu_os.Std.Map.{lookup}
use kagu_os.Asm.State.{Compiler, ConstantInfo, VariableInfo}
use kagu_os.Asm.State.Leaves.{Leaves, Leaves-map}
use kagu_os.Asm.Lines.Built.{IsBuilt, IsLabelled}
use kagu_os.Asm.Layout.{calculate_addresses, resolve_constant, place_constants}
use kagu_os.Asm.Emit.{emit_all, constant_address, address_in}
use kagu_os.Asm.Compile.{image, align_all, align_comment, values, blank_lines}
use kagu_os.Asm.Compile.Rows.{
  get_elem?-append_right, get_elem?-align_all, length-align_all, length-values, get_elem?-values,
  length-blank_lines, get_elem?-blank_lines,
}

-- A line of the image holds this text, at this address.
abbrev pub Holds : List Bytes → Compiler → ℕ → Bytes → Type 0
Holds code c a text =
    (k : ℕ) × (a ≡ c.first_instruction_no + k) × (get_elem? (image code c) k ≡ some text)

-- What the image of some code is to the state that the first pass has left.
pub record IsLaidOut (c : Compiler) (code : List Bytes) (c' : Compiler) : Type 0 where
  pub complete : length code ≡ length c.parsed_instructions
  pub instructions :
      (k : ℕ) (line : Bytes)
      → get_elem? code k ≡ some line
      → Holds code c'
          (c'.first_instruction_no + k)
          (if c'.debug_info then align_comment line else line)
  pub filled : c'.first_instruction_no + length (image code c') ≡ c'.next_instr_address
  pub constants :
      (raw : Bytes) (i : ℕ)
      → lookup raw c.constants_index ≡ some i
      → (a : ℕ) × (ci : ConstantInfo) × (constant_address raw c' ≡ some (to_string (pos a)))
        × (get_elem? c.constants i ≡ some ci)
        × (ci.raw_value ≡ raw)
        × Holds code c' a (resolve_constant c.labels ci).evaluated_value
  pub variables :
      (name : Bytes) (vi : VariableInfo)
      → lookup name c'.variables ≡ some vi
      → Holds code c' vi.address []
  pub distinct :
      (x y : Bytes) (vi wi : VariableInfo)
      → lookup x c'.variables ≡ some vi
      → lookup y c'.variables ≡ some wi
      → vi.address ≡ wi.address
      → x ≡ y
  pub labels : IsLabelled c'.first_instruction_no (c'.first_instruction_no + length code) c'.labels

module _ (code : List Bytes) (c : Compiler) where
  pub length-image :
      length (image code c) ≡ length code + (length c.constants + length c.variables_ordered)
  unfolding image
  length-image =
      rw
        (
          length-append (align_all c.debug_info code)
              (values c.constants ++ blank_lines c.variables_ordered),
          length-append (values c.constants) (blank_lines c.variables_ordered),
          length-align_all c.debug_info code,
          length-values c.constants,
          length-blank_lines c.variables_ordered,
        )
        refl

  image_instruction :
      (k : ℕ) (line : Bytes)
      → get_elem? code k ≡ some line
      → get_elem? (image code c) k ≡ some (if c.debug_info then align_comment line else line)
  unfolding image
  image_instruction k line h =
      get_elem?-append_some (align_all c.debug_info code)
        (values c.constants ++ blank_lines c.variables_ordered) k
        (if c.debug_info then align_comment line else line)
        (get_elem?-align_all c.debug_info code k line h)

  behind_code :
      (i : ℕ)
      → get_elem? (image code c) (length code + i)
        ≡ get_elem? (values c.constants ++ blank_lines c.variables_ordered) i
  unfolding image
  behind_code i = rw (← length-align_all c.debug_info code) (
      get_elem?-append_right (align_all c.debug_info code)
        (values c.constants ++ blank_lines c.variables_ordered) i)

  image_constant :
      (i : ℕ) (ci : ConstantInfo)
      → get_elem? c.constants i ≡ some ci
      → get_elem? (image code c) (length code + i) ≡ some ci.evaluated_value
  image_constant i ci h =
      behind_code i
      ∙ get_elem?-append_some (values c.constants) (blank_lines c.variables_ordered) i
          ci.evaluated_value (get_elem?-values c.constants i ci h)

  image_variable :
      (i : ℕ)
      → i < length c.variables_ordered
      → get_elem? (image code c) (length code + (length c.constants + i)) ≡ some []
  image_variable i h =
      behind_code (length c.constants + i)
      ∙ rw (← length-values c.constants)
          (get_elem?-append_right (values c.constants) (blank_lines c.variables_ordered) i)
      ∙ get_elem?-blank_lines c.variables_ordered i h

constant_address_at :
    (c : Compiler) (raw : Bytes) (i : ℕ) (ci : ConstantInfo)
    → lookup raw c.constants_index ≡ some i
    → get_elem? c.constants i ≡ some ci
    → constant_address raw c ≡ some (to_string (pos ci.address))
unfolding constant_address
constant_address_at c raw i ci h k =
    ap (address_in c.constants) h
    ∙ ap
        (λ (o : Option ConstantInfo). elim o [
          | none ↦ none
          | some ci ↦ some (to_string (pos ci.address))
        ])
        k

module _ (c : Compiler) (b : IsBuilt c) (code : List Bytes)
    (full : length code ≡ length c.parsed_instructions) where
  constant_line :
      (raw : Bytes) (i : ℕ)
      → lookup raw c.constants_index ≡ some i
      → (a : ℕ) × (ci : ConstantInfo) × (constant_address raw (calculate_addresses c)
          ≡ some (to_string (pos a)))
        × (get_elem? c.constants i ≡ some ci)
        × (ci.raw_value ≡ raw)
        × Holds code (calculate_addresses c) a (resolve_constant c.labels ci).evaluated_value
  unfolding calculate_addresses constant_address
  constant_line raw i h =
      let (ci, at, is) = b.indexed raw i h in
      let ri : ConstantInfo =
        resolve_constant c.labels (record ci { address = c.next_instr_address + i }) in
      let placed : get_elem? (calculate_addresses c).constants i ≡ some ri =
        get_elem?-resolve_constants c.labels (place_constants c.next_instr_address c.constants) i
          (record ci { address = c.next_instr_address + i })
          (get_elem?-place_constants c.next_instr_address c.constants i ci at) in
      (
        c.next_instr_address + i,
        ci,
        constant_address_at (calculate_addresses c) raw i ri h placed
            ∙ (unfold resolve_constant in refl),
        at,
        is,
        (
          length code + i,
          omega (arith, full, b.counted),
          image_constant code (calculate_addresses c) i _ placed
              ∙ (unfold resolve_constant in refl),
        ),
      )

  length-constants : length (calculate_addresses c).constants ≡ length c.constants
  unfolding calculate_addresses
  length-constants =
      length-resolve_constants c.labels (place_constants c.next_instr_address c.constants)
      ∙ length-place_constants c.next_instr_address c.constants

  length-variables_ordered :
      length (calculate_addresses c).variables_ordered ≡ length c.variables_ordered
  unfolding calculate_addresses
  length-variables_ordered =
      length-place_ordered (c.next_instr_address + length c.constants) c.variables_ordered

  filled :
      c.first_instruction_no + length (image code (calculate_addresses c))
      ≡ (calculate_addresses c).next_instr_address
  filled =
      rw (length-image code (calculate_addresses c), length-constants, length-variables_ordered)
        (unfold calculate_addresses in omega (arith, full, b.counted))

  room_line :
      (a : ℕ)
      → c.next_instr_address + length c.constants ≤ a
      → a < c.next_instr_address + length c.constants + length c.variables_ordered
      → Holds code (calculate_addresses c) a []
  room_line a low high =
      let i = a - (c.next_instr_address + length c.constants) in
      (
        length code + (length (calculate_addresses c).constants + i),
        unfold calculate_addresses in omega (arith, low, full, b.counted, length-constants),
        image_variable code (calculate_addresses c) i
            (omega (arith, low, high, length-variables_ordered)),
      )

  variable_line :
      (name : Bytes) (vi : VariableInfo)
      → lookup name (calculate_addresses c).variables ≡ some vi
      → Holds code (calculate_addresses c) vi.address []
  unfolding calculate_addresses
  variable_line name vi h =
      let (low, high) =
        place_variables_bounds (c.next_instr_address + length c.constants) c.variables_ordered
          c.variables name vi b.once (b.agree name) h in
      room_line vi.address low high

  laid_out : IsLaidOut c code (calculate_addresses c)
  unfolding calculate_addresses
  laid_out = record {
    complete = full;
    instructions = λ k line h. (k, refl, image_instruction code (calculate_addresses c) k line h);
    filled = filled;
    constants = constant_line;
    variables = variable_line;
    distinct = λ x y vi wi hx hy.
        place_variables-injective (c.next_instr_address + length c.constants) c.variables_ordered
          c.variables x y vi wi b.once b.agree hx hy;
    labels = λ name li h. omega (arith, full, b.counted, b.labelled name li h);
  }

steady-IsLaidOut :
    (c : Compiler) (code : List Bytes) (c' : Compiler)
    → IsLaidOut c code (steady c')
    → IsLaidOut c code c'
unfolding image constant_address
steady-IsLaidOut c code c' l = record {
  complete = l.complete;
  instructions = l.instructions;
  filled = l.filled;
  constants = l.constants;
  variables = l.variables;
  distinct = l.distinct;
  labels = l.labels;
}

laid-steady :
    (c : Compiler) (code : List Bytes) (c' : Compiler)
    → IsLaidOut c code c'
    → IsLaidOut c code (steady c')
unfolding image constant_address
laid-steady c code c' l = record {
  complete = l.complete;
  instructions = l.instructions;
  filled = l.filled;
  constants = l.constants;
  variables = l.variables;
  distinct = l.distinct;
  labels = l.labels;
}

pub image-IsLaidOut :
    (c : Compiler)
    → IsBuilt c
    → Leaves (IsLaidOut c) (emit_all c.parsed_instructions (calculate_addresses c))
image-IsLaidOut c b =
    Leaves-map
      (λ code c'.
        (length code ≡ length c.parsed_instructions) × (steady c' ≡ steady (calculate_addresses c)))
      (IsLaidOut c) (emit_all c.parsed_instructions (calculate_addresses c))
      (emit_all-Leaves c.parsed_instructions (calculate_addresses c))
      (λ code c' h. steady-IsLaidOut c code c' (
        subst (IsLaidOut c code) (sym h.1)
          (laid-steady c code (calculate_addresses c) (laid_out c b code h.0))))
