-- ===== src/Asm/Layout.antt =====
-- `calculateAddresses` of compiler.cpp: the constants stand behind the instructions, and the
-- variables behind the constants.
pub mod Addresses
use kagu_os.Prelude.{ℕ, ◌+◌, Option, none, some, List, [], ◌∷◌, length, pos}
use kagu_os.Std.Number.{to_string}
use kagu_os.Std.Text.{Bytes, strip_prefix, codes}
use kagu_os.Std.Map.{lookup, insert}
use kagu_os.Asm.State.{Compiler, ConstantInfo, VariableInfo, LabelInfo}

unfoldable pub place_constants : ℕ → List ConstantInfo → List ConstantInfo
place_constants start [] = []
place_constants start (ci ∷ rest) = record ci { address = start } ∷ place_constants (start + 1) rest

unfoldable pub place_ordered : ℕ → List (Bytes × VariableInfo) → List (Bytes × VariableInfo)
place_ordered start [] = []
place_ordered start ((name, vi) ∷ rest) =
    (name, record vi { address = start }) ∷ place_ordered (start + 1) rest

abbrev blank_variable : VariableInfo
blank_variable = record { address = 0; declaration_address = 0; declaration_line = 0; file = [] }

abbrev pub variable_or_blank : Option VariableInfo → VariableInfo
variable_or_blank none = blank_variable
variable_or_blank (some vi) = vi

-- `variables_[name].address = start + i`
unfoldable pub place_variables :
    ℕ → List (Bytes × VariableInfo) → List (Bytes × VariableInfo) → List (Bytes × VariableInfo)
unfolding lookup insert
place_variables start [] variables = variables
place_variables start ((name, vi) ∷ rest) variables =
    place_variables (start + 1) rest (
      insert name (record (variable_or_blank (lookup name variables)) { address = start })
        variables)

-- The value of a constant that stands for a label, where the label is known.
abbrev label_value : Bytes → Option LabelInfo → Bytes
label_value old none = old
label_value old (some li) = to_string (pos li.address)

abbrev evaluated : ConstantInfo → List (Bytes × LabelInfo) → Option Bytes → Bytes
evaluated ci labels none = ci.evaluated_value
evaluated ci labels (some name) = label_value ci.evaluated_value (lookup name labels)

unfoldable pub resolve_constant : List (Bytes × LabelInfo) → ConstantInfo → ConstantInfo
unfolding strip_prefix lookup
resolve_constant labels ci = record ci {
  evaluated_value = evaluated ci labels (strip_prefix (codes "LABEL:") ci.raw_value);
}

unfoldable pub resolve_constants : List (Bytes × LabelInfo) → List ConstantInfo → List ConstantInfo
unfolding resolve_constant
resolve_constants labels [] = []
resolve_constants labels (ci ∷ rest) = resolve_constant labels ci ∷ resolve_constants labels rest

-- `calculateAddresses`
unfoldable pub calculate_addresses : Compiler → Compiler
unfolding place_constants place_ordered place_variables resolve_constants
calculate_addresses c =
    let variables_start = c.next_instr_address + length c.constants in
    record c {
      constants = resolve_constants c.labels (place_constants c.next_instr_address c.constants);
      variables = place_variables variables_start c.variables_ordered c.variables;
      variables_ordered = place_ordered variables_start c.variables_ordered;
      next_instr_address = variables_start + length c.variables_ordered;
    }
