-- ===== src/Asm/Compile/Rows.antt =====
-- The parts of an image: code, values and empty lines.
use kagu_os.Prelude.{
  ℕ, zero, suc, ◌+◌, ◌<◌, ◌≡◌, refl, ap, Bool, if◌then◌else◌, Option, none, some, List, [], ◌∷◌,
  ◌++◌, arith, length, get_elem?,
}
use kagu_os.Std.Text.{Bytes}
use kagu_os.Asm.State.{ConstantInfo, VariableInfo}
use kagu_os.Asm.Compile.{align_all, align_comment, values, blank_lines}

pub get_elem?-append_right {ℓ} :
    {A : Type ℓ} (xs ys : List A) (i : ℕ) → get_elem? (xs ++ ys) (length xs + i) ≡ get_elem? ys i
get_elem?-append_right [] ys i = ground arith
get_elem?-append_right (x ∷ xs) ys i = rw (suc_add (length xs) i) (get_elem?-append_right xs ys i)
  where
    suc_add : (m n : ℕ) → suc m + n ≡ suc (m + n)
    suc_add m n = omega arith

pub length-align_all : (on : Bool) (ls : List Bytes) → length (align_all on ls) ≡ length ls
length-align_all on [] = refl
length-align_all on (l ∷ ls) = ap suc (length-align_all on ls)

pub get_elem?-align_all :
    (on : Bool) (ls : List Bytes) (i : ℕ) (line : Bytes)
    → get_elem? ls i ≡ some line
    → get_elem? (align_all on ls) i ≡ some (if on then align_comment line else line)
get_elem?-align_all on [] i line h = cc
get_elem?-align_all on (l ∷ ls) zero line h =
    ap
      (λ (o : Option Bytes). elim o [
        | none ↦ none
        | some l ↦ some (if on then align_comment l else l)
      ])
      h
get_elem?-align_all on (l ∷ ls) (suc i) line h = get_elem?-align_all on ls i line h

pub length-values : (cs : List ConstantInfo) → length (values cs) ≡ length cs
length-values [] = refl
length-values (ci ∷ cs) = ap suc (length-values cs)

pub get_elem?-values :
    (cs : List ConstantInfo) (i : ℕ) (ci : ConstantInfo)
    → get_elem? cs i ≡ some ci
    → get_elem? (values cs) i ≡ some ci.evaluated_value
get_elem?-values [] i ci h = cc
get_elem?-values (d ∷ cs) zero ci h = cc
get_elem?-values (d ∷ cs) (suc i) ci h = get_elem?-values cs i ci h

pub length-blank_lines : (vs : List (Bytes × VariableInfo)) → length (blank_lines vs) ≡ length vs
length-blank_lines [] = refl
length-blank_lines (v ∷ vs) = ap suc (length-blank_lines vs)

pub get_elem?-blank_lines :
    (vs : List (Bytes × VariableInfo)) (i : ℕ)
    → i < length vs
    → get_elem? (blank_lines vs) i ≡ some []
get_elem?-blank_lines [] i h = absurd (omega arith)
get_elem?-blank_lines (v ∷ vs) zero h = refl
get_elem?-blank_lines (v ∷ vs) (suc i) h = get_elem?-blank_lines vs i (omega arith)
