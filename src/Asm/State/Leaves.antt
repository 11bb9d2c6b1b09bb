-- ===== src/Asm/State/Leaves.antt =====
-- What holds of the state that an action of the assembler leaves, unless the program has left.
use kagu_os.Prelude.{◌+◌, ◌++◌, ltb, if_intro}
use kagu_os.Std.Text.{Bytes}
use kagu_os.Asm.State.{
  Compiler, Outcome, done, exited, compilation_error, Bytes, continue, error_text,
}

abbrev pub Leaves {ℓ} : {A : Type ℓ} → (A → Compiler → Type 0) → Outcome A → Type 0
Leaves P (done a c) = P a c
Leaves P (exited c) = Unit

pub Leaves-map {ℓ} :
    {A : Type ℓ} (P Q : A → Compiler → Type 0) (o : Outcome A)
    → Leaves P o
    → ((a : A) (c : Compiler) → P a c → Q a c)
    → Leaves Q o
Leaves-map P Q (done a c) h k = k a c h
Leaves-map P Q (exited c) h k = tt

module _ {ℓ κ} {A : Type ℓ} {B : Type κ} (P : A → Compiler → Type 0)
    (Q : B → Compiler → Type 0) where
  pub Leaves-continue :
      (f : A → Compiler → Outcome B) (o : Outcome A)
      → Leaves P o
      → ((a : A) (c : Compiler) → P a c → Leaves Q (f a c))
      → Leaves Q (continue f o)
  Leaves-continue f (done a c) h k = k a c h
  Leaves-continue f (exited c) h k = tt

-- An error changes the count and the text of the errors, and nothing else.
pub compilation_error-Leaves :
    (P : Compiler → Type 0) (syntax info : Bytes) (c : Compiler)
    → ((err : Bytes)
        → P (record c { compilation_error_count = c.compilation_error_count + 1; err = err }))
    → Leaves (λ (_ : Unit {0}) c'. P c') (compilation_error syntax info c)
unfolding compilation_error
compilation_error-Leaves P syntax info c h =
    if_intro (Leaves (λ (_ : Unit {0}) c'. P c')) (ltb 20 (c.compilation_error_count + 1)) _ _
      (λ _. tt) (λ _. h (c.err ++ error_text syntax info c))
