-- ===== src/Toolchain/Printed.antt =====
-- The line of an instruction: its code, with a comment behind it where there is one.
use kagu_os.Prelude.{
  ℕ, zero, suc, ◌+◌, ◌-◌, ◌/◌, ◌%◌, ◌≡◌, refl, sym, ap, ◌∙◌, subst, Bool, true, false, some, List,
  [], ◌∷◌, ◌++◌, append-nil, arith, ltb, if◌then◌else◌, if_intro, length, take, replicate, pos,
}
use kagu_os.Asm.State.{ParsedInstruction, Compiler, done, continue}
use kagu_os.Asm.Lexer.{Lexeme}
use kagu_os.Std.Text.{Bytes, find, contains_char, strip_prefix, is_empty, codes, drop}
use kagu_os.Std.Number.{to_string, decimal_loop}
use kagu_os.Asm.Emit.{
  with_debug, add_word, emit_instruction, emit_lexemes, command_of, eval_lexeme, eval_debug_info,
  position_of,
}
use kagu_os.Asm.Compile.{align_comment}
use kagu_os.Toolchain.Code.{Tail, bare, comment}

-- The line of an instruction in the image.
abbrev pub final_line : Bool → Bytes → Bytes
final_line on line = if on then align_comment line else line

decimal_loop-no_hash :
    (f n : ℕ) (out : Bytes)
    → contains_char 35 out ≡ false
    → contains_char 35 (decimal_loop f n out) ≡ false
unfolding decimal_loop contains_char
decimal_loop-no_hash zero n out h = h
decimal_loop-no_hash (suc f) n out h =
    ground (arith, decimal_loop-no_hash f (n / 10) ((48 + n % 10) ∷ out))

pub to_string-no_hash : (n : ℕ) → contains_char 35 (to_string (pos n)) ≡ false
unfolding to_string
to_string-no_hash n = decimal_loop-no_hash (suc n) n [] (unfold contains_char in refl)

pub no_hash-append :
    (s t : Bytes)
    → contains_char 35 s ≡ false
    → contains_char 35 t ≡ false
    → contains_char 35 (s ++ t) ≡ false
unfolding contains_char
no_hash-append [] t h k = k
no_hash-append (c ∷ s) t h k = ground (arith, no_hash-append s t, h, k)

find_hash :
    (p d : Bytes)
    → contains_char 35 p ≡ false
    → find (35 ∷ []) (p ++ 32 ∷ 35 ∷ d) ≡ some (suc (length p))
unfolding find contains_char strip_prefix
find_hash [] d h = refl
find_hash (c ∷ p) d h = ground (arith, find_hash p d, h)

take_front : (p x : Bytes) → take (suc (length p)) (p ++ 32 ∷ x) ≡ p ++ 32 ∷ []
take_front [] x = refl
take_front (c ∷ p) x = ap (λ s. c ∷ s) (take_front p x)

append_front : (p x : Bytes) → (p ++ 32 ∷ []) ++ x ≡ p ++ 32 ∷ x
append_front [] x = refl
append_front (c ∷ p) x = ap (λ s. c ∷ s) (append_front p x)

-- The code stays in front, and a blank behind it.
align_front :
    (p d : Bytes)
    → contains_char 35 p ≡ false
    → (u : Bytes) × (align_comment (p ++ 32 ∷ 35 ∷ d) ≡ p ++ 32 ∷ u)
unfolding align_comment
align_front p d h =
    let rest = replicate (15 - suc (length p)) 32 ++ drop (suc (length p)) (p ++ 32 ∷ 35 ∷ d) in
    rw (find_hash p d h) (
      if_intro (λ (s : Bytes). (u : Bytes) × (s ≡ p ++ 32 ∷ u)) (ltb (suc (length p)) 15) _ _
        (λ _. (rest, ap (λ (s : Bytes). s ++ rest) (take_front p (35 ∷ d)) ∙ append_front p rest))
        (λ _. (35 ∷ d, refl)))

printed :
    (on : Bool) (p d : Bytes)
    → contains_char 35 p ≡ false
    → (t : Bytes) × Tail t × (final_line on (with_debug on (p, 35 ∷ d)) ≡ p ++ t)
printed true p d h = let (u, e) = align_front p d h in (32 ∷ u, comment u, e)
printed false p d h = ([], bare, sym (append-nil p))

abbrev Hash : Bytes → Type 0
Hash d = (e : Bytes) × (d ≡ 35 ∷ e)

add_word-Hash : (d w : Bytes) → Hash d → Hash (add_word d w)
add_word-Hash d w (e, h) =
    subst (λ x. Hash (add_word x w)) (sym h)
      (if_intro Hash (is_empty w) _ _ (λ _. (e ++ w, refl)) (λ _. (e ++ 32 ∷ w, refl)))

-- The words that some lexemes are printed as.
abbrev pub Evals : Bytes → ℕ → List Lexeme → List Bytes → Compiler → Type 0
Evals cmd i [] [] c = Unit
Evals cmd i [] (w ∷ ws) c = ⊥
Evals cmd i (lex ∷ ls) [] c = ⊥
Evals cmd i (lex ∷ ls) (w ∷ ws) c =
    (eval_lexeme lex (position_of cmd i) c ≡ done w c) × Evals cmd (i + 1) ls ws c

abbrev pub joined_words : Bytes → List Bytes → Bytes
joined_words res [] = res
joined_words res (w ∷ ws) = joined_words (add_word res w) ws

emit_words :
    (cmd : Bytes) (i : ℕ) (ls : List Lexeme) (ws : List Bytes) (res d : Bytes) (c : Compiler)
    → Evals cmd i ls ws c
    → Hash d
    → (e : Bytes) × (emit_lexemes cmd i ls res d c ≡ done (joined_words res ws, 35 ∷ e) c)
unfolding emit_lexemes
emit_words cmd i [] [] res d c h (e, k) = (e, ap (λ (x : Bytes). done (res, x) c) k)
emit_words cmd i [] (w ∷ ws) res d c h k = elim h [ ]
emit_words cmd i (lex ∷ ls) [] res d c h k = elim h [ ]
emit_words cmd i (lex ∷ ls) (w ∷ ws) res d c (h, hs) k =
    let d' = add_word d (eval_debug_info lex (position_of cmd i)) in
    let (e, ends) =
      emit_words cmd (i + 1) ls ws (add_word res w) d' c hs
        (add_word-Hash d (eval_debug_info lex (position_of cmd i)) k) in
    (e, ap (continue (λ word. emit_lexemes cmd (i + 1) ls (add_word res word) d')) h ∙ ends)

-- The state in which an instruction is printed.
abbrev pub at_instruction : ParsedInstruction → Compiler → Compiler
at_instruction instr c = record c {
  current_file = instr.source_file;
  current_line_no = instr.line_number;
  current_line = [];
}

-- The line of an instruction is its words, and what may stand behind code.
pub instruction_line :
    (instr : ParsedInstruction) (ws : List Bytes) (c : Compiler)
    → Evals (command_of instr.lexemes) 0 instr.lexemes ws (at_instruction instr c)
    → contains_char 35 (joined_words [] ws) ≡ false
    → (line t : Bytes) × (emit_instruction instr c ≡ done line (at_instruction instr c))
      × Tail t
      × (final_line c.debug_info line ≡ joined_words [] ws ++ t)
unfolding emit_instruction
instruction_line instr ws c h k =
    let (e, ends) =
      emit_words (command_of instr.lexemes) 0 instr.lexemes ws [] (codes "# ")
        (at_instruction instr c) h (32 ∷ [], refl) in
    let (t, tail, is) = printed c.debug_info (joined_words [] ws) e k in
    (
      with_debug c.debug_info (joined_words [] ws, 35 ∷ e),
      t,
      ap (continue (λ parts c'. done (with_debug c'.debug_info parts) c')) ends,
      tail,
      is,
    )
