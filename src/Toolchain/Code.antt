-- ===== src/Toolchain/Code.antt =====
-- Printed code, as the processor decodes it.
use kagu_os.Prelude.{
  ℕ, ◌^◌, ◌<◌, ◌≡◌, refl, sym, ap, ◌∙◌, true, false, Option, none, some, [], ◌∷◌, ◌++◌, append-nil,
  arith, ℤ, pos,
}
use kagu_os.Std.Number.RoundTrip.{
  to_string-digit, is_empty-to_string, stoi-to_string, stoi-to_string_rest,
}
use kagu_os.Kagu.Opcodes.{instruction_of}
use kagu_os.Std.Text.{Bytes, is_empty, find, codes, strip_prefix}
use kagu_os.Std.Fault.{ok, cpu_exception}
use kagu_os.Std.Number.{to_string, fits_int, starts_with_digit}
use kagu_os.Std.Stream.{read_word, read_stream_int, read_stream_int-to_string}
use kagu_os.Std.Stream.Words.{
  has_no_space, read_word-append, read_word-end, read_word-blank, to_string-has_no_space,
}
use kagu_os.Ram.{store, reading, writing, locate}
use kagu_os.Cpu.Control.Plain.{resolve_plain, copy_plain}
use kagu_os.Cpu.Float.{FloatOps}
use kagu_os.Cpu.Machine.{Machine, jump, raise, Exec, continue}
use kagu_os.Cpu.Machine.Runs.{Runs, with_ram}
use kagu_os.Cpu.Control.{execute_copy, behind_blank}
use kagu_os.Cpu.Step.{execute_instruction, dispatch}
use kagu_os.Kagu.Opcodes

-- What may stand behind the code of a line: nothing, or a blank and any comment.
pub data Tail : Bytes → Type 0 where
  bare : Tail []
  comment : (s : Bytes) → Tail (32 ∷ s)

tail-digit : (t : Bytes) → Tail t → starts_with_digit t ≡ false
tail-digit t bare = refl
tail-digit t (comment s) = refl

read_word-tail :
    (w t : Bytes)
    → Tail t
    → has_no_space w ≡ true
    → is_empty w ≡ false
    → read_word (w ++ t) ≡ (w, t)
read_word-tail w t bare h e = rw (append-nil w) (read_word-end w h e)
read_word-tail w t (comment s) h e = read_word-append w s h e

int_small : (n : ℕ) → n < 2 ^ 31 → fits_int (pos n) ≡ true
unfolding fits_int
int_small n h = ground arith

code_then_blank :
    (c : ℕ) (n : ℕ) (s : Bytes)
    → to_string (pos n) ≡ c ∷ []
    → n < 2 ^ 31
    → read_stream_int (c ∷ 32 ∷ s) ≡ some (pos n, 32 ∷ s)
code_then_blank c n s e small =
    ap (λ w. read_stream_int (w ++ 32 ∷ s)) (sym e)
    ∙ read_stream_int-to_string (pos n) (32 ∷ s) (int_small n small) refl

digit-append : (a : ℕ) (t : Bytes) → starts_with_digit (to_string (pos a) ++ t) ≡ true
digit-append a t = starts_append (to_string (pos a)) t (to_string-digit a)
  where
    starts_append : (s t : Bytes) → starts_with_digit s ≡ true → starts_with_digit (s ++ t) ≡ true
    starts_append [] t h = cc
    starts_append (c ∷ s) t h = h

module _ (float : FloatOps) where
  decode :
      (line rest : Bytes) (k : ℕ)
      → read_stream_int line ≡ some (pos k, rest)
      → execute_instruction float line ≡ dispatch float (instruction_of (pos k)) line rest
  unfolding execute_instruction
  decode line rest k e =
      ap
        (λ (o : Option (ℤ × Bytes)). elim o [
          | none ↦ raise (cpu_exception (codes "Invalid instruction format: " ++ line))
          | some (code, rest) ↦ dispatch float (instruction_of code) line rest
        ])
        e

  two_words :
      (line rest rest' rest'' src dest : Bytes)
      → read_word rest ≡ (src, rest')
      → read_word rest' ≡ (dest, rest'')
      → is_empty src ≡ false
      → is_empty dest ≡ false
      → dispatch float (some Opcodes.copy_from_to_address) line rest ≡ execute_copy src dest
  unfolding dispatch
  two_words line rest rest' rest'' src dest r1 r2 es ed = rw (r1, r2, es, ed) refl

module _ (float : FloatOps) (t : Bytes) (tail : Tail t) where
  copy_line :
      (src dest : Bytes)
      → has_no_space src ≡ true
      → is_empty src ≡ false
      → has_no_space dest ≡ true
      → is_empty dest ≡ false
      → execute_instruction float (b'1' ∷ 32 ∷ (src ++ 32 ∷ (dest ++ t))) ≡ execute_copy src dest
  unfolding instruction_of
  copy_line src dest hs es hd ed =
      decode float (b'1' ∷ 32 ∷ (src ++ 32 ∷ (dest ++ t))) (32 ∷ (src ++ 32 ∷ (dest ++ t))) 1
        (code_then_blank b'1' 1 (src ++ 32 ∷ (dest ++ t)) (unfold to_string in refl) (omega arith))
      ∙ two_words float (b'1' ∷ 32 ∷ (src ++ 32 ∷ (dest ++ t))) (32 ∷ (src ++ 32 ∷ (dest ++ t)))
          (32 ∷ (dest ++ t)) t src dest
          (read_word-blank (src ++ 32 ∷ (dest ++ t)) ∙ read_word-append src (dest ++ t) hs es)
          (read_word-blank (dest ++ t) ∙ read_word-tail dest t tail hd ed) es ed

  -- A line of code that jumps to an address is a jump to that address.
  pub jump_line :
      (a : ℕ) (m : Machine)
      → a < 2 ^ 31
      → execute_instruction float (b'2' ∷ 32 ∷ (to_string (pos a) ++ t)) m ≡ jump (pos a) m
  unfolding instruction_of dispatch behind_blank find strip_prefix
  jump_line a m small =
      ap (λ (x : Exec (Unit {0})). x m)
        (decode float (b'2' ∷ 32 ∷ (to_string (pos a) ++ t)) (32 ∷ (to_string (pos a) ++ t)) 2 (
          code_then_blank b'2' 2 (to_string (pos a) ++ t) (unfold to_string in refl) (omega arith)))
      ∙ ap (continue jump) (
          resolve_plain (to_string (pos a) ++ t) (pos a) m (digit-append a t)
            (stoi-to_string_rest (pos a) t (int_small a small) (tail-digit t tail)))

  -- A line of code that copies from an address to an address copies the one cell to the other.
  pub copy_line-Runs :
      (a d p q : ℕ) (m : Machine)
      → a < 2 ^ 31
      → d < 2 ^ 31
      → locate reading (pos a) m.ram ≡ ok p
      → locate writing (pos d) m.ram ≡ ok q
      → Runs
          (execute_instruction float
            (b'1' ∷ 32 ∷ (to_string (pos a) ++ 32 ∷ (to_string (pos d) ++ t))))
          m
          tt
          (with_ram m (store q (m.ram.cells p) m.ram))
  copy_line-Runs a d p q m sa sd ra wd =
      ap (λ (x : Exec (Unit {0})). x m)
        (copy_line (to_string (pos a)) (to_string (pos d)) (to_string-has_no_space (pos a))
          (is_empty-to_string (pos a)) (to_string-has_no_space (pos d))
          (is_empty-to_string (pos d)))
      ∙ copy_plain (to_string (pos a)) (to_string (pos d)) a d p q m (to_string-digit a)
          (to_string-digit d) (stoi-to_string (pos a) (int_small a sa))
          (stoi-to_string (pos d) (int_small d sd)) ra wd
