-- ===== src/Std/Stream/Words.antt =====
-- The words of a text that holds printed numbers between blanks.
use kagu_os.Prelude.{
  ℕ, zero, suc, ◌+◌, ◌/◌, ◌%◌, ◌≡◌, refl, sym, ap, ◌∙◌, Bool, true, false, ◌&&◌, not, [], ◌∷◌, ◌++◌,
  append-nil, arith, ℤ, pos, negsuc,
}
use kagu_os.Std.Text.{Bytes, is_empty, is_space}
use kagu_os.Std.Stream.{drop_word, read_word, word, is_space}
use kagu_os.Std.Number.{decimal_loop, drop_space, to_string, decimal}

unfoldable pub has_no_space : Bytes → Bool
has_no_space [] = true
has_no_space (c ∷ s) = not (is_space c) && has_no_space s

decimal_loop-has_no_space :
    (f n : ℕ) (out : Bytes) → has_no_space out ≡ true → has_no_space (decimal_loop f n out) ≡ true
unfolding decimal_loop has_no_space
decimal_loop-has_no_space zero n out h = h
decimal_loop-has_no_space (suc f) n out h =
    ground (arith, decimal_loop-has_no_space f (n / 10) ((48 + n % 10) ∷ out))

pub to_string-has_no_space : (z : ℤ) → has_no_space (to_string z) ≡ true
unfolding to_string decimal has_no_space
to_string-has_no_space (pos n) = decimal_loop-has_no_space (suc n) n [] refl
to_string-has_no_space (negsuc n) = decimal_loop-has_no_space (suc (suc n)) (suc n) [] refl

word-append : (w rest : Bytes) → has_no_space w ≡ true → word (w ++ 32 ∷ rest) ≡ w
unfolding word has_no_space
word-append [] rest h = refl
word-append (c ∷ w) rest h = ground (arith, word-append w rest)

drop_word-append : (w rest : Bytes) → has_no_space w ≡ true → drop_word (w ++ 32 ∷ rest) ≡ 32 ∷ rest
unfolding drop_word has_no_space
drop_word-append [] rest h = refl
drop_word-append (c ∷ w) rest h = ground (arith, drop_word-append w rest)

drop_space-append :
    (w rest : Bytes)
    → has_no_space w ≡ true
    → is_empty w ≡ false
    → drop_space (w ++ rest) ≡ w ++ rest
unfolding drop_space has_no_space
drop_space-append [] rest h e = cc
drop_space-append (c ∷ w) rest h e = ground arith

-- The first word of a text that begins with one.
pub read_word-append :
    (w rest : Bytes)
    → has_no_space w ≡ true
    → is_empty w ≡ false
    → read_word (w ++ 32 ∷ rest) ≡ (w, 32 ∷ rest)
unfolding read_word
read_word-append w rest h e =
    rw (drop_space-append w (32 ∷ rest) h e, word-append w rest h, drop_word-append w rest h)

word_all : (w : Bytes) → has_no_space w ≡ true → (word w ≡ w) × (drop_word w ≡ [])
unfolding word drop_word has_no_space
word_all [] h = (refl, refl)
word_all (c ∷ w) h = ground (arith, word_all w)

-- A text that is one word is read whole.
pub read_word-end : (w : Bytes) → has_no_space w ≡ true → is_empty w ≡ false → read_word w ≡ (w, [])
unfolding read_word
read_word-end w h e =
    let whole : drop_space w ≡ w =
      ap drop_space (sym (append-nil w)) ∙ drop_space-append w [] h e ∙ append-nil w in
    rw (whole, (word_all w h).0, (word_all w h).1) refl

-- A blank in front of a word is skipped.
pub read_word-blank : (s : Bytes) → read_word (32 ∷ s) ≡ read_word s
unfolding read_word drop_space
read_word-blank s = refl
