-- ===== src/Cpu/Strings.antt =====
-- The string operations of cpu.cpp, as functions from the operands' texts.
pub mod Laws
use kagu_os.Prelude.{
  ℕ, zero, suc, ◌+◌, Option, none, some, List, [], ◌∷◌, ◌++◌, if◌then◌else◌, get_elem?, set, ℤ, pos,
  negsuc,
}
use kagu_os.Std.Text.{Bytes, contains_char, is_empty, find, strip_prefix}

-- The element at a column, which counts from 1.
unfoldable pub at_column {ℓ} : {A : Type ℓ} → ℤ → List A → Option A
at_column (pos zero) xs = none
at_column (pos (suc n)) xs = get_elem? xs n
at_column (negsuc n) xs = none

-- The same list with the element at a column replaced, if there is one.
unfoldable pub set_column {ℓ} : {A : Type ℓ} → ℤ → A → List A → List A
set_column (pos zero) v xs = xs
set_column (pos (suc n)) v xs = set xs n v
set_column (negsuc n) v xs = xs

-- The loop of `execGetColumn`: tokens between separators, empty ones left out.
unfoldable pub tokens : Bytes → Bytes → Bytes → List Bytes
tokens seps current [] = if is_empty current then [] else current ∷ []
tokens seps current (c ∷ s) =
    let cut = if is_empty current then tokens seps [] s else current ∷ tokens seps [] s in
    let go_on = tokens seps (current ++ c ∷ []) s in if contains_char c seps then cut else go_on

-- The loop of `execReplaceColumn`: every token between separators, empty ones too.
unfoldable pub split : Bytes → Bytes → Bytes → List Bytes
split seps current [] = current ∷ []
split seps current (c ∷ s) =
    let cut = current ∷ split seps [] s in
    let go_on = split seps (current ++ c ∷ []) s in if contains_char c seps then cut else go_on

-- The tokens with the text of the separators between them.
unfoldable pub join : Bytes → List Bytes → Bytes
join sep [] = []
join sep (t ∷ []) = t
join sep (t ∷ u ∷ ts) = t ++ (sep ++ join sep (u ∷ ts))

-- `execContains`: the position, which counts from 1
unfoldable pub contains_text : Bytes → Bytes → Option ℕ
unfolding find
contains_text a b = elim (find b a) [ none ↦ none | some n ↦ some (n + 1) ]

-- `execStartsWith`: the text behind the prefix
unfoldable pub starts_with_text : Bytes → Bytes → Option Bytes
unfolding strip_prefix
starts_with_text a b = strip_prefix b a

abbrev pub text_or_empty : Option Bytes → Bytes
text_or_empty none = []
text_or_empty (some t) = t

abbrev char_or_empty : Option ℕ → Bytes
char_or_empty none = []
char_or_empty (some c) = c ∷ []

-- `execGetColumn`, once the column has been read as a number
unfoldable pub get_column_text : Bytes → ℤ → Bytes → Bytes
unfolding at_column tokens
get_column_text a column c =
    if is_empty c
    then char_or_empty (at_column column a)
    else text_or_empty (at_column column (tokens c [] a))

abbrev first_or_blank : Bytes → ℕ
first_or_blank [] = 32
first_or_blank (c ∷ s) = c

-- `execReplaceColumn`, once the column has been read as a number
unfoldable pub replace_column_text : Bytes → ℤ → Bytes → Bytes → Bytes
unfolding set_column split join
replace_column_text a column c d =
    if is_empty c
    then set_column column (first_or_blank d) a
    else join c (set_column column d (split c [] a))

-- `execConcatWith`
unfoldable pub concat_with_text : Bytes → Bytes → Bytes → Bytes
concat_with_text a b c = a ++ c ++ b
