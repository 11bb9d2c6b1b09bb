-- ===== src/Cpu/Strings/Laws.antt =====
-- Splitting and joining columns.
use kagu_os.Prelude.{
  ℕ, zero, suc, false, ◌≡◌, refl, sym, ap, ◌∙◌, ◌≢◌, inl, inr, none, List, [], ◌∷◌, ◌++◌,
  append_assoc, append-nil, arith, ◌==◌, if◌then◌else◌, Bool-cases, get_elem?, set, All, All-append,
  All-set, ℤ, pos, negsuc,
}
use kagu_os.Std.Text.{Bytes, contains_char, is_empty}
use kagu_os.Cpu.Strings.{
  get_column_text, text_or_empty, split, join, is_empty, replace_column_text, set_column, tokens,
  at_column,
}

-- The text that a list of tokens stands for, each behind a separator.
behind : ℕ → List Bytes → Bytes
behind c [] = []
behind c (t ∷ ts) = c ∷ (t ++ behind c ts)

join-behind : (c : ℕ) (t : Bytes) (ts : List Bytes) → join (c ∷ []) (t ∷ ts) ≡ t ++ behind c ts
unfolding join behind
join-behind c t [] = sym (append-nil t)
join-behind c t (u ∷ ts) = ap (λ (r : Bytes). t ++ c ∷ r) (join-behind c u ts)

contains_char_one : (c d : ℕ) → contains_char c (d ∷ []) ≡ (d == c)
unfolding contains_char
contains_char_one c d = ground arith

split-behind :
    (c : ℕ) (s current : Bytes) → behind c (split (c ∷ []) current s) ≡ c ∷ (current ++ s)
unfolding split behind contains_char
split-behind c [] current = refl
split-behind c (d ∷ s) current = ground (
  arith,
  split-behind c s [],
  split-behind c s (current ++ d ∷ []),
  append_assoc current (d ∷ []) s,
)

split-ne-nil : (seps s current : Bytes) → split seps current s ≢ []
unfolding split
split-ne-nil seps [] current e = ground arith
split-ne-nil seps (d ∷ s) current e =
    ground (arith, split-ne-nil seps s [], split-ne-nil seps s (current ++ d ∷ []))

cons-injective : (c : ℕ) (s t : Bytes) → c ∷ s ≡ c ∷ t → s ≡ t
cons-injective c s t e = cc

-- Every token of a split, joined again with the one separator, gives the text back.
pub join-split : (c : ℕ) (s : Bytes) → join (c ∷ []) (split (c ∷ []) [] s) ≡ s
unfolding behind
join-split c s = whole (split (c ∷ []) [] s) (split-ne-nil (c ∷ []) s []) (split-behind c s [])
  where
    whole : (ts : List Bytes) → ts ≢ [] → behind c ts ≡ c ∷ s → join (c ∷ []) ts ≡ s
    whole [] ne e = absurd (ne refl)
    whole (t ∷ ts) ne e = join-behind c t ts ∙ cons-injective c (t ++ behind c ts) s e

-- No token holds the separator.
abbrev pub Lacks : ℕ → Bytes → Type 0
Lacks c = All (λ d. d ≢ c)

split-Lacks :
    (c : ℕ) (s current : Bytes) → Lacks c current → All (Lacks c) (split (c ∷ []) current s)
unfolding split contains_char
split-Lacks c [] current h = (h, tt)
split-Lacks c (d ∷ s) current h = elim (Bool-cases (c == d)) [
  | inl e ↦ rw e (h, split-Lacks c s [] tt)
  | inr e ↦ rw e (
      split-Lacks c s (current ++ d ∷ [])
        (All-append (λ x. x ≢ c) current (d ∷ []) h ((λ q. ground arith), tt)))
]

split-append :
    (c : ℕ) (t rest current : Bytes)
    → Lacks c t
    → split (c ∷ []) current (t ++ rest) ≡ split (c ∷ []) (current ++ t) rest
unfolding split contains_char
split-append c [] rest current h = rw append-nil
split-append c (d ∷ t) rest current (hd, ht) =
    ground (arith, split-append c t rest (current ++ d ∷ []) ht, append_assoc current (d ∷ []) t)

split-sep :
    (c : ℕ) (s current : Bytes) → split (c ∷ []) current (c ∷ s) ≡ current ∷ split (c ∷ []) [] s
unfolding split contains_char
split-sep c s current = ground arith

split_of_behind :
    (c : ℕ) (ts : List Bytes) (current : Bytes)
    → All (Lacks c) ts
    → split (c ∷ []) current (behind c ts) ≡ current ∷ ts
unfolding behind
split_of_behind c [] current h = unfold split in refl
split_of_behind c (t ∷ ts) current (ht, hts) =
    split-sep c (t ++ behind c ts) current
    ∙ ap (λ r. current ∷ r) (split-append c t (behind c ts) [] ht ∙ split_of_behind c ts t hts)

-- Columns that do not hold the separator, one or more of them, are read back from the text in which
-- they are joined with it.
split-join :
    (c : ℕ) (ts : List Bytes)
    → ts ≢ []
    → All (Lacks c) ts
    → split (c ∷ []) [] (join (c ∷ []) ts) ≡ ts
split-join c [] ne h = absurd (ne refl)
split-join c (t ∷ ts) ne (ht, hts) =
    rw (join-behind c t ts) (split-append c t (behind c ts) [] ht ∙ split_of_behind c ts t hts)

set_column-ne-nil :
    (column : ℤ) (d : Bytes) (ts : List Bytes) → ts ≢ [] → set_column column d ts ≢ []
unfolding set_column
set_column-ne-nil column d [] ne e = ne refl
set_column-ne-nil (pos zero) d (t ∷ ts) ne e = ne e
set_column-ne-nil (pos (suc zero)) d (t ∷ ts) ne e = ground arith
set_column-ne-nil (pos (suc (suc n))) d (t ∷ ts) ne e = ground arith
set_column-ne-nil (negsuc n) d (t ∷ ts) ne e = ne e

set-none : (xs : List Bytes) (n : ℕ) (v : Bytes) → get_elem? xs n ≡ none → set xs n v ≡ xs
set-none [] n v h = refl
set-none (x ∷ xs) zero v h = absurd (ground arith)
set-none (x ∷ xs) (suc n) v h = ap (λ ys. x ∷ ys) (set-none xs n v h)

set_column-none :
    (column : ℤ) (d : Bytes) (ts : List Bytes)
    → at_column column ts ≡ none
    → set_column column d ts ≡ ts
unfolding at_column set_column
set_column-none (pos zero) d ts h = refl
set_column-none (pos (suc n)) d ts h = set-none ts n d h
set_column-none (negsuc n) d ts h = refl

set_column-Lacks :
    (c : ℕ) (column : ℤ) (d : Bytes) (ts : List Bytes)
    → Lacks c d
    → All (Lacks c) ts
    → All (Lacks c) (set_column column d ts)
unfolding set_column
set_column-Lacks c (pos zero) d ts h hs = hs
set_column-Lacks c (pos (suc n)) d ts h hs = All-set (Lacks c) ts n d h hs
set_column-Lacks c (negsuc n) d ts h hs = hs

-- ReplaceColumn with one separator: the columns of the result, empty ones counted, are those of the
-- text with the one column replaced, whatever the column; so a column that is not there changes
-- nothing. The new column must not hold the separator.
pub split-replace_column :
    (c : ℕ) (a d : Bytes) (column : ℤ)
    → Lacks c d
    → split (c ∷ []) [] (replace_column_text a column (c ∷ []) d)
      ≡ set_column column d (split (c ∷ []) [] a)
unfolding replace_column_text
split-replace_column c a d column h =
    split-join c (set_column column d (split (c ∷ []) [] a))
      (set_column-ne-nil column d (split (c ∷ []) [] a) (split-ne-nil (c ∷ []) a []))
      (set_column-Lacks c column d (split (c ∷ []) [] a) h (split-Lacks c a [] tt))

-- ReplaceColumn with one separator gives the text back unchanged where the column is not there.
replace_column_outside :
    (c : ℕ) (a d : Bytes) (column : ℤ)
    → at_column column (split (c ∷ []) [] a) ≡ none
    → replace_column_text a column (c ∷ []) d ≡ a
unfolding replace_column_text
replace_column_outside c a d column h =
    rw (set_column-none column d (split (c ∷ []) [] a) h) (join-split c a)

unfoldable pub drop_empty : List Bytes → List Bytes
drop_empty [] = []
drop_empty (t ∷ ts) = if is_empty t then drop_empty ts else t ∷ drop_empty ts

tokens-split : (seps s current : Bytes) → tokens seps current s ≡ drop_empty (split seps current s)
unfolding tokens split drop_empty
tokens-split seps [] current = ground arith
tokens-split seps (d ∷ s) current =
    ground (arith, tokens-split seps s [], tokens-split seps s (current ++ d ∷ []))

-- GetColumn with separators gives the column of that number, counted from 1 among the columns that
-- are not empty, and the empty text where there is no such column. The columns, empty ones included,
-- are those that ReplaceColumn counts, so one number may name two columns in the two operations.
pub get_column-split :
    (a c : Bytes) (column : ℤ)
    → is_empty c ≡ false
    → get_column_text a column c ≡ text_or_empty (at_column column (drop_empty (split c [] a)))
unfolding get_column_text
get_column-split a c column h = rw (h, tokens-split c a []) refl
