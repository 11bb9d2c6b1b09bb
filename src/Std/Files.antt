-- ===== src/Std/Files.antt =====
-- Files as `std::ifstream` and `std::ofstream` see them: a path names a text or nothing, and a path
-- may refuse to be opened for writing.
use kagu_os.Prelude.{
  ℕ, ◌≡◌, refl, ◌≢◌, inl, inr, Bool, Option, some, List, [], ◌∷◌, ◌++◌, arith, ◌==◌, if◌then◌else◌,
  Bool-cases, All,
}
use kagu_os.Std.Text.{Bytes, beq, beq_refl}

pub record Files : Type 0 where
  pub content : Bytes → Option Bytes
  pub writable : Bytes → Bool

abbrev pub newline : ℕ
newline = 10

put_char : ℕ → List Bytes → List Bytes
put_char c [] = (c ∷ []) ∷ []
put_char c (l ∷ ls) = (c ∷ l) ∷ ls

-- The lines that a loop over `std::getline` reads. A newline ends a line, and so does the end of
-- the file where a character stands before it.
unfoldable pub lines : Bytes → List Bytes
unfolding put_char
lines [] = []
lines (c ∷ s) = if c == newline then [] ∷ lines s else put_char c (lines s)

-- Each line written with a newline behind it.
unfoldable pub unlines : List Bytes → Bytes
unlines [] = []
unlines (l ∷ ls) = l ++ newline ∷ unlines ls

-- The files after one of them has been replaced.
unfoldable pub replace_file : Bytes → Bytes → Files → Files
replace_file path text fs = record fs {
  content = λ p. if beq path p then some text else fs.content p;
}

pub content-replace_file :
    (path text : Bytes) (fs : Files) → (replace_file path text fs).content path ≡ some text
unfolding replace_file
content-replace_file path text fs = rw (beq_refl path)

abbrev pub IsLine : Bytes → Type 0
IsLine = All (λ c. c ≢ newline)

lines-line : (l rest : Bytes) → IsLine l → lines (l ++ newline ∷ rest) ≡ l ∷ lines rest
unfolding lines
lines-line [] rest h = refl
lines-line (c ∷ l) rest (hc, hl) = ground (arith, lines-line l rest hl)

-- Lines that hold no newline are read back as they were written.
pub lines-unlines : (ls : List Bytes) → All IsLine ls → lines (unlines ls) ≡ ls
unfolding unlines
lines-unlines [] h = unfold lines in refl
lines-unlines (l ∷ ls) (hl, hls) = rw (lines-line l (unlines ls) hl, lines-unlines ls hls)

put_char-IsLine :
    (c : ℕ) (ls : List Bytes) → c ≢ newline → All IsLine ls → All IsLine (put_char c ls)
unfolding put_char
put_char-IsLine c [] h hs = ((h, tt), tt)
put_char-IsLine c (l ∷ ls) h (hl, hls) = ((h, hl), hls)

-- A line that is read holds no newline.
pub lines-IsLine : (s : Bytes) → All IsLine (lines s)
unfolding lines
lines-IsLine [] = tt
lines-IsLine (c ∷ s) = elim (Bool-cases (c == newline)) [
  | inl h ↦ rw h (tt, lines-IsLine s)
  | inr h ↦ rw h (put_char-IsLine c (lines s) (λ e. ground arith) (lines-IsLine s))
]
