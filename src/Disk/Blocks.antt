-- ===== src/Disk/Blocks.antt =====
-- The blocks of a disk as a map from numbers to texts: what a write leaves for later reads.
use kagu_os.Prelude.{
  ℕ, zero, suc, ◌-◌, ◌≡◌, refl, sym, ap, ◌∙◌, subst, ◌≢◌, Bool, true, false, ◌||◌, Option, none,
  some, List, [], ◌∷◌, arith, if◌then◌else◌, get_elem?, set, pad, length-pad, get_elem?-set_self,
  get_elem?-set_ne, All, get_elem?-pad, All-pad, All-set, ℤ, pos_part, ◌≤ℤ◌, ltb_ℤ, leb_ℤ, pos,
  negsuc,
}
use kagu_os.Std.Text.{Bytes}
use kagu_os.Std.Fault.{ok, ◌>>=◌, >>=-eq-ok}
use kagu_os.Std.Number.{stoi}
use kagu_os.Std.Files.{
  Files, lines, unlines, replace_file, IsLine, lines-IsLine, content-replace_file, lines-unlines,
}
use kagu_os.Disk.{
  Disk, disk_path, write_lines, set_line, save, write_block, read_block, read_lines, write_content,
  read_content,
}

get-set_line_self :
    (k : ℕ) (text : Bytes) (ls : List Bytes) → get_elem? (set_line k text ls) k ≡ some text
unfolding set_line
get-set_line_self k text ls =
    get_elem?-set_self (pad ls (suc k) []) k text (length-pad ls (suc k) [])

get-set_line_ne :
    (k j : ℕ) (text line : Bytes) (ls : List Bytes)
    → k ≢ j
    → get_elem? ls j ≡ some line
    → get_elem? (set_line k text ls) j ≡ some line
unfolding set_line
get-set_line_ne k j text line ls ne h =
    get_elem?-set_ne (pad ls (suc k) []) k j text ne ∙ get_elem?-pad ls (suc k) [] j line h

set_line-IsLine :
    (k : ℕ) (text : Bytes) (ls : List Bytes)
    → IsLine text
    → All IsLine ls
    → All IsLine (set_line k text ls)
unfolding set_line
set_line-IsLine k text ls h hs =
    All-set IsLine (pad ls (suc k) []) k text h (All-pad IsLine ls (suc k) [] tt hs)

-- The state of a disk on which a block could be written, and what the write left.
record Written (d : Disk) (name : Bytes) (n : ℤ) (text : Bytes) (fs fs' : Files) : Type 0 where
  old : Bytes
  header : Bytes
  rest : List Bytes
  count : ℤ
  index : ℕ
  was : fs.content (disk_path d name) ≡ some old
  split : lines old ≡ header ∷ rest
  counted : stoi header ≡ ok count
  number : n ≡ pos (suc (suc index))
  below : pos (suc (suc (suc index))) ≤ℤ count
  now : fs' ≡ replace_file (disk_path d name) (unlines (header ∷ set_line index text rest)) fs

saved :
    (path : Bytes) (w : Option (List Bytes)) (fs fs' : Files)
    → save path w fs ≡ (true, fs')
    → (ls : List Bytes) × (w ≡ some ls) × (fs' ≡ replace_file path (unlines ls) fs)
saved path none fs fs' h = absurd (ground arith)
saved path (some ls) fs fs' h = (ls, refl, ground arith)

set_line-cons :
    (k : ℕ) (text header : Bytes) (rest : List Bytes)
    → set_line (suc (suc k) - 1) text (header ∷ rest) ≡ header ∷ set_line k text rest
set_line-cons k text header rest =
    let e : suc (suc k) - 1 ≡ suc k = omega arith in rw e (unfold set_line in refl)

-- A block that can be written has a number from 2 to below the count.
writable_number :
    (n count : ℤ)
    → (ltb_ℤ n (pos 2) || leb_ℤ count n) ≡ false
    → (k : ℕ) × (n ≡ pos (suc (suc k))) × (pos (suc (suc (suc k))) ≤ℤ count)
writable_number (pos zero) count h = absurd (ground arith)
writable_number (pos (suc zero)) count h = absurd (ground arith)
writable_number (negsuc k) count h = absurd (ground arith)
writable_number (pos (suc (suc k))) count h = (k, refl, ground arith)

chosen :
    (b : Bool) (ls found : List Bytes)
    → (if b then none else some ls) ≡ some found
    → (b ≡ false) × (found ≡ ls)
chosen b ls found h = ground arith

replaced :
    (path : Bytes) (n : ℤ) (text : Bytes) (fs fs' : Files) (ls : List Bytes) (k : ℕ)
    (header : Bytes) (rest : List Bytes)
    → fs' ≡ replace_file path (unlines ls) fs
    → ls ≡ set_line (pos_part n - 1) text (header ∷ rest)
    → n ≡ pos (suc (suc k))
    → fs' ≡ replace_file path (unlines (header ∷ set_line k text rest)) fs
replaced path n text fs fs' ls k header rest now is number =
    cc (now, is, number, set_line-cons k text header rest)

module _ (d : Disk) (name : Bytes) (n : ℤ) (text : Bytes) (fs fs' : Files) where
  file_split :
      (old : Bytes) (ls : List Bytes)
      → fs.content (disk_path d name) ≡ some old
      → lines old ≡ ls
      → (write_lines n text ls >>= λ w. ok (save (disk_path d name) w fs)) ≡ ok (true, fs')
      → Written d name n text fs fs'
  unfolding write_lines
  file_split old [] was split h = absurd (ground arith)
  file_split old (header ∷ rest) was split h =
      let (w, wl, sv) = >>=-eq-ok _ (write_lines n text (header ∷ rest)) h in
      let (ls, is, now) = saved (disk_path d name) w fs fs' (cc sv) in
      let (count, counted, e) = >>=-eq-ok _ (stoi header) wl in
      let (free, set) =
        chosen (ltb_ℤ n (pos 2) || leb_ℤ count n) (set_line (pos_part n - 1) text (header ∷ rest))
          ls (cc (e, is)) in
      let (k, number, below) = writable_number n count free in
      record {
        old = old;
        header = header;
        rest = rest;
        count = count;
        index = k;
        was = was;
        split = split;
        counted = counted;
        number = number;
        below = below;
        now = replaced (disk_path d name) n text fs fs' ls k header rest now set number;
      }

  content_Written :
      (o : Option Bytes)
      → fs.content (disk_path d name) ≡ o
      → write_content (disk_path d name) n text o fs ≡ ok (true, fs')
      → Written d name n text fs fs'
  unfolding write_content
  content_Written none e q = absurd (ground arith)
  content_Written (some old) e q = file_split old (lines old) e refl q

  write_block-Written : write_block d name n text fs ≡ ok (true, fs') → Written d name n text fs fs'
  unfolding write_block
  write_block-Written h = content_Written (fs.content (disk_path d name)) refl h

-- What a read sees of a disk whose lines are known.
read_block-lines :
    (d : Disk) (name : Bytes) (n : ℤ) (fs : Files) (content : Bytes) (ls : List Bytes)
    → fs.content (disk_path d name) ≡ some content
    → lines content ≡ ls
    → read_block d name n fs ≡ read_lines n ls
unfolding read_block
read_block-lines d name n fs content ls c l = ap (read_content n) c ∙ ap (read_lines n) l

read_lines_in :
    (k : ℕ) (count : ℤ) (header : Bytes) (rest : List Bytes)
    → stoi header ≡ ok count
    → pos (suc k) ≤ℤ count
    → read_lines (pos (suc k)) (header ∷ rest) ≡ ok (get_elem? (header ∷ rest) k)
unfolding read_lines
read_lines_in k count header rest c h = ground arith

read_lines-some :
    (m : ℕ) (count : ℤ) (header : Bytes) (rest : List Bytes) (line : Bytes)
    → stoi header ≡ ok count
    → read_lines (pos m) (header ∷ rest) ≡ ok (some line)
    → (k : ℕ) × (m ≡ suc k) × (pos (suc k) ≤ℤ count) × (get_elem? (header ∷ rest) k ≡ some line)
unfolding read_lines
read_lines-some zero count header rest line c h = absurd (ground arith)
read_lines-some (suc k) count header rest line c h = (k, refl, ground arith, ground arith)

kept_at :
    (k i : ℕ) (text line header : Bytes) (rest : List Bytes)
    → (suc i ≢ k)
    → get_elem? (header ∷ rest) k ≡ some line
    → get_elem? (header ∷ set_line i text rest) k ≡ some line
kept_at zero i text line header rest ne h = h
kept_at (suc k) i text line header rest ne h =
    get-set_line_ne i k text line rest (λ e. ne (ap suc e)) h

module _ {d : Disk} {name : Bytes} {n : ℤ} {text : Bytes} {fs fs' : Files} where
  -- The lines of the disk after a write.
  Written-lines :
      (m : ℤ) (w : Written d name n text fs fs')
      → IsLine text
      → read_block d name m fs' ≡ read_lines m (w.header ∷ set_line w.index text w.rest)
  Written-lines m w h =
      let ls : List Bytes = w.header ∷ set_line w.index text w.rest in
      let clean : All IsLine (w.header ∷ w.rest) =
        subst (All IsLine) w.split (lines-IsLine w.old) in
      let clean' : All IsLine ls = (clean.0, set_line-IsLine w.index text w.rest h clean.1) in
      rw w.now (
        read_block-lines d name m (replace_file (disk_path d name) (unlines ls) fs) (unlines ls) ls
          (content-replace_file (disk_path d name) (unlines ls) fs) (lines-unlines ls clean'))

  -- A line that is read after a write, other than the written one, is the line from before.
  kept :
      (w : Written d name n text fs fs') (m : ℕ) (line : Bytes)
      → n ≢ pos m
      → read_lines (pos m) (w.header ∷ w.rest) ≡ ok (some line)
      → read_lines (pos m) (w.header ∷ set_line w.index text w.rest) ≡ ok (some line)
  kept w m line ne r =
      let (k, is, small, at) = read_lines-some m w.count w.header w.rest line w.counted r in
      rw is (
        read_lines_in k w.count w.header (set_line w.index text w.rest) w.counted small
        ∙ ap ok (
            kept_at k w.index text line w.header w.rest
              (λ e. ne (w.number ∙ ap pos (ap suc e) ∙ sym (ap pos is))) at))

-- A block that was written reads as the text that was written, if the text holds no newline and the
-- write succeeded.
pub read_block-write_block :
    (d : Disk) (name : Bytes) (n : ℤ) (text : Bytes) (fs fs' : Files)
    → IsLine text
    → write_block d name n text fs ≡ ok (true, fs')
    → read_block d name n fs' ≡ ok (some text)
read_block-write_block d name n text fs fs' h e =
    let w = write_block-Written d name n text fs fs' e in
    Written-lines n w h
    ∙ rw w.number (
        read_lines_in (suc w.index) w.count w.header (set_line w.index text w.rest) w.counted
          (omega (arith, w.below))
        ∙ ap ok (get-set_line_self w.index text w.rest))

-- After a write that succeeds, of a text without a newline, every other block that could be read
-- reads as before.
pub read_block-write_block_ne :
    (d : Disk) (name : Bytes) (n : ℤ) (m : ℕ) (text line : Bytes) (fs fs' : Files)
    → IsLine text
    → write_block d name n text fs ≡ ok (true, fs')
    → n ≢ pos m
    → read_block d name (pos m) fs ≡ ok (some line)
    → read_block d name (pos m) fs' ≡ ok (some line)
read_block-write_block_ne d name n m text line fs fs' h e ne r =
    let w = write_block-Written d name n text fs fs' e in
    Written-lines (pos m) w h
    ∙ kept w m line ne
        (rw (read_block-lines d name (pos m) fs w.old (w.header ∷ w.rest) w.was w.split) at r)

-- On a disk whose first line is a number above 0, a write to the block of that number is refused and
-- changes nothing, though a read of it gives the line that is there.
pub last_block_refused :
    (d : Disk) (name : Bytes) (k : ℕ) (text old header : Bytes) (rest : List Bytes) (fs : Files)
    → fs.content (disk_path d name) ≡ some old
    → lines old ≡ header ∷ rest
    → stoi header ≡ ok (pos (suc k))
    → (write_block d name (pos (suc k)) text fs ≡ ok (false, fs))
      × (read_block d name (pos (suc k)) fs ≡ ok (get_elem? (header ∷ rest) k))
last_block_refused d name k text old header rest fs was split c = (
  refused,
  read_block-lines d name (pos (suc k)) fs old (header ∷ rest) was split
      ∙ read_lines_in k (pos (suc k)) header rest c (omega arith),
)
  where
    refused : write_block d name (pos (suc k)) text fs ≡ ok (false, fs)
    refused = unfold write_block in rw (was, split, c) (ground arith)
