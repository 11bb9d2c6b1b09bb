-- ===== src/Std/Stream.antt =====
-- `std::istringstream` extraction of words.
pub mod Words
use kagu_os.Prelude.{◌≡◌, refl, true, false, Option, none, some, [], ◌∷◌, ◌++◌, if◌then◌else◌, ℤ}
use kagu_os.Std.Number.RoundTrip.{read_int-to_string}
use kagu_os.Std.Text.{Bytes, codes, is_space}
use kagu_os.Std.Number.{drop_space, fits_int, read_int, starts_with_digit, to_string}

unfoldable pub word : Bytes → Bytes
word [] = []
word (c ∷ s) = if is_space c then [] else c ∷ word s

unfoldable pub drop_word : Bytes → Bytes
drop_word [] = []
drop_word (c ∷ s) = if is_space c then c ∷ s else drop_word s

-- `iss >> w`: the next word, empty where the extraction fails, and the unread text.
unfoldable pub read_word : Bytes → Bytes × Bytes
unfolding word drop_word drop_space
read_word s = (word (drop_space s), drop_word (drop_space s))

in_int : Option (ℤ × Bytes) → Option (ℤ × Bytes)
in_int none = none
in_int (some (z, rest)) = if fits_int z then some (z, rest) else none

-- `iss >> n` for an `int`: a number that does not fit fails too.
unfoldable pub read_stream_int : Bytes → Option (ℤ × Bytes)
unfolding in_int
read_stream_int s = in_int (read_int s)

three_words : (read_word (codes " 12 @x")).0 ≡ codes "12"
unfolding read_word
three_words = refl

-- A printed number that fits is extracted, and the reading stops behind it.
pub read_stream_int-to_string :
    (z : ℤ) (rest : Bytes)
    → fits_int z ≡ true
    → starts_with_digit rest ≡ false
    → read_stream_int (to_string z ++ rest) ≡ some (z, rest)
unfolding read_stream_int
read_stream_int-to_string z rest f h = rw (read_int-to_string z rest h, f)

-- White space in front of a number is skipped.
pub read_stream_int-blank : (s : Bytes) → read_stream_int (32 ∷ s) ≡ read_stream_int s
unfolding read_stream_int read_int
read_stream_int-blank s = refl
