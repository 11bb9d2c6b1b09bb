-- ===== src/Interrupt/Context.antt =====
-- The saved context of an interrupt, printed and read.
use kagu_os.Prelude.{
  ℕ, ◌≡◌, refl, Bool, true, false, some, [], ◌∷◌, ◌++◌, if◌then◌else◌, eqb_ℤ, pos,
}
use kagu_os.Std.Stream.{read_stream_int, read_stream_int-to_string, read_stream_int-blank}
use kagu_os.Std.Text.{Bytes, codes, is_empty}
use kagu_os.Std.Number.{fits_int, to_string, read_int}
use kagu_os.Interrupt.{InterruptData, parse, data_to_string, is_empty, read_stream_int, to_string}

is_empty-append : (s : Bytes) (c : ℕ) (t : Bytes) → is_empty (s ++ c ∷ t) ≡ false
is_empty-append [] c t = refl
is_empty-append (d ∷ s) c t = refl

flag_read :
    (b : Bool)
    → read_stream_int (32 ∷ (if b then codes "1" else codes "0"))
      ≡ some (if b then pos 1 else pos 0, [])
unfolding read_stream_int read_int fits_int
flag_read true = refl
flag_read false = refl

flag_is : (b : Bool) → eqb_ℤ (if b then pos 1 else pos 0) (pos 1) ≡ b
flag_is true = refl
flag_is false = refl

-- `parse` undoes `toString`: the type, the program counter and the flag come back, for every
-- type and counter that fit an `int`.
pub parse-data_to_string :
    (d : InterruptData)
    → fits_int d.type ≡ true
    → fits_int d.program_counter ≡ true
    → parse (data_to_string d) ≡ some d
unfolding parse data_to_string
parse-data_to_string d ft fp =
    let flag : Bytes = if d.ignore_result then codes "1" else codes "0" in
    rw (
      is_empty-append (to_string d.type) 32 (to_string d.program_counter ++ 32 ∷ flag),
      read_stream_int-to_string d.type (32 ∷ (to_string d.program_counter ++ 32 ∷ flag)) ft refl,
      read_stream_int-blank (to_string d.program_counter ++ 32 ∷ flag),
      read_stream_int-to_string d.program_counter (32 ∷ flag) fp refl,
      flag_read d.ignore_result,
      flag_is d.ignore_result,
    )
