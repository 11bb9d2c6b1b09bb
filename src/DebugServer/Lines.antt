-- ===== src/DebugServer/Lines.antt =====
-- The lines that the debug server reads.
use kagu_os.Prelude.{
  ◌≤◌, ◌≡◌, refl, sym, ap, Bool, true, ◌&&◌, not, [], ◌∷◌, ◌++◌, append_assoc, append-nil, arith,
  ◌==◌, length,
}
use kagu_os.Std.Text.{Bytes}
use kagu_os.Std.Stream.Words.{has_no_space}
use kagu_os.DebugServer.{read_line_from, read_line}

-- A text that a line can hold.
unfoldable pub is_line : Bytes → Bool
is_line [] = true
is_line (c ∷ s) = not (c == b'\n') && not (c == b'\r') && is_line s

pub is_line-append : (s t : Bytes) → is_line s ≡ true → is_line t ≡ true → is_line (s ++ t) ≡ true
unfolding is_line
is_line-append [] t h k = k
is_line-append (c ∷ s) t h k = ground (arith, is_line-append s t)

pub has_no_space-is_line : (s : Bytes) → has_no_space s ≡ true → is_line s ≡ true
unfolding is_line has_no_space
has_no_space-is_line [] h = refl
has_no_space-is_line (c ∷ s) h = ground (arith, has_no_space-is_line s)

read_line_from-append :
    (line s rest : Bytes)
    → is_line s ≡ true
    → read_line_from line (s ++ b'\n' ∷ rest) ≡ (line ++ s, rest)
unfolding read_line_from is_line
read_line_from-append line [] rest h = ap (λ (l : Bytes). (l, rest)) (sym (append-nil line))
read_line_from-append line (c ∷ s) rest h =
    ground (arith, read_line_from-append (line ++ c ∷ []) s rest, append_assoc line (c ∷ []) s)

pub read_line-append :
    (s rest : Bytes) → is_line s ≡ true → read_line (s ++ b'\n' ∷ rest) ≡ (s, rest)
unfolding read_line
read_line-append s rest h = read_line_from-append [] s rest h

-- Where the line is not empty, what is read of is shorter afterwards.
read_line_from-shorter : (line s : Bytes) → length (read_line_from line s).1 ≤ length s
unfolding read_line_from
read_line_from-shorter line [] = omega arith
read_line_from-shorter line (c ∷ s) =
    ground (arith, read_line_from-shorter (line ++ c ∷ []) s, read_line_from-shorter line s)
