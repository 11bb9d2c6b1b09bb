-- ===== src/DebugServer/Replies.antt =====
-- The reply of the debug server to a command that shows memory cells, and the numbers that it reads.
use kagu_os.Prelude.{
  ℕ, zero, suc, ◌≡◌, refl, sym, ap, ◌∙◌, true, false, Option, some, List, [], ◌∷◌, ◌++◌,
  append_assoc, append-nil, arith, if◌then◌else◌, ℤ, pos_part, ◌+ℤ◌, ◌-ℤ◌, eqb_ℤ, int_laws, pos,
  negsuc,
}
use kagu_os.Std.Files.{unlines}
use kagu_os.Ram.{Ram, direct_read}
use kagu_os.DebugServer.{DebugServer, send_line}
use kagu_os.Std.Number.{to_string, fits_int, starts_with_digit, read_int}
use kagu_os.Std.Number.RoundTrip.{read_int-to_string}
use kagu_os.Std.Text.{Bytes, codes}
use kagu_os.Std.Fault.{ok}
use kagu_os.DebugServer.Protocol.{cell_lines, has, addresses}
use kagu_os.DebugServer.Commands.{
  stay, second_int, range, line_for, ram_line, Session, stay, extract_int, show_state, state_lines,
  send_lines,
}

pub extract_int-to_string :
    (a : ℤ) (rest : Bytes)
    → fits_int a ≡ true
    → starts_with_digit rest ≡ false
    → extract_int (to_string a ++ rest) ≡ (a, some rest)
unfolding extract_int
extract_int-to_string a rest f h = rw (read_int-to_string a rest h, f) refl

extract_int-blank : (s : Bytes) → extract_int (32 ∷ s) ≡ extract_int s
unfolding extract_int read_int
extract_int-blank s = refl

pub second_int-to_string : (b : ℤ) → fits_int b ≡ true → second_int (some (b' ' ∷ to_string b)) ≡ b
second_int-to_string b f =
    ap (λ (p : ℤ × Option Bytes). p.0)
      (extract_int-blank (to_string b)
        ∙ ap extract_int (sym (append-nil (to_string b)))
        ∙ extract_int-to_string b [] f refl)

pub send_lines_lem :
    (ls : List Bytes) (d : DebugServer) → send_lines ls d ≡ record d { sent = d.sent ++ unlines ls }
unfolding unlines
send_lines_lem [] d = ap (λ (t : Bytes). record d { sent = t }) (sym (append-nil d.sent))
send_lines_lem (l ∷ ls) d =
    send_lines_lem ls (send_line l d)
    ∙ ap (λ (t : Bytes). record d { sent = t })
        (append_assoc d.sent (l ++ 10 ∷ []) (unlines ls)
          ∙ ap (λ (t : Bytes). d.sent ++ t) (append_assoc l (10 ∷ []) (unlines ls)))

line_for_lem :
    (a : ℤ) (ram : Ram) (rest : List Bytes)
    → line_for a (direct_read a ram) ++ rest
      ≡ (if has a ram then ram_line a (ram.cells (pos_part a)) ∷ rest else rest)
unfolding direct_read has
line_for_lem (pos zero) ram rest = refl
line_for_lem (pos (suc n)) ram rest = ground arith
line_for_lem (negsuc n) ram rest = ground arith

state_lines_lem : (n : ℕ) (a : ℤ) (ram : Ram) → state_lines n a ram ≡ cell_lines (addresses n a) ram
unfolding state_lines cell_lines addresses
state_lines_lem zero a ram = refl
state_lines_lem (suc n) a ram =
    rw (← state_lines_lem n (a +ℤ pos 1) ram) (line_for_lem a ram (state_lines n (a +ℤ pos 1) ram))

range-suc : (z : ℤ) → range z ≡ pos_part (z +ℤ pos 1)
unfolding ◌+ℤ◌
range-suc (pos n) = ground arith
range-suc (negsuc n) = ground arith

one_more : (a b : ℤ) → (b -ℤ a) +ℤ pos 1 ≡ (b +ℤ pos 1) -ℤ a
one_more a b = grind int_laws

pub range_lem : (a b : ℤ) → range (b -ℤ a) ≡ pos_part ((b +ℤ pos 1) -ℤ a)
range_lem a b = range-suc (b -ℤ a) ∙ ap pos_part (one_more a b)

pub shown :
    (a b : ℤ) (s : Session)
    → eqb_ℤ b (pos 2147483647) ≡ false
    → show_state a b s
      ≡ ok (
        stay,
        record s {
          server =
              send_line (codes "END") (send_lines (state_lines (range (b -ℤ a)) a s.ram) s.server);
        },
      )
unfolding show_state
shown a b s h = rw h refl

pub replied :
    (n : ℕ) (a : ℤ) (s : Session)
    → send_line (codes "END") (send_lines (state_lines n a s.ram) s.server) ≡ record s.server {
      sent =
          (s.server.sent ++ unlines (cell_lines (addresses n a) s.ram))
          ++ unlines (codes "END" ∷ []);
    }
unfolding unlines
replied n a s =
    ap (send_line (codes "END")) (send_lines_lem (state_lines n a s.ram) s.server)
    ∙ ap
        (λ ls. record s.server {
          sent = (s.server.sent ++ unlines ls) ++ unlines (codes "END" ∷ []);
        })
        (state_lines_lem n a s.ram)
