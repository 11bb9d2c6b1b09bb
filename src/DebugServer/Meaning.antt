-- ===== src/DebugServer/Meaning.antt =====
-- The meaning of each command, as `handleCommand` of debug_server.cpp carries it out.
use kagu_os.Prelude.{
  ℕ, zero, suc, ◌≡◌, refl, ap, ◌∙◌, fun_ext, true, false, Option, some, [], ◌∷◌, ◌++◌, arith,
  if◌then◌else◌, ℤ, pos_part, ◌+ℤ◌, ◌-ℤ◌, pos, negsuc,
}
use kagu_os.DebugServer.Replies.{
  extract_int-to_string, second_int-to_string, range_lem, shown, replied,
}
use kagu_os.Std.Stream.Words.{has_no_space, to_string-has_no_space}
use kagu_os.Std.Files.{unlines}
use kagu_os.Ram.{Ram, direct_write, store}
use kagu_os.DebugServer.{erase, insert, send_line}
use kagu_os.Std.Number.{to_string, stoi}
use kagu_os.DebugServer.Breakpoints.{contains-insert, contains-erase}
use kagu_os.Std.Number.RoundTrip.{is_empty-to_string, stoi-to_string}
use kagu_os.Std.Text.{strip_prefix, Bytes, is_empty, codes, split_at}
use kagu_os.Std.Fault.{ok, Result}
use kagu_os.DebugServer.Protocol.{
  Command, view, act, verdict_of, print, IsSendable, break_at, proceed, single_step, quit_program,
  assign, clear_at, cell_lines, has, addresses, show,
}
use kagu_os.DebugServer.Commands.{
  with_breakpoints, stay, second_int, before_blank, written, Session, handle_command,
  with_breakpoints, stay, extract_int, show_state, state_lines, send_lines,
}

-- The command runs: with the answer that it means, and to what it means for the debugger; no text
-- is read, and the client stays.
abbrev pub IsDone : Command → Session → Session → Type 0
IsDone c s s' =
    (handle_command (print c) s ≡ ok (verdict_of c, s'))
    × (view s' ≡ act c (view s))
    × (s'.server.received ≡ s.server.received)
    × (s'.server.connected ≡ s.server.connected)

abbrev Does : Command → Type 0
Does c = (s : Session) → IsSendable c → (s' : Session) × IsDone c s s'

Does-proceed : Does proceed
unfolding handle_command print act verdict_of
Does-proceed s h = (_, (refl, refl, refl, refl))

Does-step : Does single_step
unfolding handle_command print act verdict_of
Does-step s h = (_, (refl, refl, refl, refl))

Does-quit : Does quit_program
unfolding handle_command print act verdict_of strip_prefix
Does-quit s h = (_, (refl, refl, refl, refl))

break_command :
    (arg : Bytes) (s : Session)
    → is_empty arg ≡ false
    → handle_command (codes "BREAK " ++ arg) s ≡ ok (stay, with_breakpoints insert s (stoi arg))
unfolding handle_command strip_prefix
break_command [] s h = cc
break_command (c ∷ arg) s h = refl

clear_command :
    (arg : Bytes) (s : Session)
    → is_empty arg ≡ false
    → handle_command (codes "CLEAR " ++ arg) s ≡ ok (stay, with_breakpoints erase s (stoi arg))
unfolding handle_command strip_prefix
clear_command [] s h = cc
clear_command (c ∷ arg) s h = refl

state_command :
    (arg : Bytes) (s : Session)
    → is_empty arg ≡ false
    → handle_command (codes "STATE " ++ arg) s
      ≡ show_state (extract_int arg).0 (second_int (extract_int arg).1) s
unfolding handle_command strip_prefix
state_command [] s h = cc
state_command (c ∷ arg) s h = refl

set_command :
    (arg : Bytes) (s : Session)
    → is_empty arg ≡ false
    → handle_command (codes "SET " ++ arg) s ≡ ok (stay, before_blank (split_at b' ' arg) s)
unfolding handle_command strip_prefix
set_command [] s h = cc
set_command (c ∷ arg) s h = refl

Does-break : (a : ℤ) → Does (break_at a)
unfolding print act verdict_of IsSendable
Does-break a s h = (
  with_breakpoints insert s (ok a),
  (
    break_command (to_string a) s (is_empty-to_string a)
        ∙ ap (λ (r : Result ℤ). ok (stay, with_breakpoints insert s r)) (stoi-to_string a h),
    ap (λ f. record (view s) { marked = f })
        (fun_ext (λ x. contains-insert x a s.server.breakpoints)),
    refl,
    refl,
  ),
)

Does-clear : (a : ℤ) → Does (clear_at a)
unfolding print act verdict_of IsSendable
Does-clear a s h = (
  with_breakpoints erase s (ok a),
  (
    clear_command (to_string a) s (is_empty-to_string a)
        ∙ ap (λ (r : Result ℤ). ok (stay, with_breakpoints erase s r)) (stoi-to_string a h),
    ap (λ f. record (view s) { marked = f })
        (fun_ext (λ x. contains-erase x a s.server.breakpoints)),
    refl,
    refl,
  ),
)

is_empty-behind : (s t : Bytes) (c : ℕ) → is_empty (s ++ c ∷ t) ≡ false
is_empty-behind [] t c = refl
is_empty-behind (d ∷ s) t c = refl

split_at-append :
    (w v : Bytes) → has_no_space w ≡ true → split_at b' ' (w ++ b' ' ∷ v) ≡ some (w, v)
unfolding split_at has_no_space
split_at-append [] v h = refl
split_at-append (c ∷ w) v h = ground (arith, split_at-append w v)

abbrev stored : ℤ → Bytes → Ram → Ram
stored a v ram = if has a ram then store (pos_part a) v ram else ram

write_has :
    (a : ℤ) (v : Bytes) (s : Session)
    → written s (direct_write a v s.ram) ≡ record s { ram = stored a v s.ram }
unfolding direct_write has
write_has (pos zero) v s = refl
write_has (pos (suc n)) v s = ground arith
write_has (negsuc n) v s = ground arith

Does-assign : (a : ℤ) (v : Bytes) → Does (assign a v)
unfolding print act verdict_of IsSendable
Does-assign a v s (h, _) =
    let s' : Session = record s { ram = stored a v s.ram } in
    (
      s',
      (
        set_command (to_string a ++ b' ' ∷ v) s (is_empty-behind (to_string a) v 32)
            ∙ rw
                (
                  split_at-append (to_string a) v (to_string-has_no_space a),
                  stoi-to_string a h,
                  write_has a v s,
                )
                refl,
        ground arith,
        refl,
        refl,
      ),
    )

Does-show : (a b : ℤ) → Does (show a b)
unfolding print act verdict_of IsSendable
Does-show a b s (fa, fb, last) =
    let n = pos_part ((b +ℤ pos 1) -ℤ a) in
    let s' : Session = record s {
      server = record s.server {
        sent =
            (s.server.sent ++ unlines (cell_lines (addresses n a) s.ram))
            ++ unlines (codes "END" ∷ []);
      };
    } in
    (
      s',
      (
        state_command (to_string a ++ b' ' ∷ to_string b) s
              (is_empty-behind (to_string a) (to_string b) 32)
            ∙ ap (λ (x : ℤ × Option Bytes). show_state x.0 (second_int x.1) s)
                (extract_int-to_string a (b' ' ∷ to_string b) fa refl)
            ∙ ap (λ z. show_state a z s) (second_int-to_string b fb)
            ∙ shown a b s last
            ∙ ap
                (λ k. ok (
                  stay,
                  record s {
                    server = send_line (codes "END") (send_lines (state_lines k a s.ram) s.server);
                  },
                ))
                (range_lem a b)
            ∙ ap (λ d. ok (stay, record s { server = d })) (replied n a s),
        refl,
        refl,
        refl,
      ),
    )

-- Each command that can be sent does what it means.
pub does : (c : Command) → Does c
does proceed = Does-proceed
does single_step = Does-step
does quit_program = Does-quit
does (break_at a) = Does-break a
does (clear_at a) = Does-clear a
does (show a b) = Does-show a b
does (assign a v) = Does-assign a v
