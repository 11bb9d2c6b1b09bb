-- ===== src/DebugServer/Protocol.antt =====
-- The commands of a debugger, and what they mean for what a debugger sees: the set of breakpoints,
-- the mode, the memory and the text that it has been sent.
use kagu_os.Prelude.{
  ℕ, zero, suc, ◌≡◌, Bool, true, false, ◌&&◌, ◌||◌, not, List, [], ◌∷◌, ◌++◌, if◌then◌else◌, ℤ,
  pos_part, ◌+ℤ◌, ◌-ℤ◌, leb_ℤ, eqb_ℤ, pos,
}
use kagu_os.Std.Text.{Bytes, codes}
use kagu_os.Std.Number.{to_string, fits_int}
use kagu_os.Std.Files.{unlines}
use kagu_os.Ram.{Ram, store}
use kagu_os.DebugServer.Lines.{is_line}
use kagu_os.DebugServer.Commands.{Session, ram_line, Verdict, stay, resume, quit}
use kagu_os.DebugServer.{contains}

pub data Command : Type 0 where
  proceed single_step quit_program : Command
  break_at clear_at : ℤ → Command
  show : ℤ → ℤ → Command
  assign : ℤ → Bytes → Command

-- The line of a command, without its newline.
unfoldable pub print : Command → Bytes
print proceed = codes "CONTINUE"
print single_step = codes "STEP"
print quit_program = codes "QUIT"
print (break_at a) = codes "BREAK " ++ to_string a
print (clear_at a) = codes "CLEAR " ++ to_string a
print (show a b) = codes "STATE " ++ (to_string a ++ b' ' ∷ to_string b)
print (assign a v) = codes "SET " ++ (to_string a ++ b' ' ∷ v)

-- A command that a line can carry: its numbers are of type `int`, and its text holds no end of a
-- line. The last address that it shows is not the greatest `int`.
unfoldable pub IsSendable : Command → Type 0
IsSendable proceed = Unit
IsSendable single_step = Unit
IsSendable quit_program = Unit
IsSendable (break_at a) = fits_int a ≡ true
IsSendable (clear_at a) = fits_int a ≡ true
IsSendable (show a b) =
    (fits_int a ≡ true) × (fits_int b ≡ true) × (eqb_ℤ b (pos 2147483647) ≡ false)
IsSendable (assign a v) = (fits_int a ≡ true) × (is_line v ≡ true)

-- What a debugger sees.
pub record View : Type 0 where
  pub marked : ℤ → Bool
  pub single : Bool
  pub sent : Bytes
  pub ram : Ram

abbrev pub view : Session → View
view s = record {
  marked = λ a. contains a s.server.breakpoints;
  single = s.server.step_mode;
  sent = s.server.sent;
  ram = s.ram;
}

-- An address of the memory.
unfoldable pub has : ℤ → Ram → Bool
has a ram = leb_ℤ (pos 1) a && leb_ℤ a (pos ram.size)

unfoldable pub addresses : ℕ → ℤ → List ℤ
addresses zero a = []
addresses (suc n) a = a ∷ addresses n (a +ℤ pos 1)

unfoldable pub cell_lines : List ℤ → Ram → List Bytes
unfolding has
cell_lines [] ram = []
cell_lines (a ∷ others) ram =
    let rest = cell_lines others ram in
    if has a ram then ram_line a (ram.cells (pos_part a)) ∷ rest else rest

abbrev pub told : List Bytes → View → View
told ls w = record w { sent = w.sent ++ unlines ls }

-- The meaning of a command.
unfoldable pub act : Command → View → View
unfolding addresses cell_lines has
act proceed w = record w { single = false }
act single_step w = record w { single = true }
act quit_program w = w
act (break_at b) w = record w { marked = λ a. eqb_ℤ b a || w.marked a }
act (clear_at b) w = record w { marked = λ a. not (eqb_ℤ b a) && w.marked a }
act (show a b) w =
    told (codes "END" ∷ []) (told (cell_lines (addresses (pos_part ((b +ℤ pos 1) -ℤ a)) a) w.ram) w)
act (assign a v) w = if has a w.ram then record w { ram = store (pos_part a) v w.ram } else w

unfoldable pub verdict_of : Command → Verdict
verdict_of proceed = resume
verdict_of single_step = resume
verdict_of quit_program = quit
verdict_of c = stay
