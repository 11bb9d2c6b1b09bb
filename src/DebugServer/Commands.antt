-- ===== src/DebugServer/Commands.antt =====
-- `handleCommand` of debug_server.cpp: what the server does with a line of its client.
use kagu_os.Prelude.{
  ℕ, zero, suc, Bool, true, false, ◌&&◌, Option, none, some, List, [], ◌∷◌, ◌++◌, if◌then◌else◌, ℤ,
  ◌+ℤ◌, ◌-ℤ◌, leb_ℤ, eqb_ℤ, pos, negsuc,
}
use kagu_os.DebugServer.{DebugServer, send_line, insert, erase}
use kagu_os.Std.Text.{Bytes, codes, beq, is_empty, split_at, strip_prefix}
use kagu_os.Std.Fault.{Result, ok, fail, undefined}
use kagu_os.Std.Number.{stoi, to_string, read_int, fits_int}
use kagu_os.Ram.{Ram, direct_read, direct_write}

-- A server with the memory that it looks into.
pub record Session : Type 0 where
  pub server : DebugServer
  pub ram : Ram

-- What `handleCommand` says: to stay, to go on with the program, or to quit it.
pub data Verdict : Type 0 where
  stay resume quit : Verdict

-- `ss >> n` for an `int`: what does not fit becomes the nearest `int`, and fails like a text that is
-- no number; the stream reads nothing more then.
abbrev clamp : ℤ → ℤ
clamp (pos n) = pos 2147483647
clamp (negsuc n) = negsuc 2147483647

abbrev extracted : Option (ℤ × Bytes) → ℤ × Option Bytes
extracted none = (pos 0, none)
extracted (some (z, rest)) = if fits_int z then (z, some rest) else (clamp z, none)

unfoldable pub extract_int : Bytes → ℤ × Option Bytes
unfolding read_int
extract_int s = extracted (read_int s)

abbrev pub second_int : Option Bytes → ℤ
second_int none = pos 0
second_int (some rest) = (extract_int rest).0

-- The line for an address that the memory has.
abbrev pub ram_line : ℤ → Bytes → Bytes
ram_line a v = codes "RAM " ++ (to_string a ++ b' ' ∷ v)

abbrev pub line_for : ℤ → Result Bytes → List Bytes
line_for a (ok v) = ram_line a v ∷ []
line_for a (fail e) = []

-- The lines for so many addresses.
unfoldable pub state_lines : ℕ → ℤ → Ram → List Bytes
unfolding direct_read
state_lines zero a ram = []
state_lines (suc n) a ram = line_for a (direct_read a ram) ++ state_lines n (a +ℤ pos 1) ram

-- How many addresses `start` to `end` are.
abbrev pub range : ℤ → ℕ
range (pos n) = suc n
range (negsuc n) = 0

abbrev pub send_lines : List Bytes → DebugServer → DebugServer
send_lines [] d = d
send_lines (l ∷ ls) d = send_lines ls (send_line l d)

-- The loop over the addresses increments the address behind the last one, which overflows where that
-- is the greatest `int`.
unfoldable pub show_state : ℤ → ℤ → Session → Result (Verdict × Session)
unfolding state_lines
show_state start end s =
    if eqb_ℤ end (pos 2147483647) && leb_ℤ start end
    then fail undefined
    else ok (
      stay,
      record s {
        server =
            send_line (codes "END")
              (send_lines (state_lines (range (end -ℤ start)) start s.ram) s.server);
      },
    )

abbrev pub written : Session → Result Ram → Session
written s (ok ram) = record s { ram = ram }
written s (fail e) = s

abbrev pub set_cell : Bytes → Session → Result ℤ → Session
set_cell v s (ok a) = written s (direct_write a v s.ram)
set_cell v s (fail e) = s

-- The text in front of the first blank, and the text behind it.
abbrev pub before_blank : Option (Bytes × Bytes) → Session → Session
before_blank none s = s
before_blank (some (a, v)) s = set_cell v s (stoi a)

-- The texts of the commands, and what stands behind a word that begins a longer one.
abbrev pub behind_word : Bytes → Bytes → Option Bytes
behind_word word cmd = elim (strip_prefix word cmd) [
  | none ↦ none
  | some rest ↦ if is_empty rest then none else some rest
]

abbrev pub with_breakpoints : (ℤ → List ℤ → List ℤ) → Session → Result ℤ → Session
with_breakpoints f s (ok a) = record s {
  server = record s.server { breakpoints = f a s.server.breakpoints };
}
with_breakpoints f s (fail e) = s

abbrev stepping : Bool → Session → Session
stepping on s = record s { server = record s.server { step_mode = on } }

-- The commands that are a word with an argument; any other is unknown, and changes nothing.
unfoldable pub handle_argument : Bytes → Session → Result (Verdict × Session)
unfolding insert erase extract_int show_state split_at
handle_argument cmd s = elim (behind_word (codes "BREAK ") cmd) [
  | some arg ↦ ok (stay, with_breakpoints insert s (stoi arg))
  | none ↦ elim (behind_word (codes "CLEAR ") cmd) [
    | some arg ↦ ok (stay, with_breakpoints erase s (stoi arg))
    | none ↦ elim (behind_word (codes "STATE ") cmd) [
      | some arg ↦ show_state (extract_int arg).0 (second_int (extract_int arg).1) s
      | none ↦ elim (behind_word (codes "SET ") cmd) [
        | some arg ↦ ok (stay, before_blank (split_at b' ' arg) s)
        | none ↦ ok (if beq cmd (codes "QUIT") then quit else stay, s)
      ]
    ]
  ]
]

-- `handleCommand`
unfoldable pub handle_command : Bytes → Session → Result (Verdict × Session)
unfolding beq handle_argument
handle_command cmd s =
    if beq cmd (codes "CONTINUE")
    then ok (resume, stepping false s)
    else if beq cmd (codes "STEP")
    then ok (resume, stepping true s)
    else handle_argument cmd s

abbrev pub unread : Bytes → Session → Session
unread rest s = record s { server = record s.server { received = rest } }
