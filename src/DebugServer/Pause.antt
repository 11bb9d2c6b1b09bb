-- ===== src/DebugServer/Pause.antt =====
-- The loops of debug_server.cpp over the lines of the client: in a pause of the program, and after the
-- processor has halted; and what the server says when a client has connected.
use kagu_os.Prelude.{
  ℕ, zero, suc, Bool, true, false, ◌||◌, not, Option, none, some, ◌++◌, if◌then◌else◌, length, ℤ,
}
use kagu_os.DebugServer.Commands.{Session, Verdict, handle_command, unread}
use kagu_os.DebugServer.{DebugServer, contains, read_line, send_line}
use kagu_os.DebugServer.Commands.{Verdict, stay, resume, quit}
use kagu_os.Std.Text.{codes, is_empty}
use kagu_os.Std.Fault.{Result, ok, fail, undefined}
use kagu_os.Std.Number.{to_string}

-- How a loop over the commands goes on, by its answer to a command: it ends with an answer, or reads
-- the next command.
abbrev pub decide :
    (Verdict → Option Bool)
    → (Session → Result (Bool × Session))
    → Result (Verdict × Session)
    → Result (Bool × Session)
decide ends others (fail e) = fail e
decide ends others (ok (v, s)) = elim (ends v) [ none ↦ others s | some b ↦ ok (b, s) ]

-- The loop over the commands. A round reads at least one character or is the last, so one round
-- more than there are characters is enough. An empty line ends the loop like a client that has hung
-- up.
unfoldable pub serve : (Verdict → Option Bool) → ℕ → Session → Result (Bool × Session)
unfolding read_line handle_command
serve ends zero s = fail undefined
serve ends (suc n) s =
    let (cmd, rest) = read_line s.server.received in
    let others = serve ends n in
    if is_empty cmd
    then ok (false, unread rest s)
    else decide ends others (handle_command cmd (unread rest s))

abbrev pub enough : Session → ℕ
enough s = suc (length s.server.received)

-- In a pause the program goes on or stops.
abbrev pub in_pause : Verdict → Option Bool
in_pause stay = none
in_pause resume = some true
in_pause quit = some false

-- A program that has halted does not go on.
abbrev pub after_halt : Verdict → Option Bool
after_halt stay = none
after_halt resume = none
after_halt quit = some false

unfoldable pub hits : ℤ → DebugServer → Bool
unfolding contains
hits pc d = contains pc d.breakpoints || d.step_mode

-- `checkBreakpoint`: whether the program goes on
unfoldable pub check_breakpoint : ℤ → Session → Result (Bool × Session)
unfolding hits serve
check_breakpoint pc s =
    let paused = record s { server = send_line (codes "PAUSED " ++ to_string pc) s.server } in
    if not s.server.connected
    then ok (true, s)
    else if not (hits pc s.server)
    then ok (true, s)
    else serve in_pause (enough paused) paused

abbrev pub left_session : Result (Bool × Session) → Result Session
left_session (ok (b, s)) = ok s
left_session (fail e) = fail e

-- `notifyHalted`
unfoldable pub notify_halted : Session → Result Session
unfolding serve
notify_halted s =
    let told = record s { server = send_line (codes "HALTED") s.server } in
    if not s.server.connected then ok s else left_session (serve after_halt (enough told) told)

-- `waitForClient`, once a client has connected, for a memory of this size
unfoldable pub wait_for_client : ℤ → DebugServer → DebugServer
wait_for_client ram_size d = record (send_line (codes "READY " ++ to_string ram_size) d) {
  connected = true;
  step_mode = true;
}
