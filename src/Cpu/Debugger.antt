-- ===== src/Cpu/Debugger.antt =====
-- The calls of the debug server in `step` and `halt` of cpu.cpp: the processor without one goes on.
use kagu_os.Prelude.{Bool, true, none, some, ℤ}
use kagu_os.Std.Fault.{Result, ok, fail}
use kagu_os.Cpu.Machine.{Machine, Exec}
use kagu_os.DebugServer.Commands.{Session}
use kagu_os.DebugServer.Pause.{check_breakpoint, notify_halted}
use kagu_os.DebugServer.{DebugServer}

abbrev pub session_of : DebugServer → Machine → Session
session_of d m = record { server = d; ram = m.ram }

abbrev pub with_session : Machine → Session → Machine
with_session m s = record m { ram = s.ram; debug_server = some s.server }

abbrev pub settle_check : Machine → Result (Bool × Session) → Result Bool × Machine
settle_check m (ok (go_on, s)) = (ok go_on, with_session m s)
settle_check m (fail e) = (fail e, m)

-- Whether the processor goes on with the instruction at an address.
unfoldable pub check_debugger : ℤ → Exec Bool
check_debugger pc m = elim m.debug_server [
  | none ↦ (ok true, m)
  | some d ↦ settle_check m (check_breakpoint pc (session_of d m))
]

abbrev settle_halt : Machine → Result Session → Result (Unit {0}) × Machine
settle_halt m (ok s) = (ok tt, with_session m s)
settle_halt m (fail e) = (fail e, m)

unfoldable pub notify_debugger : Exec (Unit {0})
notify_debugger m = elim m.debug_server [
  | none ↦ (ok tt, m)
  | some d ↦ settle_halt m (notify_halted (session_of d m))
]
