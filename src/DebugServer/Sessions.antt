-- ===== src/DebugServer/Sessions.antt =====
-- The dialogues of `checkBreakpoint` and `notifyHalted` of debug_server.cpp.
use kagu_os.Prelude.{
  suc, ◌≤◌, ◌<◌, ◌≡◌, refl, ap, ◌∙◌, Bool, true, false, not, some, List, [], ◌∷◌, ◌++◌, arith,
  if◌then◌else◌, length, length-append, All, ℤ,
}
use kagu_os.Std.Text.{Bytes, codes}
use kagu_os.Std.Fault.{ok, Result}
use kagu_os.Std.Number.{to_string}
use kagu_os.Std.Files.{unlines}
use kagu_os.DebugServer.Dialogue.{sends, acts, IsQuery, serve_dialogue}
use kagu_os.DebugServer.Protocol.{
  Command, view, act, told, verdict_of, print, IsSendable, quit_program,
}
use kagu_os.DebugServer.Commands.{Session}
use kagu_os.DebugServer.Pause.{
  enough, check_breakpoint, hits, in_pause, after_halt, notify_halted, left_session, serve,
}
use kagu_os.DebugServer.{send_line}

length-sends : (cs : List Command) (t : Bytes) → length cs ≤ length (sends cs t)
unfolding sends
length-sends [] t = omega arith
length-sends (c ∷ cs) t =
    omega (arith, length-sends cs t, length-append (print c) (b'\n' ∷ sends cs t))

room :
    (cs : List Command) (t received : Bytes)
    → received ≡ sends cs t
    → length cs < suc (length received)
room cs t received is = ground (arith, length-sends cs t, ap length is)

-- A session whose debugger has been sent a line.
abbrev pub sent_line : Bytes → Session → Session
sent_line line s = record s { server = send_line line s.server }

module _ (s : Session) (on : s.server.connected ≡ true) where
  pub pauses :
      (pc : ℤ)
      → hits pc s.server ≡ true
      → let paused = sent_line (codes "PAUSED " ++ to_string pc) s in
        check_breakpoint pc s ≡ serve in_pause (enough paused) paused
  unfolding check_breakpoint
  pauses pc hit =
      let paused = sent_line (codes "PAUSED " ++ to_string pc) s in
      let r : Result (Bool × Session) = serve in_pause (enough paused) paused in
      ap (λ b. if not b then ok (true, s) else if not (hits pc s.server) then ok (true, s) else r)
        on
      ∙ ap (λ b. if not b then ok (true, s) else r) hit

  notifies :
      let halted = sent_line (codes "HALTED") s in
      notify_halted s ≡ left_session (serve after_halt (enough halted) halted)
  unfolding notify_halted
  notifies =
      let halted = sent_line (codes "HALTED") s in
      ap (λ b. if not b then ok s else left_session (serve after_halt (enough halted) halted)) on

-- The debugger of a pause is sent `PAUSED` and the address. Where it then sends commands that do not
-- end the pause, and one that does, all of which a line can carry, the check of the breakpoint
-- ends with the answer of the last one, after the commands have had their meaning in order, and
-- what the debugger sends behind them is still to be read.
pub pause_session :
    (pc : ℤ) (s : Session) (cs : List Command) (last : Command) (go_on : Bool) (rest : Bytes)
    → s.server.connected ≡ true
    → hits pc s.server ≡ true
    → s.server.received ≡ sends cs (sends (last ∷ []) rest)
    → All (IsQuery in_pause) cs
    → IsSendable last
    → in_pause (verdict_of last) ≡ some go_on
    → (s' : Session) × (check_breakpoint pc s ≡ ok (go_on, s'))
      × (view s' ≡ act last (acts cs (told ((codes "PAUSED " ++ to_string pc) ∷ []) (view s))))
      × (s'.server.received ≡ rest)
unfolding unlines
pause_session pc s cs last go_on rest on hit is qs h e =
    let paused : Session = record s {
      server = send_line (codes "PAUSED " ++ to_string pc) s.server;
    } in
    let (s', served, seen, same) =
      serve_dialogue in_pause cs last go_on rest (enough paused) paused qs h e is
        (room cs (sends (last ∷ []) rest) s.server.received is) in
    (s', pauses s on pc hit ∙ served, seen, same)

quit_IsSendable : IsSendable quit_program
unfolding IsSendable
quit_IsSendable = tt

quit_ends : after_halt (verdict_of quit_program) ≡ some false
unfolding verdict_of
quit_ends = refl

-- A processor that has halted sends `HALTED` to its debugger. Where the debugger then sends commands
-- other than `QUIT`, which a line can carry, and `QUIT`, the notice ends, after the commands have
-- had their meaning in order: `CONTINUE` and `STEP` do not end it.
pub halt_session :
    (s : Session) (cs : List Command) (rest : Bytes)
    → s.server.connected ≡ true
    → s.server.received ≡ sends cs (sends (quit_program ∷ []) rest)
    → All (IsQuery after_halt) cs
    → (s' : Session) × (notify_halted s ≡ ok s')
      × (view s' ≡ act quit_program (acts cs (told (codes "HALTED" ∷ []) (view s))))
      × (s'.server.received ≡ rest)
unfolding unlines
halt_session s cs rest on is qs =
    let halted = sent_line (codes "HALTED") s in
    let (s', served, seen, same) =
      serve_dialogue after_halt cs quit_program false rest (enough halted) halted qs quit_IsSendable
        quit_ends is (room cs (sends (quit_program ∷ []) rest) s.server.received is) in
    (s', notifies s on ∙ ap left_session served, seen, same)
