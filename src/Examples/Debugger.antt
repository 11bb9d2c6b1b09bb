-- ===== src/Examples/Debugger.antt =====
-- The theorems on the debug server at dialogues of a few lines.
use kagu_os.Prelude.{◌+◌, ◌≡◌, refl, true, false, some, List, [], ◌∷◌, ◌++◌, arith, All, pos}
use kagu_os.Ram.{store}
use kagu_os.DebugServer.Fuel.{IsAnswered, serve-enough}
use kagu_os.Cpu.Step.Debugged.{IsQuiet, counted, debugged_step, hung_up_step, step_fetches}
use kagu_os.Cpu.Debugger.{with_session, session_of}
use kagu_os.Cpu.Step.{step, fetch}
use kagu_os.Cpu.Machine.{Machine, should_debug_print}
use kagu_os.DebugServer.Lines.{is_line}
use kagu_os.Std.Text.{Bytes, codes}
use kagu_os.Std.Fault.{ok}
use kagu_os.Std.Number.{to_string, fits_int, stoi}
use kagu_os.Cpu.Tests.{blank, fresh, no_floats}
use kagu_os.DebugServer.Sessions.{halt_session, sent_line}
use kagu_os.DebugServer.Dialogue.{sends, acts, IsQuery}
use kagu_os.DebugServer.Protocol.{
  Command, view, act, told, verdict_of, print, IsSendable, break_at, show, assign, single_step,
  proceed, quit_program,
}
use kagu_os.DebugServer.Commands.{Session, unread}
use kagu_os.DebugServer.Pause.{hits, in_pause, after_halt, notify_halted, serve, enough}
use kagu_os.DebugServer.{DebugServer, read_line}

-- A debugger that has connected and will send this text.
abbrev debugger : Bytes → DebugServer
debugger text = record {
  connected = true;
  breakpoints = pos 6 ∷ [];
  step_mode = false;
  received = text;
  sent = [];
}

abbrev queries : List Command
queries = break_at (pos 12) ∷ show (pos 1) (pos 2) ∷ assign (pos 2) (codes "two words") ∷ []

abbrev dialogue : Bytes
dialogue = codes "BREAK 12\nSTATE 1 2\nSET 2 two words\nSTEP\nQUIT\n"

dialogue_is : dialogue ≡ sends queries (sends (single_step ∷ []) (codes "QUIT\n"))
unfolding sends print to_string
dialogue_is = refl

queries-in_pause : All (IsQuery in_pause) queries
unfolding IsSendable verdict_of fits_int is_line
queries-in_pause = ((refl, refl), (((refl, refl, refl), refl), (((refl, refl), refl), tt)))

queries-after_halt : All (IsQuery after_halt) queries
unfolding IsSendable verdict_of fits_int is_line
queries-after_halt = ((refl, refl), (((refl, refl, refl), refl), (((refl, refl), refl), tt)))

abbrev session : Bytes → Session
session text = record { server = debugger text; ram = blank }

hits_six : hits (pos 6) (debugger dialogue) ≡ true
unfolding hits
hits_six = refl

step_IsSendable : IsSendable single_step
unfolding IsSendable
step_IsSendable = tt

step_goes_on : in_pause (verdict_of single_step) ≡ some true
unfolding verdict_of
step_goes_on = refl

abbrev halted : Bytes
halted = codes "CONTINUE\nBREAK 12\nSTATE 1 2\nSET 2 two words\nQUIT\n"

halted_is : halted ≡ sends (proceed ∷ queries) (sends (quit_program ∷ []) [])
unfolding sends print to_string
halted_is = refl

proceed_after_halt : IsQuery after_halt proceed
unfolding IsSendable verdict_of
proceed_after_halt = (tt, refl)

halt_session_example :
    (s : Session) × (notify_halted (session halted) ≡ ok s)
    × (view s
        ≡ act quit_program
            (acts (proceed ∷ queries) (told (codes "HALTED" ∷ []) (view (session halted)))))
    × (s.server.received ≡ [])
halt_session_example =
    halt_session (session halted) (proceed ∷ queries) [] refl halted_is
      (proceed_after_halt, queries-after_halt)

serve-enough_example :
    (serve in_pause (enough (session dialogue) + 3) (session dialogue)
      ≡ serve in_pause (enough (session dialogue)) (session dialogue))
    × IsAnswered in_pause
        (session dialogue)
        (serve in_pause (enough (session dialogue)) (session dialogue))
serve-enough_example = serve-enough in_pause 3 (session dialogue)

-- A machine with a breakpoint at its next address.
abbrev paused : Bytes → Machine
paused text = record (fresh (store 16 (codes "5") blank)) { debug_server = some (debugger text) }

paused-IsQuiet : (text : Bytes) → IsQuiet 5 (paused text)
unfolding should_debug_print stoi
paused-IsQuiet text = record {
  quiet = refl;
  room = omega arith;
  counter = refl;
  small = omega arith;
}

debugged_step_example :
    (s : Session) × (step no_floats (paused dialogue)
      ≡ fetch no_floats (pos 6) (with_session (paused dialogue) s))
    × (view s
        ≡ act single_step (
            acts queries (
              told
                (codes "PAUSED 6" ∷ [])
                (view (session_of (debugger dialogue) (counted 5 (paused dialogue)))))))
    × (s.server.received ≡ codes "QUIT\n")
unfolding to_string
debugged_step_example =
    debugged_step no_floats 5 (paused dialogue) (debugger dialogue) queries single_step true
      (codes "QUIT\n") (paused-IsQuiet dialogue) refl refl hits_six dialogue_is queries-in_pause
      step_IsSendable step_goes_on

hits_hung_up : hits (pos 6) (debugger []) ≡ true
unfolding hits
hits_hung_up = refl

nothing_read : (read_line []).0 ≡ []
unfolding read_line
nothing_read = refl

hung_up_step_example : step no_floats (paused []) ≡ (
  ok tt,
  record (with_session (paused []) (
      unread (read_line []).1 (
        sent_line
          (codes "PAUSED " ++ to_string (pos 6))
          (session_of (debugger []) (counted 5 (paused [])))))) { running = false },
)
hung_up_step_example =
    hung_up_step no_floats 5 (paused []) (debugger []) (paused-IsQuiet []) refl refl hits_hung_up
      nothing_read

-- A machine whose next address is not the one of its breakpoint.
abbrev unpaused : Machine
unpaused = record (fresh (store 16 (codes "7") blank)) { debug_server = some (debugger dialogue) }

unpaused-IsQuiet : IsQuiet 7 unpaused
unfolding should_debug_print stoi
unpaused-IsQuiet = record { quiet = refl; room = omega arith; counter = refl; small = omega arith }

no_hit : hits (pos 8) (debugger dialogue) ≡ false
unfolding hits
no_hit = refl

step_fetches_example : step no_floats unpaused ≡ fetch no_floats (pos 8) (counted 7 unpaused)
step_fetches_example = step_fetches no_floats 7 unpaused unpaused-IsQuiet no_hit
