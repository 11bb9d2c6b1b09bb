-- ===== src/Cpu/Step/Debugged.antt =====
-- The check of the debugger in `step` of cpu.cpp.
use kagu_os.Prelude.{
  ℕ, suc, ◌^◌, ◌≤◌, ◌<◌, ◌≡◌, refl, sym, ap, ◌∙◌, Bool, true, false, not, Option, none, some, List,
  [], ◌∷◌, ◌++◌, arith, if◌then◌else◌, if_intro, All, ℤ, pos,
}
use kagu_os.DebugServer.Sessions.{sent_line, pause_session, pauses}
use kagu_os.DebugServer.Commands.{unread, Session}
use kagu_os.DebugServer.Dialogue.{sends, IsQuery, acts}
use kagu_os.Std.Text.{Bytes, codes}
use kagu_os.DebugServer.Protocol.{Command, IsSendable, verdict_of, view, act, told}
use kagu_os.DebugServer.Pause.{serve, hits, in_pause, check_breakpoint}
use kagu_os.DebugServer.{DebugServer, read_line}
use kagu_os.Std.Fault.{Result, ok}
use kagu_os.Std.Number.{to_string, stoi, fits_int}
use kagu_os.Std.Number.RoundTrip.{stoi-to_string}
use kagu_os.Cpu.Float.{FloatOps}
use kagu_os.Ram.{Ram, store}
use kagu_os.Kagu.Registers.{program_counter, address}
use kagu_os.Cpu.Machine.{Machine, should_debug_print, continue}
use kagu_os.Cpu.Machine.Runs.{with_ram, Runs-get_program_counter}
use kagu_os.Cpu.Machine.Jumps.{Runs-jump_next}
use kagu_os.Cpu.Debugger.{check_debugger, with_session, session_of, settle_check}
use kagu_os.Cpu.Step.{step, fetch, Bytes, codes}
use kagu_os.Cpu.Execute.{stop}

-- The program counter has been incremented.
abbrev pub counted : ℕ → Machine → Machine
counted n m = with_ram m (store (address program_counter) (to_string (pos (suc n))) m.ram)

-- A machine without debug output whose memory has the program counter, which holds a number whose
-- successor is an `int`.
pub record IsQuiet (n : ℕ) (m : Machine) : Type 0 where
  pub quiet : should_debug_print m ≡ false
  pub room : address program_counter ≤ m.ram.size
  pub counter : stoi (m.ram.cells (address program_counter)) ≡ ok (pos n)
  pub small : suc n < 2 ^ 31

still_quiet :
    (m : Machine) (ram : Ram)
    → should_debug_print m ≡ false
    → ram.kernel_mode ≡ m.ram.kernel_mode
    → should_debug_print (with_ram m ram) ≡ false
unfolding should_debug_print
still_quiet m ram debug same = ground arith

-- The debugger of a machine, where it has one, does not pause it at an address.
abbrev pub IsUnpaused : ℤ → Option DebugServer → Type 0
IsUnpaused pc none = Unit
IsUnpaused pc (some d) = hits pc d ≡ false

passes : (pc : ℤ) (s : Session) → hits pc s.server ≡ false → check_breakpoint pc s ≡ ok (true, s)
unfolding check_breakpoint
passes pc s miss =
    if_intro (λ r. r ≡ ok (true, s)) (not s.server.connected) _ _ (λ _. refl)
      (λ _.
        if_intro (λ r. r ≡ ok (true, s)) (not (hits pc s.server)) _ _ (λ _. refl)
          (λ e. absurd (ground (arith, e, miss))))

asked :
    (pc : ℤ) (m : Machine) (o : Option DebugServer)
    → m.debug_server ≡ o
    → check_debugger pc m ≡ elim o [
      | none ↦ (ok true, m)
      | some d ↦ settle_check m (check_breakpoint pc (session_of d m))
    ]
unfolding check_debugger
asked pc m o is =
    ap
      (λ (o : Option DebugServer). elim o [
        | none ↦ (ok true, m)
        | some d ↦ settle_check m (check_breakpoint pc (session_of d m))
      ])
      is

unpaused :
    (pc : ℤ) (m : Machine) (o : Option DebugServer)
    → m.debug_server ≡ o
    → IsUnpaused pc o
    → check_debugger pc m ≡ (ok true, m)
unpaused pc m none is h = asked pc m none is
unpaused pc m (some d) is h =
    asked pc m (some d) is
    ∙ ap (settle_check m) (passes pc (session_of d m) h)
    ∙ ap (λ (o : Option DebugServer). (ok true, record m { debug_server = o })) (sym is)

hangs_up :
    (n : ℕ) (s : Session)
    → (read_line s.server.received).0 ≡ []
    → serve in_pause (suc n) s ≡ ok (false, unread (read_line s.server.received).1 s)
unfolding serve
hangs_up n s empty = rw empty refl

module _ (float : FloatOps) where
  abbrev checked : ℕ → Result Bool × Machine → Result (Unit {0}) × Machine
  checked n r = continue (λ go_on. if go_on then fetch float (pos (suc n)) else stop) r

  step_checks :
      (n : ℕ) (m : Machine)
      → IsQuiet n m
      → step float m ≡ checked n (check_debugger (pos (suc n)) (counted n m))
  unfolding step
  step_checks n m q =
      rw
        (
          Runs-jump_next m n q.room q.small q.counter,
          still_quiet m (counted n m).ram q.quiet refl,
          Runs-get_program_counter (counted n m) (pos (suc n)) q.room
              (stoi-to_string (pos (suc n)) (unfold fits_int in ground (arith, q.small))),
        )
        refl

  -- A machine without debug output whose next address is an `int`, and which has no debugger or one
  -- that does not pause it there, fetches the instruction there: the debugger changes nothing.
  pub step_fetches :
      (n : ℕ) (m : Machine)
      → IsQuiet n m
      → IsUnpaused (pos (suc n)) m.debug_server
      → step float m ≡ fetch float (pos (suc n)) (counted n m)
  step_fetches n m q h =
      step_checks n m q
      ∙ ap (checked n) (unpaused (pos (suc n)) (counted n m) m.debug_server refl h)

  -- Where a machine without debug output, whose next address is an `int`, has a debugger that is
  -- connected and pauses it there, and the debugger sends commands that do not end the pause and then
  -- one that does, all of which a line can carry, `step` fetches the instruction at that address or,
  -- if the last command was `QUIT`, stops the processor: with the memory, the breakpoints, the mode
  -- and the text sent that the commands leave, one behind the other, after `PAUSED` and the address.
  pub debugged_step :
      (n : ℕ) (m : Machine) (d : DebugServer) (cs : List Command) (last : Command) (go_on : Bool)
      (rest : Bytes)
      → IsQuiet n m
      → m.debug_server ≡ some d
      → d.connected ≡ true
      → hits (pos (suc n)) d ≡ true
      → d.received ≡ sends cs (sends (last ∷ []) rest)
      → All (IsQuery in_pause) cs
      → IsSendable last
      → in_pause (verdict_of last) ≡ some go_on
      → (s : Session) × (step float m
          ≡ (if go_on then fetch float (pos (suc n)) else stop) (with_session m s))
        × (view s
            ≡ act last (
                acts cs (
                  told
                    ((codes "PAUSED " ++ to_string (pos (suc n))) ∷ [])
                    (view (session_of d (counted n m))))))
        × (s.server.received ≡ rest)
  debugged_step n m d cs last go_on rest q is on hit text qs h e =
      let (s, checks, seen, same) =
        pause_session (pos (suc n)) (session_of d (counted n m)) cs last go_on rest on hit text qs h
          e in
      (
        s,
        step_checks n m q
            ∙ ap (checked n) (
                asked (pos (suc n)) (counted n m) (some d) is
                ∙ ap (settle_check (counted n m)) checks),
        seen,
        same,
      )

  -- Where a machine without debug output, whose next address is an `int`, has a debugger that is
  -- connected and pauses it there, and the next line of its client is empty, as it is when the client
  -- has hung up, `step` stops the processor: but for that, only the program counter and the texts
  -- that are sent and read have changed.
  pub hung_up_step :
      (n : ℕ) (m : Machine) (d : DebugServer)
      → IsQuiet n m
      → m.debug_server ≡ some d
      → d.connected ≡ true
      → hits (pos (suc n)) d ≡ true
      → (read_line d.received).0 ≡ []
      → step float m ≡ (
        ok tt,
        record (with_session m (
            unread (read_line d.received).1 (
              sent_line
                (codes "PAUSED " ++ to_string (pos (suc n)))
                (session_of d (counted n m))))) { running = false },
      )
  hung_up_step n m d q is on hit empty =
      step_checks n m q
      ∙ ap (checked n) (
          asked (pos (suc n)) (counted n m) (some d) is
          ∙ ap (settle_check (counted n m)) (
              pauses (session_of d (counted n m)) on (pos (suc n)) hit
              ∙ hangs_up _
                  (sent_line (codes "PAUSED " ++ to_string (pos (suc n)))
                    (session_of d (counted n m)))
                  empty))
