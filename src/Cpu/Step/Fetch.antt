-- ===== src/Cpu/Step/Fetch.antt =====
-- The fetch of an instruction outside the region of a process, in `step` of cpu.cpp.
use kagu_os.Prelude.{ℕ, suc, ◌+◌, ◌^◌, ◌<◌, ◌≡◌, refl, ◌∙◌, arith, update_ne, pos}
use kagu_os.Ram.ReadWrite.{read-failed}
use kagu_os.Std.Text.{Bytes}
use kagu_os.Std.Number.{to_string}
use kagu_os.Std.Fault.{fail, ram_violation}
use kagu_os.Ram.Locate.{IsProcess, locate_user_violation}
use kagu_os.Ram.{Ram, get_process_start, get_process_end, read, store, violation_message, reading}
use kagu_os.Cpu.Machine.{Machine}
use kagu_os.Cpu.Step.Debugged.{IsQuiet, IsUnpaused, counted, step_fetches}
use kagu_os.Cpu.Step.{fetch, step, Bytes, fail, ram_violation, to_string, fetch}
use kagu_os.Cpu.Float.{FloatOps}

-- The program counter is no part of what makes a process.
pub counter-IsProcess :
    (start end : ℕ) (v : Bytes) (ram : Ram)
    → IsProcess start end ram
    → IsProcess start end (store 16 v ram)
unfolding get_process_start get_process_end
counter-IsProcess start end v ram p = record {
  user = p.user;
  start_is = cc (p.start_is, update_ne ram.cells 16 21 v (omega arith));
  end_is = cc (p.end_is, update_ne ram.cells 16 22 v (omega arith));
  above = p.above;
  ordered = p.ordered;
  inside = p.inside;
  small = p.small;
}

fetch_fails :
    (n start end : ℕ) (ram : Ram)
    → IsProcess start end ram
    → end < start + n
    → n + start < 2 ^ 31
    → read (pos n) ram
      ≡ fail (ram_violation (violation_message reading (pos n) (pos (n + start))) (pos n))
fetch_fails n start end ram p past small =
    read-failed (pos n)
      (ram_violation (violation_message reading (pos n) (pos (n + start))) (pos n)) ram
      (locate_user_violation reading n start end ram p past small)

-- In a process without debug output that no debugger pauses, whose program counter is about to leave
-- the region of the process, `step` fails with a violation of the memory, which no handler turns into
-- a crash of the process: only the program counter has changed.
pub fetch_escapes :
    (float : FloatOps) (m : Machine) (n start end : ℕ)
    → IsProcess start end m.ram
    → IsQuiet n m
    → IsUnpaused (pos (suc n)) m.debug_server
    → end < start + suc n
    → suc n + start < 2 ^ 31
    → step float m ≡ (
      fail (
          ram_violation
            (violation_message reading (pos (suc n)) (pos (suc n + start)))
            (pos (suc n))),
      counted n m,
    )
unfolding fetch
fetch_escapes float m n start end p q alone past small =
    step_fetches float n m q alone
    ∙ rw
        (fetch_fails (suc n) start end (counted n m).ram
          (counter-IsProcess start end (to_string (pos (suc n))) m.ram p) past small)
        refl
