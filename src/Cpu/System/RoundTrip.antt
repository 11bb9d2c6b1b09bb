-- ===== src/Cpu/System/RoundTrip.antt =====
-- A system call and the return from it, cell by cell.
use kagu_os.Prelude.{
  ℕ, suc, ◌+◌, ◌^◌, ◌≤◌, ◌<◌, ◌≡◌, refl, sym, ap, ◌∙◌, subst, ◌≢◌, ◌⊎◌, inl, true, false, [], arith,
  pos,
}
use kagu_os.Interrupt.{handler_address}
use kagu_os.Std.Fault.{ok, Result}
use kagu_os.Std.Number.{to_string, stoi}
use kagu_os.Std.Text.{Bytes}
use kagu_os.Ram.Locate.{IsProcess}
use kagu_os.Ram.{Ram, get_process_start, set_kernel_mode}
use kagu_os.Cpu.Machine.{Machine, should_debug_print}
use kagu_os.Cpu.Machine.Runs.{Runs, with_ram}
use kagu_os.Cpu.System.{
  exec_sys_call, exec_sys_return, Bytes, Ram, reg_res, to_string, reg_error, stoi, ok,
}
use kagu_os.Cpu.System.Copy.{saved_at, restored_at}
use kagu_os.Cpu.System.Calls.{entered, call_context, Runs-exec_sys_call}
use kagu_os.Cpu.System.Returns.{returned, IsReturning, Runs-exec_sys_return}
use kagu_os.Kagu.Registers.{
  program_counter, address, sys_interrupt_data, proc_start_address, sys_call_handler,
  user_space_end, kernel_start, reg_res, reg_error,
}

-- What a system call makes of the memory of a process: the registers are saved at its start, and
-- nothing else changes but the context and the program counter.
pub record IsEntered (start pc h : ℕ) (before after : Ram) : Type 0 where
  pub kernel : after.kernel_mode ≡ true
  pub same_size : after.size ≡ before.size
  pub saves : (i : ℕ) → 1 ≤ i → i ≤ user_space_end → after.cells (i + start) ≡ before.cells i
  pub context : after.cells (address sys_interrupt_data) ≡ call_context pc
  pub counter : after.cells (address program_counter) ≡ to_string (pos h)
  pub others :
      (k : ℕ)
      → k ≢ address program_counter
      → k ≢ address sys_interrupt_data
      → (k ≤ start) ⊎ (start + user_space_end < k)
      → after.cells k ≡ before.cells k

pub entered-IsEntered :
    (start pc h : ℕ) (ram : Ram)
    → address kernel_start ≤ start
    → IsEntered start pc h ram (entered start pc h ram)
unfolding set_kernel_mode
entered-IsEntered start pc h ram above = record {
  kernel = refl;
  same_size = refl;
  saves = λ i low high.
      ground (arith, saved_at user_space_end 1 start (i + start) ram.cells (omega arith) above);
  context = refl;
  counter = refl;
  others =
      λ k p c far. ground (arith, saved_at user_space_end 1 start k ram.cells (omega arith) above);
}

-- In a process without debug output, whose program counter and system call handler are numbers,
-- `execSysCall` ends in kernel mode before the handler, with the registers 1 to 11 saved at the start of the process and
-- the program counter saved in the context; every other cell is unchanged.
pub sys_call_enters :
    (m : Machine) (start end pc h : ℕ)
    → IsProcess start end m.ram
    → should_debug_print m ≡ false
    → stoi (m.ram.cells (address program_counter)) ≡ ok (pos pc)
    → handler_address (m.ram.cells (address sys_call_handler)) ≡ ok (pos (suc h))
    → h < 2 ^ 31
    → (ram : Ram) × Runs exec_sys_call m tt (with_ram m ram) × IsEntered start pc h m.ram ram
sys_call_enters m start end pc h p debug pc_is handler small = (
  entered start pc h m.ram,
  Runs-exec_sys_call m start end pc h p debug pc_is handler small,
  entered-IsEntered start pc h m.ram p.above,
)

-- What the return makes of the memory: the registers come back, but for the result and the error.
pub record IsReturned (start pc : ℕ) (res err : Bytes) (before after : Ram) : Type 0 where
  pub user : after.kernel_mode ≡ false
  pub restores :
      (i : ℕ)
      → 1 ≤ i
      → i ≤ user_space_end
      → i ≢ address reg_res
      → i ≢ address reg_error
      → after.cells i ≡ before.cells (i + start)
  pub result : after.cells (address reg_res) ≡ res
  pub failure : after.cells (address reg_error) ≡ err
  pub cleared : after.cells (address sys_interrupt_data) ≡ []
  pub resumed : after.cells (address program_counter) ≡ to_string (pos pc)
  pub others :
      (k : ℕ)
      → user_space_end < k
      → k ≢ address program_counter
      → k ≢ address sys_interrupt_data
      → after.cells k ≡ before.cells k

returned-IsReturned :
    (start pc : ℕ) (res err : Bytes) (ram : Ram)
    → address kernel_start ≤ start
    → IsReturned start pc res err ram (returned start pc res err ram)
unfolding set_kernel_mode
returned-IsReturned start pc res err ram above = record {
  user = refl;
  restores = λ i low high r e.
      ground (arith, restored_at user_space_end 1 start i ram.cells (omega arith) above);
  result = refl;
  failure = refl;
  cleared = refl;
  resumed = refl;
  others = λ k far p c.
      ground (arith, restored_at user_space_end 1 start k ram.cells (omega arith) above);
}

-- In a kernel with the start of a process and the context of its system call in their registers,
-- and without debug output, `execSysReturn` ends in user mode behind the call: the registers come
-- back from the start of the process, the result and the error are the kernel's, the context is
-- empty, and every other cell is unchanged.
pub sys_return_restores :
    (m : Machine) (start pc : ℕ) (res err : Bytes)
    → IsReturning start pc m.ram
    → m.debug_mode ≡ false
    → m.debug_user_only ≡ false
    → (ram : Ram) × Runs (exec_sys_return res err) m tt (with_ram m ram)
      × IsReturned start pc res err m.ram ram
sys_return_restores m start pc res err r d u = (
  returned start pc res err m.ram,
  Runs-exec_sys_return m start pc r res err d u,
  returned-IsReturned start pc res err m.ram r.above,
)

-- What the kernel must leave alone between the call and the return.
pub record IsKept (start : ℕ) (before after : Ram) : Type 0 where
  pub same_size : after.size ≡ before.size
  pub bound : after.cells (address proc_start_address) ≡ before.cells (address proc_start_address)
  pub context : after.cells (address sys_interrupt_data) ≡ before.cells (address sys_interrupt_data)
  pub area :
      (i : ℕ) → 1 ≤ i → i ≤ user_space_end → after.cells (i + start) ≡ before.cells (i + start)

pub kept-IsReturning :
    (start end pc h : ℕ) (before entry after : Ram)
    → IsProcess start end before
    → IsEntered start pc h before entry
    → IsKept start entry after
    → IsReturning start pc after
unfolding get_process_start
kept-IsReturning start end pc h before entry after p e k = record {
  bound =
      cc (
        p.start_is,
        k.bound,
        e.others 21 (omega arith) (omega arith) (inl (omega (arith, p.above))),
      );
  context = k.context ∙ e.context;
  above = p.above;
  inside = omega (arith, p.ordered, p.inside, k.same_size, e.same_size);
  small = omega (arith, p.small, k.same_size, e.same_size);
}

pub called-IsEntered :
    (m : Machine) (start end pc h : ℕ) (entry : Ram)
    → IsProcess start end m.ram
    → should_debug_print m ≡ false
    → stoi (m.ram.cells (address program_counter)) ≡ ok (pos pc)
    → handler_address (m.ram.cells (address sys_call_handler)) ≡ ok (pos (suc h))
    → h < 2 ^ 31
    → Runs exec_sys_call m tt (with_ram m entry)
    → IsEntered start pc h m.ram entry
called-IsEntered m start end pc h entry p debug pc_is handler small call =
    let (ram, runs, e) = sys_call_enters m start end pc h p debug pc_is handler small in
    subst (IsEntered start pc h m.ram)
      (ap (λ (x : Result (Unit {0}) × Machine). x.1.ram) (sym runs ∙ call)) e

-- A process without debug output, whose program counter and system call handler are numbers, makes
-- a system call; the kernel runs without touching the saved registers, the context and the start
-- of the process, and returns with a result and an error. The process then goes on in user mode
-- behind the call, with the registers it had and the kernel's result and error.
pub sys_call_round_trip :
    (m n : Machine) (start end pc h : ℕ) (entry : Ram) (res err : Bytes)
    → IsProcess start end m.ram
    → should_debug_print m ≡ false
    → stoi (m.ram.cells (address program_counter)) ≡ ok (pos pc)
    → handler_address (m.ram.cells (address sys_call_handler)) ≡ ok (pos (suc h))
    → h < 2 ^ 31
    → Runs exec_sys_call m tt (with_ram m entry)
    → IsKept start entry n.ram
    → n.debug_mode ≡ false
    → n.debug_user_only ≡ false
    → (ram : Ram) × Runs (exec_sys_return res err) n tt (with_ram n ram)
      × (ram.kernel_mode ≡ false)
      × (ram.cells (address program_counter) ≡ to_string (pos pc))
      × (ram.cells (address reg_res) ≡ res)
      × (ram.cells (address reg_error) ≡ err)
      × ((i : ℕ)
          → 1 ≤ i
          → i ≤ user_space_end
          → i ≢ address reg_res
          → i ≢ address reg_error
          → ram.cells i ≡ m.ram.cells i)
sys_call_round_trip m n start end pc h entry res err p debug pc_is handler small call k d u =
    let e = called-IsEntered m start end pc h entry p debug pc_is handler small call in
    let back = kept-IsReturning start end pc h m.ram entry n.ram p e k in
    let (ram, runs, r) = sys_return_restores n start pc res err back d u in
    (
      ram,
      runs,
      r.user,
      r.resumed,
      r.result,
      r.failure,
      λ i low high a b. r.restores i low high a b ∙ k.area i low high ∙ e.saves i low high,
    )
