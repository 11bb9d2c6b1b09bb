-- ===== src/Boot/Start.antt =====
-- The machine that a command line starts.
use kagu_os.Prelude.{
  ℕ, suc, ◌^◌, ◌≤◌, ◌<◌, ◌≡◌, refl, sym, ap, ◌∙◌, ◌≢◌, true, false, List, [], ◌∷◌, ◌++◌, arith,
  if_intro, ℤ, ltb_ℤ, pos, negsuc,
}
use kagu_os.Std.Number.RoundTrip.{stoi_fits}
use kagu_os.Std.Number.{fits_int, stoi}
use kagu_os.Std.Fault.{◌>>=◌, Result, ok}
use kagu_os.Keyboard.{Keyboard}
use kagu_os.Cpu.Machine.{Machine}
use kagu_os.Std.Text.{Bytes, is_some, codes}
use kagu_os.Std.Files.{Files}
use kagu_os.Kagu.Registers.{min_ram_size}
use kagu_os.Boot.{
  Request, parsed, check_request, Keyboard, Machine, Parsed, Result, build, parse_command, Options,
  is_some, ok, refused, stoi, fail, parse_options, with_options, codes, no_options, machine_of,
}
use kagu_os.Ram

size_of : Parsed Request → ℤ
size_of (refused s) = pos 0
size_of (parsed r) = r.ram_size

with_options_size :
    (firmware : Bytes) (n : ℤ) (o : Parsed Options) (r : Request)
    → with_options firmware n o ≡ parsed r
    → r.ram_size ≡ n
unfolding size_of
with_options_size firmware n (refused s) r h = cc
with_options_size firmware n (parsed o) r h = sym (ap size_of h)

large : (n : ℤ) → ltb_ℤ n (pos min_ram_size) ≡ false → (k : ℕ) × (n ≡ pos k) × (min_ram_size ≤ k)
large (pos k) h = (k, refl, ground arith)
large (negsuc k) h = absurd (ground (arith, h))

abbrev Sized : Request → ℤ → Type 0
Sized r n = (r.ram_size ≡ n) × (k : ℕ) × (n ≡ pos k) × (min_ram_size ≤ k)

checked_size :
    (fs : Files) (prog firmware : Bytes) (n : ℤ) (opts : List Bytes) (r : Request)
    → check_request fs prog firmware n opts ≡ parsed r
    → Sized r n
unfolding check_request
checked_size fs prog firmware n opts r =
    if_intro (λ (x : Parsed Request). x ≡ parsed r → Sized r n) (ltb_ℤ n (pos min_ram_size)) _ _
      (λ e h. cc)
      (λ e.
        if_intro (λ (x : Parsed Request). x ≡ parsed r → Sized r n) (is_some (fs.content firmware))
          _ _
          (λ _ h.
            let (k, at, low) = large n e in
            (with_options_size firmware n (parse_options prog opts no_options) r h, k, at, low))
          (λ _ h. cc))

command_size :
    (fs : Files) (prog firmware size : Bytes) (opts : List Bytes) (r : Request) (s : Result ℤ)
    → stoi size ≡ s
    → elim s [
      | fail e ↦ refused (codes "Error: Invalid RAM size: " ++ (size ++ 10 ∷ []))
      | ok n ↦ check_request fs prog firmware n opts
    ]
      ≡ parsed r
    → (n : ℤ) × (fits_int n ≡ true) × Sized r n
command_size fs prog firmware size opts r (fail e) is h = cc
command_size fs prog firmware size opts r (ok n) is h =
    (n, stoi_fits size n is, checked_size fs prog firmware n opts r h)

accepted :
    (fs : Files) (prog : Bytes) (args : List Bytes) (r : Request)
    → parse_command fs prog args ≡ parsed r
    → (n : ℤ) × (fits_int n ≡ true) × Sized r n
unfolding parse_command
accepted fs prog [] r h = cc
accepted fs prog (firmware ∷ []) r h = cc
accepted fs prog (firmware ∷ size ∷ opts) r h =
    command_size fs prog firmware size opts r (stoi size) refl h

-- A machine that is not running yet, in kernel mode, with a memory of this size.
abbrev pub IsFresh : ℕ → Machine → Type 0
IsFresh k m = (m.ram.size ≡ k) × (m.ram.kernel_mode ≡ true) × (m.running ≡ false)

abbrev fresh_ram : ℕ → Ram.Ram
fresh_ram k = record { cells = λ i. codes "0"; size = k; kernel_mode = true }

new_ok : (k : ℕ) → min_ram_size ≤ k → suc k < 2 ^ 31 → Ram.new (pos k) ≡ ok (fresh_ram k)
unfolding Ram.new fits_int
new_ok k low high = ground arith

build_size :
    (fs : Files) (keyboard : Keyboard) (client : Bytes) (r : Request) (k : ℕ)
    → r.ram_size ≡ pos k
    → min_ram_size ≤ k
    → suc k < 2 ^ 31
    → (m : Machine) × (build fs keyboard client r ≡ ok m) × IsFresh k m
unfolding build machine_of
build_size fs keyboard client r k is low high = (
  machine_of fs keyboard client r (fresh_ram k),
  ap (λ n. Ram.new n >>= λ ram. ok (machine_of fs keyboard client r ram)) is
      ∙ ap (λ (x : Result Ram.Ram). x >>= λ ram. ok (machine_of fs keyboard client r ram))
          (new_ok k low high),
  (refl, refl, refl),
)

below : (k : ℕ) → fits_int (pos k) ≡ true → k ≢ 2147483647 → suc k < 2 ^ 31
unfolding fits_int
below k h ne = ground (arith, h, ne)

-- Where the command line is accepted and does not ask for 2147483647 cells, the machine is built: its
-- memory has the size that was asked for, which is at least the least one, and it is in kernel mode
-- and not running yet.
pub accepted_starts :
    (fs : Files) (keyboard : Keyboard) (client : Bytes) (prog : Bytes) (args : List Bytes)
    (r : Request)
    → parse_command fs prog args ≡ parsed r
    → r.ram_size ≢ pos 2147483647
    → (k : ℕ) × (m : Machine) × (r.ram_size ≡ pos k)
      × (min_ram_size ≤ k)
      × (build fs keyboard client r ≡ ok m)
      × IsFresh k m
accepted_starts fs keyboard client prog args r h ne =
    let (n, fits, (is, k, at, low)) = accepted fs prog args r h in
    let fits' : fits_int (pos k) ≡ true = ap fits_int (sym at) ∙ fits in
    let small : suc k < 2 ^ 31 = below k fits' (λ e. ne (is ∙ at ∙ ap pos e)) in
    let (m, ok_is, fresh) = build_size fs keyboard client r k (is ∙ at) low small in
    (k, m, is ∙ at, low, ok_is, fresh)
