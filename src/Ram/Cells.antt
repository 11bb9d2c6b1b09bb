-- ===== src/Ram/Cells.antt =====
-- The cell that an address reaches in either mode, and what a store does to the other addresses.
use kagu_os.Prelude.{
  dec_le, ℕ, zero, suc, ◌+◌, ◌≤◌, ◌<◌, ◌≡◌, refl, ◌≢◌, ◌⊎◌, inl, inr, true, arith, update_ne,
  if◌then◌else◌, ℤ, ◌+ℤ◌, ltb_ℤ, pos,
}
use kagu_os.Std.Fault.{Result, ok, ◌>>=◌}
use kagu_os.Std.Number.{fits_int, int_add}
use kagu_os.Kagu.Registers.{user_space_end, address, kernel_start}
use kagu_os.Ram.{
  Ram, AccessKind, subscript, locate, Bytes, fail, ram_violation, store, violation_message,
  get_process_start, get_process_end, translate,
}
use kagu_os.Ram.Locate.{
  IsProcess, locate_user_register, locate-translate, user_register-none, translate_bounds,
  locate_kernel, locate_user,
}

-- Where an access by a non-negative address ends up, if it ends up anywhere.
unfoldable pub IsCellOf : ℕ → ℕ → ℕ → ℕ → Type 0
IsCellOf a start end n =
    ((1 ≤ a) × (a ≤ user_space_end) × (n ≡ a))
    ⊎ (((a ≡ 0) ⊎ (user_space_end < a)) × (n ≡ a + start) × (n ≤ end))

translated_sound :
    (a start end n : ℕ) (ram : Ram) (f : ℤ → Result ℕ)
    → ((int_add (pos a) (pos start) >>= λ t.
          if ltb_ℤ (pos end) t then f t else subscript t ram.size)
        ≡ ok n)
    → ((t : ℤ) → f t ≢ ok n)
    → (n ≡ a + start) × (n ≤ end)
unfolding int_add fits_int ◌+ℤ◌
translated_sound a start end n ram f h never = ground (arith, never (pos (a + start)))

small_or_large : (a : ℕ) → ((1 ≤ a) × (a ≤ user_space_end)) ⊎ ((a ≡ 0) ⊎ (user_space_end < a))
small_or_large a = elim (dec_le 1 a) [
  | yes h ↦ elim (dec_le a user_space_end) [ yes k ↦ inl (h, k) | no k ↦ inr (inr (omega arith)) ]
  | no h ↦ inr (inl (omega arith))
]

module _ (kind : AccessKind) (a start end : ℕ) (ram : Ram) (p : IsProcess start end ram) where
  pub locate_user_sound : (n : ℕ) → locate kind (pos a) ram ≡ ok n → IsCellOf a start end n
  unfolding IsCellOf
  locate_user_sound n h = elim (small_or_large a) [
    | inl (low, high) ↦ inl (low, high, (cc (locate_user_register kind a ram p.user low high)))
    | inr far ↦
        let (is, fits) =
          translated_sound a start end n ram
            (λ t. fail (ram_violation (violation_message kind (pos a) t) (pos a)))
            (rw
              (
                locate-translate kind (pos a) ram p.user (user_register-none a far),
                translate_bounds kind (pos a) ram (pos start) (pos end) p.start_is p.end_is,
              )
              at h)
            (λ t e. cc) in
        inr (far, is, fits)
  ]

-- The located cell is never one of the kernel's registers, whose numbers are 12 to 40.
pub IsCellOf-outside :
    (a start end n : ℕ)
    → address kernel_start ≤ start
    → IsCellOf a start end n
    → (n ≤ user_space_end) ⊎ (start ≤ n)
unfolding IsCellOf
IsCellOf-outside a start end n h c = omega arith

IsCellOf-injective :
    (a b start end n : ℕ)
    → address kernel_start ≤ start
    → IsCellOf a start end n
    → IsCellOf b start end n
    → a ≡ b
unfolding IsCellOf
IsCellOf-injective a b start end n h c d = omega arith

pub IsProcess-store :
    (start end n : ℕ) (v : Bytes) (ram : Ram)
    → (n ≤ user_space_end) ⊎ (start ≤ n)
    → IsProcess start end ram
    → IsProcess start end (store n v ram)
unfolding get_process_start get_process_end
IsProcess-store start end n v ram h p = record {
  user = p.user;
  start_is = cc (p.start_is, update_ne ram.cells n 21 v (omega (arith, p.above)));
  end_is = cc (p.end_is, update_ne ram.cells n 22 v (omega (arith, p.above)));
  above = p.above;
  ordered = p.ordered;
  inside = p.inside;
  small = p.small;
}

-- A memory in which accesses are defined: in kernel mode, or with a process running.
pub data IsReady (ram : Ram) : Type 0 where
  kernel : ram.kernel_mode ≡ true → IsReady ram
  process : (start end : ℕ) → IsProcess start end ram → IsReady ram

locate_user_complete :
    (kind : AccessKind) (a start end n : ℕ) (ram : Ram)
    → IsProcess start end ram
    → IsCellOf a start end n
    → locate kind (pos a) ram ≡ ok n
unfolding IsCellOf
locate_user_complete kind a start end n ram p (inl (low, high, is)) =
    rw is (locate_user_register kind a ram p.user low high)
locate_user_complete kind a start end n ram p (inr (far, is, fits)) =
    rw is (locate_user kind a start end ram p far (omega arith))

locate_kernel_sound :
    (kind : AccessKind) (a n : ℕ) (ram : Ram)
    → ram.kernel_mode ≡ true
    → locate kind (pos a) ram ≡ ok n
    → (1 ≤ a) × (a ≤ ram.size) × (n ≡ a)
unfolding locate
locate_kernel_sound kind zero n ram k h = ground arith
locate_kernel_sound kind (suc a) n ram k h = ground arith

translate-store :
    (kind : AccessKind) (addr : ℤ) (n : ℕ) (v : Bytes) (ram : Ram)
    → (n ≤ user_space_end) ⊎ (address kernel_start ≤ n)
    → translate kind addr (store n v ram) ≡ translate kind addr ram
unfolding get_process_start get_process_end
translate-store kind addr n v ram h = rw (
  translate_bounds kind addr (store n v ram) (get_process_start ram) (get_process_end ram)
      (cc (update_ne ram.cells n 21 v (omega arith)))
      (cc (update_ne ram.cells n 22 v (omega arith))),
  translate_bounds kind addr ram (get_process_start ram) (get_process_end ram) refl refl,
)

-- A store outside the bounds of the process leaves every address where it was.
locate_user-store :
    (kind : AccessKind) (addr : ℤ) (n : ℕ) (v : Bytes) (ram : Ram)
    → (n ≤ user_space_end) ⊎ (address kernel_start ≤ n)
    → locate kind addr (store n v ram) ≡ locate kind addr ram
locate_user-store kind addr n v ram h =
    let moved = translate-store kind addr n v ram h in unfold locate in ground arith

locate_kernel-store :
    (kind : AccessKind) (addr : ℤ) (n : ℕ) (v : Bytes) (ram : Ram)
    → ram.kernel_mode ≡ true
    → locate kind addr (store n v ram) ≡ locate kind addr ram
unfolding locate
locate_kernel-store kind addr n v ram k = ground arith

-- What a located cell and a store into it have to do with the other addresses.
pub record Located (a n : ℕ) (ram : Ram) : Type 0 where
  pub either : (kind : AccessKind) → locate kind (pos a) ram ≡ ok n
  pub stays :
      (kind : AccessKind) (b : ℕ) (v : Bytes)
      → locate kind (pos b) (store n v ram) ≡ locate kind (pos b) ram
  pub alone : (kind : AccessKind) (b : ℕ) → locate kind (pos b) ram ≡ ok n → a ≡ b

pub locate-Located :
    (kind : AccessKind) (a n : ℕ) (ram : Ram)
    → IsReady ram
    → locate kind (pos a) ram ≡ ok n
    → Located a n ram
locate-Located kind a n ram (kernel k) h =
    let (low, high, is) = locate_kernel_sound kind a n ram k h in
    record {
      either = λ other. rw is (locate_kernel other a ram k low high);
      stays = λ other b v. locate_kernel-store other (pos b) n v ram k;
      alone = λ other b e. let (_, _, is') = locate_kernel_sound other b n ram k e in omega arith;
    }
locate-Located kind a n ram (process start end p) h =
    let at = locate_user_sound kind a start end ram p n h in
    let outside = IsCellOf-outside a start end n p.above at in
    record {
      either = λ other. locate_user_complete other a start end n ram p at;
      stays = λ other b v. locate_user-store other (pos b) n v ram (omega arith);
      alone = λ other b e.
          IsCellOf-injective a b start end n p.above at
            (locate_user_sound other b start end ram p n e);
    }
