-- ===== src/Ram/ReadWrite.antt =====
-- The memory as a set of independent cells: what a write leaves for later reads.
use kagu_os.Prelude.{ℕ, ◌≡◌, refl, ap, ◌∙◌, ◌≢◌, update_self, update_ne, ℤ, pos}
use kagu_os.Std.Text.{Bytes}
use kagu_os.Std.Fault.{Fault, Result, ok, fail, >>=-eq-ok}
use kagu_os.Ram.{Ram, reading, writing, store, locate, read, write}
use kagu_os.Ram.Cells.{IsReady, Located, locate-Located}

-- A write that succeeds stored the text in the cell of its address.
pub write-ok :
    (a : ℕ) (v : Bytes) (ram ram' : Ram)
    → write (pos a) v ram ≡ ok ram'
    → (n : ℕ) × (locate writing (pos a) ram ≡ ok n) × (ram' ≡ store n v ram)
unfolding write
write-ok a v ram ram' h =
    let (n, at, e) = >>=-eq-ok (λ n. ok (store n v ram)) (locate writing (pos a) ram) h in
    (n, at, cc e)

-- What a read returns once its cell is known.
pub read-located :
    (addr : ℤ) (n : ℕ) (ram : Ram)
    → locate reading addr ram ≡ ok n
    → read addr ram ≡ ok (ram.cells n)
unfolding read
read-located addr n ram h = rw h

pub write-located :
    (addr : ℤ) (n : ℕ) (v : Bytes) (ram : Ram)
    → locate writing addr ram ≡ ok n
    → write addr v ram ≡ ok (store n v ram)
unfolding write
write-located addr n v ram h = rw h

pub read-failed :
    (addr : ℤ) (f : Fault) (ram : Ram) → locate reading addr ram ≡ fail f → read addr ram ≡ fail f
unfolding read
read-failed addr f ram h = rw h

-- In kernel mode or with a process running, after a write to an address from 0 upwards that succeeds,
-- the address reads as the text that was written.
pub read-write :
    (a : ℕ) (v : Bytes) (ram ram' : Ram)
    → IsReady ram
    → write (pos a) v ram ≡ ok ram'
    → read (pos a) ram' ≡ ok v
read-write a v ram ram' r h =
    let (n, at, is) = write-ok a v ram ram' h in
    let l = locate-Located writing a n ram r at in
    rw (is, read-located (pos a) n (store n v ram) (l.stays reading a v ∙ l.either reading))
      (ap ok (update_self ram.cells n v))

-- In kernel mode or with a process running, after a write to an address from 0 upwards that succeeds,
-- every other such address reads as before, and fails where it failed before.
pub read-write_ne :
    (a b : ℕ) (v : Bytes) (ram ram' : Ram)
    → IsReady ram
    → write (pos a) v ram ≡ ok ram'
    → a ≢ b
    → read (pos b) ram' ≡ read (pos b) ram
read-write_ne a b v ram ram' r h ne =
    let (n, at, is) = write-ok a v ram ram' h in
    let l = locate-Located writing a n ram r at in
    rw is (same_read l (locate reading (pos b) ram) refl)
  where
    same_read :
        {n : ℕ}
        → Located a n ram
        → (found : Result ℕ) → locate reading (pos b) ram ≡ found
        → read (pos b) (store n v ram) ≡ read (pos b) ram
    same_read {n} l (ok m) e =
        rw
          (
            read-located (pos b) m (store n v ram) (l.stays reading b v ∙ e),
            read-located (pos b) m ram e,
          )
          (ap ok (update_ne ram.cells n m v (λ q. ne (l.alone reading b (rw q e)))))
    same_read {n} l (fail f) e = rw (
      read-failed (pos b) f (store n v ram) (l.stays reading b v ∙ e),
      read-failed (pos b) f ram e,
    )
