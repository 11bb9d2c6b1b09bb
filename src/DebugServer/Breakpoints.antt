-- ===== src/DebugServer/Breakpoints.antt =====
-- The breakpoints of the debug server as a set of addresses.
use kagu_os.Prelude.{◌≡◌, refl, true, ◌&&◌, ◌||◌, not, List, [], ◌∷◌, arith, ℤ, eqb_ℤ}
use kagu_os.DebugServer.{contains, insert, erase}

same_contains : (a b : ℤ) (bs : List ℤ) → eqb_ℤ b a ≡ true → contains b bs ≡ contains a bs
unfolding contains
same_contains a b [] h = refl
same_contains a b (c ∷ bs) h = ground (arith, same_contains a b bs)

pub contains-insert :
    (a b : ℤ) (bs : List ℤ) → contains a (insert b bs) ≡ (eqb_ℤ b a || contains a bs)
unfolding insert contains
contains-insert a b bs = ground (arith, same_contains a b bs)

pub contains-erase :
    (a b : ℤ) (bs : List ℤ) → contains a (erase b bs) ≡ (not (eqb_ℤ b a) && contains a bs)
unfolding contains erase
contains-erase a b [] = ground arith
contains-erase a b (c ∷ bs) = ground (arith, contains-erase a b bs)
