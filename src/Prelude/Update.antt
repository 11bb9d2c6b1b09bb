-- ===== src/Prelude/Update.antt =====
-- A store of cells as a function of the index, and one write to it.
use Prim.Native.Nat.{ℕ}
use mathlib.Core.Path.{◌≡◌, fun_ext}
use mathlib.Core.Logic.{◌≢◌}
use native.Mathlib.Omega.{arith}
use kagu_os.Prelude.Tests.{◌==◌, if◌then◌else◌}

module _ {ℓ} {A : Type ℓ} where
  abbrev pub update : (ℕ → A) → ℕ → A → ℕ → A
  update f a v b = if a == b then v else f b

  pub update_self : (f : ℕ → A) (a : ℕ) (v : A) → update f a v a ≡ v
  update_self f a v = ground arith

  pub update_ne : (f : ℕ → A) (a b : ℕ) (v : A) → a ≢ b → update f a v b ≡ f b
  update_ne f a b v h = ground arith

  update_twice :
      (f : ℕ → A) (a : ℕ) (v w : A) (b : ℕ) → update (update f a v) a w b ≡ update f a w b
  update_twice f a v w b = ground arith

  pub update-update : (f : ℕ → A) (a : ℕ) (v w : A) → update (update f a v) a w ≡ update f a w
  update-update f a v w = fun_ext λ b. update_twice f a v w b
