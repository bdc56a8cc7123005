-- ===== src/Prelude/Store.antt =====
-- A store of structures by their addresses, with one write.
use Prim.Native.Nat.{ℕ}
use mathlib.Core.Path.{◌≡◌}
use mathlib.Core.Logic.{◌≢◌}
use native.Mathlib.Omega.{arith}
use slob_os.Prelude.Tests.{◌==◌, if◌then◌else◌}

module _ {ℓ} {A : Type ℓ} where
  abbrev pub put : (ℕ → A) → ℕ → A → ℕ → A
  put store a v = λ x. if x == a then v else store x

  pub put_self : (store : ℕ → A) (a : ℕ) (v : A) → put store a v a ≡ v
  put_self store a v = ground arith

  pub put_ne : (store : ℕ → A) (a : ℕ) (v : A) (x : ℕ) → x ≢ a → put store a v x ≡ store x
  put_ne store a v x h = ground arith
