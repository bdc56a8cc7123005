-- ===== src/Prelude/Memory.antt =====
-- Physical memory as a function from addresses to values, with one write.
use Prim.Native.Nat.{ℕ}
use mathlib.Core.Path.{◌≡◌}
use mathlib.Core.Logic.{◌≢◌}
use native.Mathlib.Omega.{arith}
use slob_os.Prelude.Tests.{◌==◌, if◌then◌else◌}

abbrev pub Memory : Type 0
Memory = ℕ → ℕ

abbrev pub write : Memory → ℕ → ℕ → Memory
write m a v = λ x. if x == a then v else m x

pub write_self : (m : Memory) (a v : ℕ) → write m a v a ≡ v
write_self m a v = ground arith

pub write_ne : (m : Memory) (a v x : ℕ) → x ≢ a → write m a v x ≡ m x
write_ne m a v x h = ground arith
