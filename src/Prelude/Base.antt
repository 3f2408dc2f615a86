-- ===== src/Prelude/Base.antt =====
-- The names that the integers stand on.
pub use Prim.Native.Nat.{ℕ, zero, suc, ◌+◌, ◌-◌, ◌*◌, ◌≤◌, ◌<◌}
pub use mathlib.Core.Path.{◌≡◌, refl}
pub use mathlib.Core.Logic.{◌⊎◌}
pub use mathlib.Core.Bool.{Bool, true, false}
pub use native.Mathlib.Omega.{arith}
pub use sglang_mlx.Prelude.Tests.{ltb, leb, ◌==◌, if◌then◌else◌}
