-- ===== src/Prelude/Counts.antt =====
-- Lists as bags: how often an entry occurs. `omega` reads equations between such counts.
use Prim.Native.Nat.{ℕ, zero, suc, ◌+◌}
use mathlib.Core.Path.{◌≡◌}
use mathlib.Core.List.{List, [], ◌∷◌, ◌++◌}
use native.Mathlib.Omega.{arith}
use sglang_mlx.Prelude.Tests.{◌==◌, if◌then◌else◌}
use sglang_mlx.Prelude.Lists.{take, drop}

unfoldable pub count : ℕ → List ℕ → ℕ
count i [] = 0
count i (x ∷ xs) = (if i == x then 1 else 0) + count i xs

pub count-append : (i : ℕ) (xs ys : List ℕ) → count i (xs ++ ys) ≡ count i xs + count i ys
unfolding count
count-append i [] ys = omega arith
count-append i (x ∷ xs) ys = omega (arith, count-append i xs ys)

pub count-take-drop :
    (i n : ℕ) (xs : List ℕ) → count i (take n xs) + count i (drop n xs) ≡ count i xs
unfolding count
count-take-drop i zero xs = omega arith
count-take-drop i (suc n) [] = omega arith
count-take-drop i (suc n) (x ∷ xs) = omega (arith, count-take-drop i n xs)
