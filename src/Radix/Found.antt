-- ===== src/Radix/Found.antt =====
-- A lock call at a node of the tree has a result.
use sglang_mlx.Prelude.{
  ℕ, ◌≤◌, Option, none, some, ◌≡◌, refl, arith, ℤ, pos, Bool-cases, inl, inr, ◌⊎◌, ◌==◌, ◌||◌,
}
use sglang_mlx.Radix.Tree.{Tree, tree, Children, nil, child}
use sglang_mlx.Radix.Weights.{sum_children, sum_tree}
use sglang_mlx.Radix.Leaves.{is_id, ids}
use sglang_mlx.Radix.Lock.{Body, Books, climb_children, climb_tree}
use sglang_mlx.Radix.Cache.{RadixCache, climb, after_climb, books}

mutual
  unfolding climb_tree sum_children is_id

  climb_children-absent :
      (body : Body) (i : ℕ) (f : Children) (b : Books)
      → climb_children body i f b ≡ none
      → ids i f ≡ 0
  climb_children-absent body i nil b e = refl
  climb_children-absent body i (child c t f) b e =
      ground (arith, climb_tree-absent body i t b, climb_children-absent body i f b)

  climb_tree-absent :
      (body : Body) (i : ℕ) (t : Tree) (b : Books)
      → climb_tree body i t b ≡ none
      → sum_tree (is_id i) t ≡ 0
  climb_tree-absent body i (tree h f) b e = ground (arith, climb_children-absent body i f b)

-- A lock call has a result.
abbrev pub Returns : Option (ℤ × RadixCache) → Type 0
Returns r = (delta : ℤ) × (d : RadixCache) × (r ≡ some (delta, d))

after_climb-Returns :
    (c : RadixCache) (i : ℕ) (r : Option (Children × Books))
    → 1 ≤ ids i c.children
    → (r ≡ none → ids i c.children ≡ 0)
    → Returns (after_climb c r)
after_climb-Returns c i none there absent = absurd (omega (arith, there, absent refl))
after_climb-Returns c i (some (f, b)) there absent = (b.delta, _, refl)

-- A lock call at the root or at a node of the tree has a result.
pub climb-Returns :
    (body : Body) (c : RadixCache) (i : ℕ)
    → (i ≡ c.root.id) ⊎ (1 ≤ ids i c.children)
    → Returns (climb body c i)
unfolding climb
climb-Returns body c i place = elim (Bool-cases (c.disable || c.root.id == i)) [
  | inl skip ↦ rw skip (pos 0, c, refl)
  | inr walk ↦ rw walk (
      after_climb-Returns c i (climb_children body i c.children (books c))
        (elim place [ inl top ↦ absurd (ground arith) | inr there ↦ there ])
        (climb_children-absent body i c.children (books c)))
]
