-- ===== src/Radix/Evict/LeafSums.antt =====
-- Sums over the evictable leaves of a tree, as `_update_leaf_status` tests them.
use sglang_mlx.Prelude.{ℕ, ◌+◌, ◌≤◌, ◌≡◌, refl, arith, if◌then◌else◌, ◌==◌, ap₂}
use sglang_mlx.Radix.Tree.{TreeNode, Tree, tree, Children, nil, child, is_evictable_leaf}
use sglang_mlx.Radix.Weights.{sum_children, sum_tree}
use sglang_mlx.Radix.Leaves.{is_id, ids, own, leaves_children, leaves_tree}

-- The weight of a node, where it is an evictable leaf.
unfoldable pub leaf_weight : (TreeNode → ℕ) → TreeNode → Children → ℕ
leaf_weight w h f = if is_evictable_leaf h f then w h else 0

unfoldable mutual
  pub leaf_sum_children : (TreeNode → ℕ) → Children → ℕ
  leaf_sum_children w nil = 0
  leaf_sum_children w (child c t f) = leaf_sum_tree w t + leaf_sum_children w f

  pub leaf_sum_tree : (TreeNode → ℕ) → Tree → ℕ
  leaf_sum_tree w (tree h f) = leaf_weight w h f + leaf_sum_children w f

pub leaf_weight-le : (w : TreeNode → ℕ) (h : TreeNode) (f : Children) → leaf_weight w h f ≤ w h
unfolding leaf_weight
leaf_weight-le w h f = ground arith

mutual
  unfolding leaf_sum_tree sum_tree

  pub leaf_sum_children-le :
      (w : TreeNode → ℕ) (f : Children) → leaf_sum_children w f ≤ sum_children w f
  leaf_sum_children-le w nil = omega arith
  leaf_sum_children-le w (child c t f) =
      omega (arith, leaf_sum_tree-le w t, leaf_sum_children-le w f)

  pub leaf_sum_tree-le : (w : TreeNode → ℕ) (t : Tree) → leaf_sum_tree w t ≤ sum_tree w t
  leaf_sum_tree-le w (tree h f) = omega (arith, leaf_weight-le w h f, leaf_sum_children-le w f)

mutual
  unfolding leaf_sum_tree leaves_tree leaf_weight own

  pub leaf_sum-leaves : (i : ℕ) (f : Children) → leaf_sum_children (is_id i) f ≡ leaves_children i f
  leaf_sum-leaves i nil = refl
  leaf_sum-leaves i (child c t f) = ap₂ ◌+◌ (leaf_sum-leaves_tree i t) (leaf_sum-leaves i f)

  pub leaf_sum-leaves_tree : (i : ℕ) (t : Tree) → leaf_sum_tree (is_id i) t ≡ leaves_tree i t
  leaf_sum-leaves_tree i (tree h f) = omega (arith, leaf_sum-leaves i f)

-- The weight of the nodes with the id `i`.
unfoldable pub at_id : ℕ → (TreeNode → ℕ) → TreeNode → ℕ
at_id i w h = if h.id == i then w h else 0

-- Where no node has the id, no such node weighs anything.
mutual
  unfolding sum_tree at_id is_id

  pub sum-at_id :
      (i : ℕ) (w : TreeNode → ℕ) (f : Children) → ids i f ≡ 0 → sum_children (at_id i w) f ≡ 0
  sum-at_id i w nil e = refl
  sum-at_id i w (child c t f) e =
      omega (arith, sum-at_id_tree i w t (omega (arith, e)), sum-at_id i w f (omega (arith, e)))

  pub sum-at_id_tree :
      (i : ℕ) (w : TreeNode → ℕ) (t : Tree) → sum_tree (is_id i) t ≡ 0 → sum_tree (at_id i w) t ≡ 0
  sum-at_id_tree i w (tree h f) e = ground (arith, sum-at_id i w f (omega (arith, e)))
