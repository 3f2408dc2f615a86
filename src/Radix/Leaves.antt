-- ===== src/Radix/Leaves.antt =====
-- The set `evictable_leaves` against the tree: what `_update_leaf_status` settles at one node.
use sglang_mlx.Prelude.{
  ℕ, ◌+◌, ◌≤◌, ◌<◌, true, false, List, [], ◌∷◌, ◌≡◌, refl, arith, ◌==◌, if◌then◌else◌, count,
}
use sglang_mlx.Radix.Tree.{
  TreeNode, Tree, tree, Children, nil, child, contains, discard, add_once, is_evictable_leaf,
  update_leaf_status,
}
use sglang_mlx.Radix.Weights.{sum_children, sum_tree}

-- Whether `i` is the id of a node, as a number.
unfoldable pub is_id : ℕ → TreeNode → ℕ
is_id i h = if i == h.id then 1 else 0

abbrev pub ids : ℕ → Children → ℕ
ids i f = sum_children (is_id i) f

-- Whether `i` is the id of a node that is an evictable leaf.
unfoldable pub own : ℕ → TreeNode → Children → ℕ
unfolding is_id
own i h f = if is_evictable_leaf h f then is_id i h else 0

unfoldable mutual
  pub leaves_children : ℕ → Children → ℕ
  leaves_children i nil = 0
  leaves_children i (child c t f) = leaves_tree i t + leaves_children i f

  pub leaves_tree : ℕ → Tree → ℕ
  leaves_tree i (tree h f) = own i h f + leaves_children i f

pub own-le : (i : ℕ) (h : TreeNode) (f : Children) → own i h f ≤ is_id i h
unfolding own is_id
own-le i h f = ground arith

mutual
  unfolding leaves_tree sum_tree

  pub leaves_children-le : (i : ℕ) (f : Children) → leaves_children i f ≤ ids i f
  leaves_children-le i nil = omega arith
  leaves_children-le i (child c t f) = omega (arith, leaves_tree-le i t, leaves_children-le i f)

  pub leaves_tree-le : (i : ℕ) (t : Tree) → leaves_tree i t ≤ sum_tree (is_id i) t
  leaves_tree-le i (tree h f) = omega (arith, own-le i h f, leaves_children-le i f)

pub count-discard :
    (i j : ℕ) (l : List ℕ) → count i (discard j l) ≡ (if i == j then 0 else count i l)
unfolding count discard
count-discard i j [] = ground arith
count-discard i j (x ∷ l) = ground (arith, count-discard i j l)

contains-count :
    (j : ℕ) (l : List ℕ)
    → (contains j l ≡ true → 0 < count j l) × (contains j l ≡ false → count j l ≡ 0)
unfolding count contains
contains-count j [] = (λ e. cc, λ e. refl)
contains-count j (x ∷ l) =
    let ih = contains-count j l in
    (λ e. ground (arith, ih.0, ih.1), λ e. ground (arith, ih.0, ih.1))

count-add_once :
    (i j : ℕ) (l : List ℕ)
    → count i l ≤ 1
    → count i (add_once j l) ≡ (if i == j then 1 else count i l)
unfolding count add_once
count-add_once i j l h = ground (arith, contains-count j l, contains-count i l)

-- After `_update_leaf_status` the node is in the set exactly if it is an evictable leaf, and the
-- others are as before.
pub count-update_leaf_status :
    (i : ℕ) (h : TreeNode) (f : Children) (l : List ℕ)
    → count i l ≤ 1
    → count i (update_leaf_status h f l) ≡ (if i == h.id then own i h f else count i l)
unfolding update_leaf_status own is_id
count-update_leaf_status i h f l small =
    ground (arith, count-add_once i h.id l, count-discard i h.id l)

-- A set that counts the leaves outside, one node and the leaves below it still does so after the
-- node's status is settled: ids are unique, and `h'` is the node with other fields.
pub settle :
    (i : ℕ) (h h' : TreeNode) (f' : Children) (l : List ℕ) (before outside others below under : ℕ)
    → h'.id ≡ h.id
    → count i l ≡ outside + before + below
    → before ≤ is_id i h
    → outside ≤ others
    → below ≤ under
    → others + is_id i h + under ≤ 1
    → count i (update_leaf_status h' f' l) ≡ outside + own i h' f' + below
unfolding is_id own
settle i h h' f' l before outside others below under same e b o u one =
    ground (arith, count-update_leaf_status i h' f' l)
