-- ===== src/Radix/Evict/Victim.antt =====
-- The node that a cut took from the tree, for an entry of the heap.
use sglang_mlx.Prelude.{
  ℕ, ◌+◌, ◌≤◌, true, false, ◌≡◌, refl, arith, ◌==◌, if◌then◌else◌, pos, ltb_ℤ, length,
}
use sglang_mlx.Radix.Tree.{TreeNode, tree, Children, nil, child, is_evictable_leaf, slots}
use sglang_mlx.Radix.View.{IsFilled, WfChildren, WfTree}
use sglang_mlx.Radix.Weights.{sum_children, sum_tree}
use sglang_mlx.Radix.Leaves.{is_id, ids}
use sglang_mlx.Radix.LeavesMatch.{has_live_child-occupied}
use sglang_mlx.Radix.Evict.LeafSums.{
  leaf_weight, leaf_sum_children, leaf_sum_tree, leaf_weight-le, leaf_sum_children-le,
  leaf_sum_tree-le, at_id, sum-at_id, sum-at_id_tree,
}
use sglang_mlx.Radix.Evict.Detach.{Cut}

-- The node that a cut took, known by what it weighs: `x` is a heap entry, and the tree has no
-- other node with its id.
pub record Victim (x : TreeNode) (total total' leaves leaves' : (TreeNode → ℕ) → ℕ)
    (parent : TreeNode) (rest : Children) : Type 0 where
  pub sums : (w : TreeNode → ℕ) → total w ≡ total' w + w x
  pub leaf_sums : (w : TreeNode → ℕ) → leaves w + leaf_weight w parent rest ≡ leaves' w + w x
  pub loose : ltb_ℤ (pos 0) x.lock_ref ≡ false
  pub paired : length (slots x.value) ≡ length x.key

-- Two nodes are alike if no weight tells them apart.
twin : (x y : TreeNode) → ((w : TreeNode → ℕ) → w x ≤ w y) → (f : TreeNode → ℕ) → f x ≡ f y
twin x y le f = ground (arith, le (λ h. if f h == f y then 0 else 1))

module _ (y : TreeNode) (below : Children) (name : ℕ) (cut : WfTree name (tree y below)) where
  -- A node that is an evictable leaf has no children.
  leaf-nil : is_evictable_leaf y below ≡ true → (w : TreeNode → ℕ) → sum_children w below ≡ 0
  unfolding is_evictable_leaf sum_children
  leaf-nil e w = go below cut.1 e
    where
      go : (g : Children) → WfChildren g → is_evictable_leaf y g ≡ true → sum_children w g ≡ 0
      go nil v e = refl
      go (child c t g) v e =
          let live = has_live_child-occupied (child c t g) v in absurd (ground arith)

at_id-le : (i : ℕ) (w : TreeNode → ℕ) (h : TreeNode) → at_id i w h ≤ w h
unfolding at_id
at_id-le i w h = ground arith

pub at_id_self : (h : TreeNode) (w : TreeNode → ℕ) → at_id h.id w h ≡ w h
unfolding at_id
at_id_self h w = ground arith

leaf_weight_mono :
    (w v : TreeNode → ℕ) (h : TreeNode) (f : Children)
    → w h ≤ v h
    → leaf_weight w h f ≤ leaf_weight v h f
unfolding leaf_weight
leaf_weight_mono w v h f le = ground arith

leaf_weight-cases :
    (h : TreeNode) (f : Children)
    → 1 ≤ leaf_weight (λ k. 1) h f
    → (is_evictable_leaf h f ≡ true)
      × (ltb_ℤ (pos 0) h.lock_ref ≡ false)
      × ((w : TreeNode → ℕ) → leaf_weight w h f ≡ w h)
unfolding leaf_weight is_evictable_leaf
leaf_weight-cases h f le = (ground arith, ground arith, λ w. ground arith)

pub is_id_self : (h k : TreeNode) → k.id ≡ h.id → is_id h.id k ≡ 1
unfolding is_id
is_id_self h k e = ground arith

filled-length : (c : ℕ) (h : TreeNode) → IsFilled c h → length (slots h.value) ≡ length h.key
filled-length c h v = rw v.held v.paired

pub victim :
    (x r p : TreeNode) (f f' g : Children)
    → ((i : ℕ) → is_id i r + ids i f ≤ 1)
    → ((w : TreeNode → ℕ) → w x ≤ leaf_sum_children w f)
    → Cut x.id p g
        (λ w. sum_tree w (tree r f))
        (λ w. sum_tree w (tree r f'))
        (λ w. leaf_sum_tree w (tree r f))
        (λ w. leaf_sum_tree w (tree r f'))
    → Victim x
        (λ w. sum_tree w (tree r f))
        (λ w. sum_tree w (tree r f'))
        (λ w. leaf_sum_tree w (tree r f))
        (λ w. leaf_sum_tree w (tree r f'))
        p
        g
unfolding sum_tree leaf_sum_tree
victim x r p f f' g one held k =
    let i = x.id in
    let y = k.node in
    let b = k.below in
    let here = is_id_self x y k.same_id in
    let gone : sum_tree (is_id i) (tree r f') ≡ 0 = omega (arith, k.sums (is_id i), here, one i) in
    let under : ids i b ≡ 0 = omega (arith, k.sums (is_id i), here, one i) in
    let bound : (w : TreeNode → ℕ) → w x ≤ leaf_weight w y b = λ w.
      let v = at_id i w in
      omega (
        arith,
        at_id_self x w,
        held v,
        k.leaf_sums v,
        leaf_sum_tree-le v (tree r f'),
        sum-at_id_tree i w (tree r f') gone,
        leaf_sum_children-le v b,
        sum-at_id i w b under,
        leaf_weight_mono v w y b (at_id-le i w y),
      ) in
    let same = twin x y (λ w. omega (arith, bound w, leaf_weight-le w y b)) in
    let leaf = leaf_weight-cases y b (omega (arith, bound (λ h. 1))) in
    let alone = leaf-nil y b k.name k.cut leaf.0 in
    record {
      sums = λ w. omega (arith, k.sums w, alone w, same w);
      leaf_sums =
          λ w. omega (arith, k.leaf_sums w, alone w, same w, leaf_sum_children-le w b, leaf.2 w);
      loose = ground (arith, leaf.1, same (λ h. if ltb_ℤ (pos 0) h.lock_ref then 1 else 0));
      paired = omega (
        arith,
        same (λ h. length (slots h.value)),
        same (λ h. length h.key),
        filled-length k.name y k.cut.0,
      );
    }
