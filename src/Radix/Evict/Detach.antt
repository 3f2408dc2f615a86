-- ===== src/Radix/Evict/Detach.antt =====
-- `node.parent.children.pop(key)` of `_delete_leaf`: what the tree is without the node.
use sglang_mlx.Prelude.{
  ℕ, ◌+◌, ◌≤◌, true, false, Option, none, some, ◌≡◌, refl, sym, ◌∙◌, arith, List, inl, inr,
  Option-cases,
}
use sglang_mlx.Radix.Tree.{
  TreeNode, Tree, tree, Children, nil, child, is_evictable_leaf, has_live_child, evicted,
}
use sglang_mlx.Radix.Evict.View.{Shrinks, below-Shrinks, later-Shrinks}
use sglang_mlx.Radix.View.{cached_children, has_child, WfChildren, WfTree}
use sglang_mlx.Radix.Weights.{sum_children, sum_tree}
use sglang_mlx.Radix.Leaves.{is_id, ids}
use sglang_mlx.Radix.LeavesMatch.{occupied, has_live_child-occupied}
use sglang_mlx.Radix.Evict.LeafSums.{
  leaf_weight, leaf_sum_children, leaf_sum_tree, leaf_weight-le, leaf_sum_children-le,
  leaf_sum_tree-le,
}
use sglang_mlx.Radix.Evict.{
  Parent, remove_child, detach_tree, detach_children, put_tree, keep_tree, under, removed,
}
use sglang_mlx.Radix.Evict.Remove.{RemoveLem, remove_child_lem}

-- A measure of trees, for each weight of nodes.
abbrev pub Measure : Type 0
Measure = (TreeNode → ℕ) → ℕ

-- The subtree that was cut off: the sums `total` and `leaves` before and after.
pub record Cut (i : ℕ) (parent : TreeNode) (rest : Children) (total total' leaves leaves' : Measure)
    : Type 0 where
  pub node : TreeNode
  pub below : Children
  pub name : ℕ
  pub same_id : node.id ≡ i
  pub sums : (w : TreeNode → ℕ) → total w ≡ total' w + sum_tree w (tree node below)
  pub leaf_sums :
      (w : TreeNode → ℕ)
      → leaves w + leaf_weight w parent rest ≡ leaves' w + leaf_sum_tree w (tree node below)
  pub inside : (w : TreeNode → ℕ) → w parent ≤ total' w
  -- The parent was no leaf before.
  pub busy : (w : TreeNode → ℕ) → leaves w + w parent ≤ total w
  pub live : evicted parent ≡ false
  pub cut : WfTree name (tree node below)
  pub rest_shape : WfChildren rest

abbrev pub CutTree : ℕ → TreeNode → Children → Tree → Parent → Type 0
CutTree i h f t (p, g) =
    (f' : Children) × (t ≡ tree h f')
    × WfChildren f'
    × Shrinks (cached_children f') (cached_children f)
    × Cut i p g (λ w. sum_tree w (tree h f)) (λ w. sum_tree w (tree h f'))
        (λ w. leaf_sum_tree w (tree h f)) (λ w. leaf_sum_tree w (tree h f'))

pub live-held : (h : TreeNode) (v : List ℕ) → h.value ≡ some v → evicted h ≡ false
live-held h v e = rw e refl

-- What `detach_tree` leaves; without a result no node below has the id.
abbrev pub DetachTree : ℕ → TreeNode → Children → Option (Tree × Parent) → Type 0
DetachTree i h f none = ids i f ≡ 0
DetachTree i h f (some (t, p)) = CutTree i h f t p

abbrev pub CutChildren : ℕ → Children → Children → Parent → Type 0
CutChildren i f f' (p, g) =
    WfChildren f'
    × Shrinks (cached_children f') (cached_children f)
    × ((d : ℕ) → has_child d f' ≡ has_child d f)
    × (occupied f' ≡ occupied f)
    × Cut i p g (λ w. sum_children w f) (λ w. sum_children w f') (λ w. leaf_sum_children w f)
        (λ w. leaf_sum_children w f')

abbrev pub DetachChildren : ℕ → Children → Option (Children × Parent) → Type 0
DetachChildren i f none = remove_child i f ≡ none → ids i f ≡ 0
DetachChildren i f (some (f', p)) = CutChildren i f f' p

-- The status of a node goes by whether its dictionary has entries.
leaf_weight-same :
    (w : TreeNode → ℕ) (h : TreeNode) (f f' : Children)
    → WfChildren f
    → WfChildren f'
    → occupied f' ≡ occupied f
    → leaf_weight w h f' ≡ leaf_weight w h f
unfolding leaf_weight is_evictable_leaf
leaf_weight-same w h f f' u u' e =
    let live = has_live_child-occupied f' u' ∙ e ∙ sym (has_live_child-occupied f u) in rw live refl

leaf_weight-occupied :
    (w : TreeNode → ℕ) (h : TreeNode) (f : Children)
    → WfChildren f
    → occupied f ≡ true
    → leaf_weight w h f ≡ 0
unfolding leaf_weight is_evictable_leaf
leaf_weight-occupied w h f u e =
    let live : has_live_child f ≡ true = has_live_child-occupied f u ∙ e in ground arith

DetachTree-join :
    (i : ℕ) (h : TreeNode) (f : Children) (r : Option Children) (d : Option (Children × Parent))
    → remove_child i f ≡ r
    → evicted h ≡ false
    → WfChildren f
    → RemoveLem i f r
    → DetachChildren i f d
    → DetachTree i h f (removed h r (under h d))
unfolding sum_tree leaf_sum_tree
DetachTree-join i h f (some f') d e alive w p q = (
  f',
  refl,
  p.shape,
  p.view,
  record {
    node = p.node;
    below = p.below;
    name = p.name;
    same_id = p.same_id;
    sums = λ v. omega (arith, p.sums v);
    leaf_sums = λ v. omega (arith, p.leaf_sums v, leaf_weight-occupied v h f w p.some_child);
    inside = λ v. omega arith;
    busy = λ v. omega (arith, leaf_weight-occupied v h f w p.some_child, leaf_sum_children-le v f);
    live = alive;
    cut = p.cut;
    rest_shape = p.shape;
  },
)
DetachTree-join i h f none none e alive w p q = q e
DetachTree-join i h f none (some (f', (n, g))) e alive w p (shape, view, names, same, k) = (
  f',
  refl,
  shape,
  view,
  record {
    node = k.node;
    below = k.below;
    name = k.name;
    same_id = k.same_id;
    sums = λ v. omega (arith, k.sums v);
    leaf_sums = λ v. omega (arith, k.leaf_sums v, leaf_weight-same v h f f' w shape same);
    inside = λ v. omega (arith, k.inside v);
    busy = λ v. omega (arith, k.busy v, leaf_weight-le v h f);
    live = k.live;
    cut = k.cut;
    rest_shape = k.rest_shape;
  },
)

remove_child-none :
    (i c : ℕ) (h : TreeNode) (g f : Children)
    → remove_child i (child c (tree h g) f) ≡ none
    → (is_id i h ≡ 0) × (remove_child i f ≡ none)
unfolding remove_child is_id
remove_child-none i c h g f e = elim (Option-cases (remove_child i f)) [
  | inl q ↦ (ground arith, q)
  | inr (k, q) ↦ absurd (ground arith)
]

DetachChildren-join :
    (i c : ℕ) (h : TreeNode) (g f : Children) (t : Option (Tree × Parent))
    (d : Option (Children × Parent))
    → WfChildren (child c (tree h g) f)
    → DetachTree i h g t
    → DetachChildren i f d
    → DetachChildren i (child c (tree h g) f) (put_tree c f t (keep_tree c (tree h g) d))
unfolding remove_child sum_tree leaf_sum_tree has_child is_id
DetachChildren-join i c h g f (some (t, (n, k))) d w (g', same, shape, view, u) q = rw same (
    (
      (
        (
          record {
            first = w.0.0.first;
            indices = w.0.0.indices;
            held = w.0.0.held;
            paired = w.0.0.paired;
          },
          shape,
        ),
        w.1,
        w.2,
      ),
      below-Shrinks c h g g' f view,
      λ b. refl,
      refl,
      record {
        node = u.node;
        below = u.below;
        name = u.name;
        same_id = u.same_id;
        sums = λ v. omega (arith, u.sums v);
        leaf_sums = λ v. omega (arith, u.leaf_sums v);
        inside = λ v. omega (arith, u.inside v);
        busy = λ v. omega (arith, u.busy v, leaf_sum_children-le v f);
        live = u.live;
        cut = u.cut;
        rest_shape = u.rest_shape;
      },
    ))
DetachChildren-join i c h g f none none w p q =
    λ e. let n = remove_child-none i c h g f e in omega (arith, p, q n.1, n.0)
DetachChildren-join i c h g f none (some (f', (n, k))) w p (shape, view, names, same, u) = (
  (w.0, names c ∙ w.1, shape),
  later-Shrinks c (tree h g) f f' view,
  (λ b. ground (arith, names b)),
  refl,
  record {
    node = u.node;
    below = u.below;
    name = u.name;
    same_id = u.same_id;
    sums = λ v. omega (arith, u.sums v);
    leaf_sums = λ v. omega (arith, u.leaf_sums v);
    inside = λ v. omega (arith, u.inside v);
    busy = λ v. omega (arith, u.busy v, leaf_sum_tree-le v (tree h g));
    live = u.live;
    cut = u.cut;
    rest_shape = u.rest_shape;
  },
)

abbrev DetachOf : ℕ → Tree → Option (Tree × Parent) → Type 0
DetachOf i (tree h f) r = DetachTree i h f r

mutual
  unfolding detach_tree sum_tree leaf_sum_tree

  detach_of_lem : (i c : ℕ) (t : Tree) → WfTree c t → DetachOf i t (detach_tree i t)
  detach_of_lem i c (tree h f) w =
      DetachTree-join i h f (remove_child i f) (detach_children i f) refl (live-held h _ w.0.held)
        w.1 (remove_child_lem i f w.1) (detach_children_lem i f w.1)

  pub detach_children_lem :
      (i : ℕ) (f : Children) → WfChildren f → DetachChildren i f (detach_children i f)
  detach_children_lem i nil w = λ e. refl
  detach_children_lem i (child c (tree h g) f) w =
      DetachChildren-join i c h g f (detach_tree i (tree h g)) (detach_children i f) w
        (detach_of_lem i c (tree h g) w.0) (detach_children_lem i f w.2)

pub detach_tree_lem :
    (i : ℕ) (h : TreeNode) (f : Children)
    → evicted h ≡ false
    → WfChildren f
    → DetachTree i h f (detach_tree i (tree h f))
unfolding detach_tree
detach_tree_lem i h f alive w =
    DetachTree-join i h f (remove_child i f) (detach_children i f) refl alive w
      (remove_child_lem i f w) (detach_children_lem i f w)
