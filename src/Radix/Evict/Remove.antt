-- ===== src/Radix/Evict/Remove.antt =====
-- `children.pop(key)` of `_delete_leaf` on one dictionary.
use mathlib.Core.Option
use sglang_mlx.Prelude.{
  ℕ, ◌+◌, true, false, Option, none, some, ◌≡◌, refl, arith, ◌==◌, Bool-cases, inl, inr,
}
use sglang_mlx.Radix.Tree.{TreeNode, Tree, tree, Children, nil, child}
use sglang_mlx.Radix.Evict.View.{Shrinks, removed-Shrinks, later-Shrinks}
use sglang_mlx.Radix.View.{cached_children, has_child, WfChildren, WfTree}
use sglang_mlx.Radix.Weights.{sum_children, sum_tree}
use sglang_mlx.Radix.LeavesMatch.{occupied}
use sglang_mlx.Radix.Evict.LeafSums.{leaf_sum_children, leaf_sum_tree}
use sglang_mlx.Radix.Evict.{remove_child}

-- A dictionary before and after an entry was removed from it.
pub record Removed (i : ℕ) (f f' : Children) : Type 0 where
  pub node : TreeNode
  pub below : Children
  pub name : ℕ
  pub same_id : node.id ≡ i
  pub sums :
      (w : TreeNode → ℕ) → sum_children w f ≡ sum_children w f' + sum_tree w (tree node below)
  pub leaf_sums :
      (w : TreeNode → ℕ)
      → leaf_sum_children w f ≡ leaf_sum_children w f' + leaf_sum_tree w (tree node below)
  pub shape : WfChildren f'
  pub names : (d : ℕ) → has_child d f ≡ false → has_child d f' ≡ false
  pub view : Shrinks (cached_children f') (cached_children f)
  pub cut : WfTree name (tree node below)
  pub some_child : occupied f ≡ true

abbrev pub RemoveLem : ℕ → Children → Option Children → Type 0
RemoveLem i f none = Unit
RemoveLem i f (some f') = Removed i f f'

RemoveLem-later :
    (i c : ℕ) (t : Tree) (f : Children) (r : Option Children)
    → WfTree c t
    → has_child c f ≡ false
    → RemoveLem i f r
    → RemoveLem i (child c t f) (Option.map (child c t) r)
unfolding sum_children leaf_sum_children has_child
RemoveLem-later i c t f none w k p = tt
RemoveLem-later i c t f (some f') w k p = record {
  node = p.node;
  below = p.below;
  name = p.name;
  same_id = p.same_id;
  sums = λ v. omega (arith, p.sums v);
  leaf_sums = λ v. omega (arith, p.leaf_sums v);
  shape = (w, p.names c k, p.shape);
  names = λ d q. ground (arith, p.names d);
  view = later-Shrinks c t f f' p.view;
  cut = p.cut;
  some_child = refl;
}

pub remove_child_lem : (i : ℕ) (f : Children) → WfChildren f → RemoveLem i f (remove_child i f)
unfolding remove_child sum_children leaf_sum_children has_child
remove_child_lem i nil w = tt
remove_child_lem i (child c (tree h g) f) w = elim (Bool-cases (h.id == i)) [
  | inl e ↦ rw e (record {
    node = h;
    below = g;
    name = c;
    same_id = ground arith;
    sums = λ v. omega arith;
    leaf_sums = λ v. omega arith;
    shape = w.2;
    names = λ d q. ground arith;
    view = removed-Shrinks c (tree h g) f w.1;
    cut = w.0;
    some_child = refl;
  })
  | inr e ↦ rw e (RemoveLem-later i c (tree h g) f _ w.0 w.1 (remove_child_lem i f w.2))
]
