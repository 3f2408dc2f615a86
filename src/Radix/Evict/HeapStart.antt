-- ===== src/Radix/Evict/HeapStart.antt =====
-- The heap that `evict` builds from `evictable_leaves`: the evictable leaves of the tree, once
-- each.
use sglang_mlx.Prelude.{
  ℕ, ◌+◌, ◌≤◌, true, Option, none, some, List, [], ◌∷◌, ◌≡◌, refl, sym, ◌∙◌, ap, ap₂, fun_ext,
  arith, ◌==◌, if◌then◌else◌, Bool-cases, inl, inr, count, ltb,
}
use sglang_mlx.Radix.Tree.{TreeNode, Tree, tree, Children, nil, child}
use sglang_mlx.Radix.Weights.{sum_children, sum_tree}
use sglang_mlx.Radix.Leaves.{is_id, ids}
use sglang_mlx.Radix.LeavesLock.{Exact}
use sglang_mlx.Radix.Evict.LeafSums.{
  leaf_weight, leaf_sum_children, leaf_sum_tree, leaf_weight-le, leaf_sum_children-le,
  leaf_sum_tree-le, at_id, sum-at_id,
}
use sglang_mlx.Radix.Policy.{Strategy}
use sglang_mlx.Radix.PopOrder.{total, AreRanked}
use sglang_mlx.Radix.Evict.Round.{heap_sum}
use sglang_mlx.Radix.Evict.{Entry, entry, find_children, find_tree, leaf_entries, or_find, or_skip}

-- The weight of a node whose reference is in the list.
unfoldable pub listed : List ℕ → (TreeNode → ℕ) → TreeNode → ℕ
listed l w h = if ltb 0 (count h.id l) then w h else 0

abbrev pub found_weight : (TreeNode → ℕ) → Option TreeNode → ℕ
found_weight w none = 0
found_weight w (some h) = w h

same_id : (i : ℕ) (h : TreeNode) → (h.id == i) ≡ true → is_id i h ≡ 1
unfolding is_id
same_id i h e = ground arith

at_id-one : (i : ℕ) (t : Tree) → sum_tree (at_id i (λ h. 1)) t ≡ sum_tree (is_id i) t
unfolding at_id is_id
at_id-one i t = ap (λ w. sum_tree w t) (fun_ext λ h. ground arith)

find_join :
    (i : ℕ) (w : TreeNode → ℕ) (t : Tree) (f : Children) (a b : Option TreeNode)
    → found_weight w a ≡ sum_tree (at_id i w) t
    → found_weight (λ h. 1) a ≡ sum_tree (at_id i (λ h. 1)) t
    → found_weight w b ≡ sum_children (at_id i w) f
    → sum_tree (is_id i) t + ids i f ≤ 1
    → found_weight w (or_find a b) ≡ sum_tree (at_id i w) t + sum_children (at_id i w) f
find_join i w t f none b p q r one = omega (arith, p, r)
find_join i w t f (some h) b p q r one =
    omega (arith, p, sum-at_id i w f (omega (arith, q, at_id-one i t, one)))

-- With one node for an id, a reference finds the weight of its id.
mutual
  unfolding find_tree sum_tree at_id is_id

  find_children-weight :
      (i : ℕ) (w : TreeNode → ℕ) (f : Children)
      → ids i f ≤ 1
      → found_weight w (find_children i f) ≡ sum_children (at_id i w) f
  find_children-weight i w nil one = refl
  find_children-weight i w (child c t f) one =
      find_join i w t f (find_tree i t) (find_children i f)
        (find_tree-weight i w t (omega (arith, one)))
        (find_tree-weight i (λ h. 1) t (omega (arith, one)))
        (find_children-weight i w f (omega (arith, one))) one

  find_tree-weight :
      (i : ℕ) (w : TreeNode → ℕ) (t : Tree)
      → sum_tree (is_id i) t ≤ 1
      → found_weight w (find_tree i t) ≡ sum_tree (at_id i w) t
  find_tree-weight i w (tree h f) one = elim (Bool-cases (h.id == i)) [
    | inl e ↦ rw e (omega (arith, sum-at_id i w f (omega (arith, one, same_id i h e))))
    | inr e ↦ rw e (omega (arith, find_children-weight i w f (omega (arith, one))))
  ]

mutual
  unfolding sum_tree

  sum_children-zero : (f : Children) → sum_children (λ h. 0) f ≡ 0
  sum_children-zero nil = refl
  sum_children-zero (child c t f) = omega (arith, sum_tree-zero t, sum_children-zero f)

  sum_tree-zero : (t : Tree) → sum_tree (λ h. 0) t ≡ 0
  sum_tree-zero (tree h f) = omega (arith, sum_children-zero f)

mutual
  unfolding sum_tree

  sum_children-add :
      (v w : TreeNode → ℕ) (f : Children)
      → sum_children (λ h. v h + w h) f ≡ sum_children v f + sum_children w f
  sum_children-add v w nil = refl
  sum_children-add v w (child c t f) = omega (arith, sum_tree-add v w t, sum_children-add v w f)

  sum_tree-add :
      (v w : TreeNode → ℕ) (t : Tree) → sum_tree (λ h. v h + w h) t ≡ sum_tree v t + sum_tree w t
  sum_tree-add v w (tree h f) = omega (arith, sum_children-add v w f)

skip_join :
    (st : Strategy) (w : TreeNode → ℕ) (r : Option TreeNode) (l : List Entry)
    → heap_sum w (or_skip st r l) ≡ found_weight w r + heap_sum w l
unfolding total entry
skip_join st w none l = omega arith
skip_join st w (some h) l = refl

listed-cons :
    (i : ℕ) (l : List ℕ) (w : TreeNode → ℕ) (h : TreeNode)
    → count i (i ∷ l) ≤ 1
    → at_id i w h + listed l w h ≡ listed (i ∷ l) w h
unfolding at_id listed count
listed-cons i l w h once = ground arith

count-tail : (i j : ℕ) (l : List ℕ) → count i (j ∷ l) ≤ 1 → count i l ≤ 1
unfolding count
count-tail i j l h = omega (arith, h)

listed-nil : (w : TreeNode → ℕ) (f : Children) → sum_children (listed [] w) f ≡ 0
unfolding listed count
listed-nil w f = ap (λ v. sum_children v f) (fun_ext λ h. ground arith) ∙ sum_children-zero f

heap_sum-entries :
    (st : Strategy) (w : TreeNode → ℕ) (f : Children) (l : List ℕ)
    → ((i : ℕ) → ids i f ≤ 1)
    → ((i : ℕ) → count i l ≤ 1)
    → heap_sum w (leaf_entries st f l) ≡ sum_children (listed l w) f
unfolding leaf_entries total
heap_sum-entries st w f [] one once = sym (listed-nil w f)
heap_sum-entries st w f (i ∷ l) one once =
    skip_join st w (find_children i f) (leaf_entries st f l)
    ∙ ap₂ ◌+◌ (find_children-weight i w f (one i))
        (heap_sum-entries st w f l one (λ j. count-tail j i l (once j)))
    ∙ sym (sum_children-add (at_id i w) (listed l w) f)
    ∙ ap (λ v. sum_children v f) (fun_ext λ h. listed-cons i l w h (once i))

-- At a node the set tells whether it is an evictable leaf, since ids are unique.
listed-node :
    (l : List ℕ) (w : TreeNode → ℕ) (h : TreeNode) (g : Children) (out others : ℕ)
    → Exact l h.id out others
        (leaf_sum_tree (is_id h.id) (tree h g))
        (sum_tree (is_id h.id) (tree h g))
    → listed l w h ≡ leaf_weight w h g
unfolding listed leaf_weight is_id leaf_sum_tree sum_tree
listed-node l w h g out others x =
    ground (arith, x.counts, x.apart, x.one, leaf_sum_children-le (is_id h.id) g)

mutual
  unfolding leaf_sum_tree sum_tree

  pub listed-children :
      (l : List ℕ) (w : TreeNode → ℕ) (g : Children) (out others : ℕ → ℕ)
      → ((i : ℕ) → Exact l i (out i) (others i) (leaf_sum_children (is_id i) g) (ids i g))
      → sum_children (listed l w) g ≡ leaf_sum_children w g
  listed-children l w nil out others x = refl
  listed-children l w (child c t f) out others x =
      ap₂ ◌+◌
        (listed-tree l w t (λ i. out i + leaf_sum_children (is_id i) f) (λ i. others i + ids i f)
          (λ i. record {
            counts = omega (arith, (x i).counts);
            apart = omega (arith, (x i).apart, leaf_sum_children-le (is_id i) f);
            one = omega (arith, (x i).one);
          }))
        (listed-children l w f (λ i. out i + leaf_sum_tree (is_id i) t)
          (λ i. others i + sum_tree (is_id i) t)
          (λ i. record {
            counts = omega (arith, (x i).counts);
            apart = omega (arith, (x i).apart, leaf_sum_tree-le (is_id i) t);
            one = omega (arith, (x i).one);
          }))

  listed-tree :
      (l : List ℕ) (w : TreeNode → ℕ) (t : Tree) (out others : ℕ → ℕ)
      → ((i : ℕ) → Exact l i (out i) (others i) (leaf_sum_tree (is_id i) t) (sum_tree (is_id i) t))
      → sum_tree (listed l w) t ≡ leaf_sum_tree w t
  listed-tree l w (tree h g) out others x =
      ap₂ ◌+◌ (listed-node l w h g (out h.id) (others h.id) (x h.id)) (
        listed-children l w g (λ i. out i + leaf_weight (is_id i) h g) (λ i. others i + is_id i h)
          (λ i. record {
            counts = omega (arith, (x i).counts);
            apart = omega (arith, (x i).apart, leaf_weight-le (is_id i) h g);
            one = omega (arith, (x i).one);
          }))

-- On a set that holds the evictable leaves, the heap weighs what they weigh.
pub heap_sum-leaves :
    (st : Strategy) (w : TreeNode → ℕ) (f : Children) (l : List ℕ)
    → ((i : ℕ) → ids i f ≤ 1)
    → ((i : ℕ) → count i l ≡ leaf_sum_children (is_id i) f)
    → heap_sum w (leaf_entries st f l) ≡ leaf_sum_children w f
heap_sum-leaves st w f l one exact =
    heap_sum-entries st w f l one
      (λ i. omega (arith, exact i, one i, leaf_sum_children-le (is_id i) f))
    ∙ listed-children l w f (λ i. 0) (λ i. 0)
        (λ i. record {
          counts = omega (arith, exact i);
          apart = omega arith;
          one = omega (arith, one i);
        })

pub leaf_entries-AreRanked :
    (st : Strategy) (f : Children) (l : List ℕ) → AreRanked st (leaf_entries st f l)
unfolding leaf_entries
leaf_entries-AreRanked st f [] = tt
leaf_entries-AreRanked st f (i ∷ l) =
    skip (find_children i f) (leaf_entries st f l) (leaf_entries-AreRanked st f l)
  where
    skip : (r : Option TreeNode) (k : List Entry) → AreRanked st k → AreRanked st (or_skip st r k)
    skip none k v = v
    skip (some h) k v = (unfold entry in refl, v)
