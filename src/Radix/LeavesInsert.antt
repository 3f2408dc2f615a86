-- ===== src/Radix/LeavesInsert.antt =====
-- An insertion keeps the set of evictable leaves exact: the new leaf enters, its parent leaves.
use sglang_mlx.Prelude.{
  ℕ, suc, ◌+◌, ◌≤◌, List, [], ◌∷◌, ◌≡◌, refl, arith, ltb, length, Bool-cases, inl, inr, drop,
  get_or, ℤ,
}
use sglang_mlx.Radix.Tree.{
  TreeNode, Tree, tree, Children, nil, child, Supply, upper_half, lower_half, key_match, after_new,
}
use sglang_mlx.Radix.Walk.{leads, raised, add_leaf, insert_children, insert_tree}
use sglang_mlx.Radix.Weights.{sum_tree}
use sglang_mlx.Radix.Leaves.{is_id, ids}
use sglang_mlx.Radix.LeavesMatch.{within}

ids-add_leaf :
    (i : ℕ) (node : TreeNode) (all : Children) (key value : List ℕ) (p : ℤ) (s : Supply)
    (l : List ℕ)
    → let r = add_leaf node all key value p s l in
      (ids i r.out ≡ within s.counter r.supply.counter i) × (s.counter ≤ r.supply.counter)
unfolding add_leaf sum_tree is_id
ids-add_leaf i node all [] value p s l = ground arith
ids-add_leaf i node all (k ∷ key) value p s l = ground arith

-- The arithmetic of a split with a new leaf, and of a node that is passed.
ids-split :
    (i : ℕ) (upper h lower : TreeNode) (s : Supply) (last old new : ℕ)
    → upper.id ≡ s.counter
    → lower.id ≡ h.id
    → (new ≡ within (suc s.counter) last i) × (suc s.counter ≤ last)
    → (is_id i upper + (is_id i lower + old + new) ≡ is_id i h + old + within s.counter last i)
      × (s.counter ≤ last)
unfolding is_id
ids-split i upper h lower s last old new u same e = ground arith

ids-whole :
    (i : ℕ) (h h' : TreeNode) (old new first last : ℕ)
    → h'.id ≡ h.id
    → (new ≡ old + within first last i) × (first ≤ last)
    → (is_id i h' + new ≡ is_id i h + old + within first last i) × (first ≤ last)
unfolding is_id
ids-whole i h h' old new first last same e = ground arith

mutual
  unfolding insert_tree sum_tree upper_half

  pub ids-insert_children :
      (i : ℕ) (node : TreeNode) (all f : Children) (key value : List ℕ) (p : ℤ) (now : ℕ)
      (s : Supply) (l : List ℕ)
      → let r = insert_children node all f key value p now s l in
        (ids i r.out ≡ ids i f + within s.counter r.supply.counter i)
        × (s.counter ≤ r.supply.counter)
  ids-insert_children i node all nil key value p now s l =
      omega (arith, ids-add_leaf i node all key value p s l)
  ids-insert_children i node all (child c t f) key value p now s l =
      elim (Bool-cases (leads c key)) [
        | inl hit ↦ rw hit (omega (arith, ids-insert_tree i t key value p now s l))
        | inr miss ↦ rw miss (omega (arith, ids-insert_children i node all f key value p now s l))
      ]

  pub ids-insert_tree :
      (i : ℕ) (t : Tree) (key value : List ℕ) (p : ℤ) (now : ℕ) (s : Supply) (l : List ℕ)
      → let r = insert_tree t key value p now s l in
        (sum_tree (is_id i) r.out ≡ sum_tree (is_id i) t + within s.counter r.supply.counter i)
        × (s.counter ≤ r.supply.counter)
  ids-insert_tree i (tree h f) key value p now s l =
      let n = key_match h.key key in
      let h' = record h { last_access_time = now } in
      elim (Bool-cases (ltb n (length h.key))) [
        | inl part ↦
            let below = child (get_or h.key n 0) (tree (lower_half h' n) f) nil in
            let upper = raised (upper_half s h' n) p in
            rw part (
              ids-split i upper h (lower_half h' n) s
                (add_leaf upper below (drop n key) (drop n value) p (after_new s) l).supply.counter
                _ _ refl refl
                (ids-add_leaf i upper below (drop n key) (drop n value) p (after_new s) l))
        | inr whole ↦ rw whole (
            ids-whole i h (raised h' p) _ _ _ _ refl
              (ids-insert_children i (raised h' p) f f (drop n key) (drop n value) p now s l))
      ]
