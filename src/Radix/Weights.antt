-- ===== src/Radix/Weights.antt =====
-- Sums over the nodes of a tree: what splits, new access times and insertions do to them.
use sglang_mlx.Prelude.{
  ℕ, zero, suc, ◌+◌, ◌<◌, List, [], ◌∷◌, ◌≡◌, refl, sym, ◌∙◌, length, ltb, drop, get_or, ℤ, arith,
  Bool-cases, inl, inr, ltb→lt,
}
use sglang_mlx.Radix.Tree.{
  TreeNode, Tree, tree, Children, nil, child, Supply, after_new, key_match, split_node, upper_half,
  lower_half,
}
use sglang_mlx.Radix.Walk.{
  leads, raised, leaf_node, add_leaf, match_children, match_tree, insert_children, insert_tree,
}

module _ (weight : TreeNode → ℕ) where
  unfoldable mutual
    pub sum_children : Children → ℕ
    sum_children nil = 0
    sum_children (child c t f) = sum_tree t + sum_children f

    pub sum_tree : Tree → ℕ
    sum_tree (tree h f) = weight h + sum_children f

-- A weight that goes by the tokens: a split divides it, and times and priorities do not count. A
-- new leaf brings `gain` of its tokens and slots.
pub record IsAdditive (weight : TreeNode → ℕ) (gain : List ℕ → List ℕ → ℕ) : Type 0 where
  pub touch : (h : TreeNode) (t : ℕ) → weight (record h { last_access_time = t }) ≡ weight h
  pub raise : (h : TreeNode) (p : ℤ) → weight (raised h p) ≡ weight h
  pub cut :
      (s : Supply) (h : TreeNode) (n : ℕ)
      → n < length h.key
      → weight (upper_half s h n) + weight (lower_half h n) ≡ weight h
  pub leaf :
      (s : Supply) (k : ℕ) (key value : List ℕ) (p : ℤ)
      → weight (leaf_node s (k ∷ key) value p) ≡ gain (k ∷ key) value
  pub nothing : (value : List ℕ) → gain [] value ≡ 0

drop-nil {ℓ} : {A : Type ℓ} (n : ℕ) → drop {A = A} n [] ≡ []
drop-nil zero = refl
drop-nil (suc n) = refl

pub drop-drop {ℓ} : {A : Type ℓ} (m n : ℕ) (xs : List A) → drop m (drop n xs) ≡ drop (n + m) xs
drop-drop m zero xs = let e : zero + m ≡ m = omega arith in rw e
drop-drop m (suc n) [] = drop-nil m ∙ sym (drop-nil (suc n + m))
drop-drop m (suc n) (x ∷ xs) =
    let e : suc n + m ≡ suc (n + m) = omega arith in rw e (drop-drop m n xs)

-- The end of an insertion matches no further token.
pub prefix_len-add_leaf :
    (node : TreeNode) (all : Children) (key value : List ℕ) (p : ℤ) (s : Supply) (l : List ℕ)
    → (add_leaf node all key value p s l).prefix_len ≡ 0
unfolding add_leaf
prefix_len-add_leaf node all [] value p s l = refl
prefix_len-add_leaf node all (k ∷ key) value p s l = refl

module _ (weight : TreeNode → ℕ) (gain : List ℕ → List ℕ → ℕ) (a : IsAdditive weight gain) where
  mutual
    unfolding match_tree split_node sum_tree

    pub sum-match_children :
        (node : ℕ) (f : Children) (key : List ℕ) (now : ℕ) (s : Supply)
        → sum_children weight (match_children node f key now s).out ≡ sum_children weight f
    sum-match_children node nil key now s = refl
    sum-match_children node (child c t f) key now s = elim (Bool-cases (leads c key)) [
      | inl hit ↦ rw hit (omega (arith, sum-match_tree t key now s))
      | inr miss ↦ rw miss (omega (arith, sum-match_children node f key now s))
    ]

    pub sum-match_tree :
        (t : Tree) (key : List ℕ) (now : ℕ) (s : Supply)
        → sum_tree weight (match_tree t key now s).out ≡ sum_tree weight t
    sum-match_tree (tree h f) key now s =
        let n = key_match h.key key in
        let h' = record h { last_access_time = now } in
        elim (Bool-cases (ltb n (length h.key))) [
          | inl part ↦ rw part (omega (arith, a.cut s h' n (ltb→lt _ _ part), a.touch h now))
          | inr whole ↦
              rw whole (omega (arith, a.touch h now, sum-match_children h.id f (drop n key) now s))
        ]

  sum-add_leaf :
      (node : TreeNode) (all : Children) (key value : List ℕ) (p : ℤ) (s : Supply) (l : List ℕ)
      → sum_children weight (add_leaf node all key value p s l).out ≡ gain key value
  unfolding add_leaf sum_tree
  sum-add_leaf node all [] value p s l = sym (a.nothing value)
  sum-add_leaf node all (k ∷ key) value p s l = omega (arith, a.leaf s k key value p)

  mutual
    unfolding insert_tree sum_tree

    pub sum-insert_children :
        (node : TreeNode) (all f : Children) (key value : List ℕ) (p : ℤ) (now : ℕ) (s : Supply)
        (l : List ℕ)
        → let r = insert_children node all f key value p now s l in
          sum_children weight r.out
          ≡ sum_children weight f + gain (drop r.prefix_len key) (drop r.prefix_len value)
    sum-insert_children node all nil key value p now s l =
        rw (prefix_len-add_leaf node all key value p s l)
          (omega (arith, sum-add_leaf node all key value p s l))
    sum-insert_children node all (child c t f) key value p now s l =
        elim (Bool-cases (leads c key)) [
          | inl hit ↦ rw hit (omega (arith, sum-insert_tree t key value p now s l))
          | inr miss ↦ rw miss (omega (arith, sum-insert_children node all f key value p now s l))
        ]

    pub sum-insert_tree :
        (t : Tree) (key value : List ℕ) (p : ℤ) (now : ℕ) (s : Supply) (l : List ℕ)
        → let r = insert_tree t key value p now s l in
          sum_tree weight r.out
          ≡ sum_tree weight t + gain (drop r.prefix_len key) (drop r.prefix_len value)
    sum-insert_tree (tree h f) key value p now s l =
        let n = key_match h.key key in
        let h' = record h { last_access_time = now } in
        elim (Bool-cases (ltb n (length h.key))) [
          | inl part ↦ rw part (
              omega (
                arith,
                a.cut s h' n (ltb→lt _ _ part),
                a.touch h now,
                a.raise (upper_half s h' n) p,
                sum-add_leaf (raised (upper_half s h' n) p)
                    (child (get_or h.key n 0) (tree (lower_half h' n) f) nil) (drop n key)
                    (drop n value) p (after_new s) l,
              ))
          | inr whole ↦
              let rest = insert_children (raised h' p) f f (drop n key) (drop n value) p now s l in
              rw (whole, ← drop-drop rest.prefix_len n key, ← drop-drop rest.prefix_len n value)
                (omega (
                  arith,
                  a.touch h now,
                  a.raise h' p,
                  sum-insert_children (raised h' p) f f (drop n key) (drop n value) p now s l,
                ))
        ]
